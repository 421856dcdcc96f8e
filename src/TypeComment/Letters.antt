-- ===== src/TypeComment/Letters.antt =====
-- Which letters the codes may have.
use ast_serialize.Common.{
  ℕ, Bool, true, false, ◌||◌, List, [], ◌∷◌, some, ◌≡◌, refl, sym, ap, ◌∙◌, Text, codes, ◌==◌, all,
  any, if◌then◌else◌, Bool-cases, inl, inr, or_false, or_assoc,
}
use ast_serialize.Texts.{hash}
use ast_serialize.Texts.Split.{lacks}
use ast_serialize.Texts.Names.{is_plain_name}
use ast_serialize.TypeComment.{
  type_ignore, invalid_ignore, ignore_of, is_code_char, validated, parse_type_comments_full,
}
use ast_serialize.TypeComment.Codes.{ignore_comment, parse_type_comments_full-validated}

all-same :
    {A : Type 0} (p q : A → Bool) → ((a : A) → p a ≡ q a) → (xs : List A) → all p xs ≡ all q xs
all-same p q same [] = refl
all-same p q same (x ∷ xs) = rw (same x, all-same p q same xs) refl

module _ (is_alphanumeric : ℕ → Bool) where
  -- A letter or a digit, or one of three other characters.
  abbrev pub is_allowed : ℕ → Bool
  is_allowed c = is_alphanumeric c || any (λ d. c == d) (codes "_-:")

  is_allowed-is_code_char : (c : ℕ) → is_code_char is_alphanumeric c ≡ is_allowed c
  is_allowed-is_code_char c =
      or_assoc (is_alphanumeric c || c == 95) (c == 45) (c == 58)
      ∙ or_assoc (is_alphanumeric c) (c == 95) (c == 45 || c == 58)
      ∙ ap (λ b. is_alphanumeric c || (c == 95 || (c == 45 || b))) (sym (or_false (c == 58)))

  validated_by :
      (ss : List Text)
      → ignore_of false (validated is_alphanumeric ss)
        ≡ (if all (all is_allowed) ss then type_ignore ss else invalid_ignore false)
  unfolding validated
  validated_by ss =
      let same =
        all-same (all (is_code_char is_alphanumeric)) (all is_allowed)
          (all-same (is_code_char is_alphanumeric) is_allowed is_allowed-is_code_char) ss in
      elim (Bool-cases (all (all is_allowed) ss)) [
        | inl valid ↦ rw (same, valid) refl
        | inr invalid ↦ rw (same, invalid) refl
      ]

  -- The comment `# type: ignore[a, b, c]`, whose names have no whitespace, comma, quote or hash, is
  -- read as one ignore of those codes, in order, if all their characters are letters, digits, `_`, `-`
  -- and `:`, and else as one invalid ignore.
  pub parse_type_comments_full-letters :
      (n : Text) (ns : List Text) (skip_commented : Bool)
      → all is_plain_name (n ∷ ns) ≡ true
      → all (lacks hash) (n ∷ ns) ≡ true
      → parse_type_comments_full is_alphanumeric
          (ignore_comment is_alphanumeric n ns)
          skip_commented
        ≡ some (
            (if all (all is_allowed) (n ∷ ns) then type_ignore (n ∷ ns) else invalid_ignore false)
            ∷ [])
  parse_type_comments_full-letters n ns skip plain hashless =
      parse_type_comments_full-validated is_alphanumeric n ns skip plain hashless
      ∙ ap (λ p. some (p ∷ [])) (validated_by (n ∷ ns))
