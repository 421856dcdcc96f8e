-- ===== src/TypeComment/Skipped.antt =====
-- Parts of a comment that are not read.
use ast_serialize.Common.{
  ℕ, Bool, true, false, List, [], ◌∷◌, ◌++◌, some, none, if◌then◌else◌, ◌≡◌, refl, ap, ◌∙◌, Text,
  Bool-cases, inl, inr,
}
use ast_serialize.Texts.{hash, is_empty, trim}
use ast_serialize.Texts.Split.{lacks, split_on-lacks}
use ast_serialize.TypeComment.{
  TypeComment, parse_comment_part, some_parts, collect, parse_type_comments_full,
}

-- The parts `texts` are understood, as `parts`.
abbrev pub AreUnderstood : (ℕ → Bool) → List Text → List TypeComment → Type 0
AreUnderstood a [] [] = Unit
AreUnderstood a (text ∷ texts) (part ∷ parts) =
    (is_empty (trim text) ≡ false)
    × (parse_comment_part a text ≡ some part)
    × AreUnderstood a texts parts
AreUnderstood a _ _ = ⊥

-- Behind parts that are understood, a part that is not ends the reading if what is commented out is to
-- be skipped; else the parts behind it are read too.
pub collect_unknown :
    (is_alphanumeric : ℕ → Bool) (skip_commented : Bool) (texts : List Text)
    (parts : List TypeComment) (unknown : Text) (rest : List Text)
    → AreUnderstood is_alphanumeric texts parts
    → is_empty (trim unknown) ≡ false
    → parse_comment_part is_alphanumeric unknown ≡ none
    → collect is_alphanumeric skip_commented false (texts ++ (unknown ∷ rest)) ≡ (
        parts ++ (if skip_commented then [] else collect is_alphanumeric skip_commented false rest))
unfolding collect
collect_unknown a true [] [] unknown rest h text u = rw (collect, text, u) refl
collect_unknown a false [] [] unknown rest h text u = rw (collect, text, u) refl
collect_unknown a skip (t ∷ texts) (p ∷ parts) unknown rest (blank, known, h) text u =
    rw (collect, blank, known)
      (ap (λ us. p ∷ us) (collect_unknown a skip texts parts unknown rest h text u))
collect_unknown a skip (t ∷ texts) [] unknown rest h text u = absurd h
collect_unknown a skip [] (p ∷ parts) unknown rest h text u = absurd h

collect-one_ignored :
    (is_alphanumeric : ℕ → Bool) (s : Text) (skip_commented : Bool)
    → collect is_alphanumeric skip_commented false ([] ∷ s ∷ []) ≡ []
unfolding collect
collect-one_ignored a s skip = elim (Bool-cases (is_empty (trim s))) [
  | inl blank ↦ rw (collect, blank) refl
  | inr text ↦ rw (collect, text) refl
]

-- A comment that begins with two hashes, with no other hash in it, holds no type comment.
pub parse_type_comments_full-commented_out :
    (is_alphanumeric : ℕ → Bool) (s : Text) (skip_commented : Bool)
    → lacks hash s ≡ true
    → parse_type_comments_full is_alphanumeric (hash ∷ hash ∷ s) skip_commented ≡ none
unfolding parse_type_comments_full
parse_type_comments_full-commented_out a s skip h =
    ap some_parts (ap (collect a skip false) (ap (λ ps. [] ∷ ps) (split_on-lacks hash s h)))
    ∙ ap some_parts (collect-one_ignored a s skip)
