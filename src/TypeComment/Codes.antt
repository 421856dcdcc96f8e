-- ===== src/TypeComment/Codes.antt =====
-- The codes of an ignore comment.
use ast_serialize.Common.{
  ℕ, Bool, true, false, not, ◌&&◌, List, [], ◌∷◌, ◌++◌, some, ◌≡◌, refl, ◌∙◌, ap, arith, Text,
  codes, ◌==◌, all, and_true, starts_with,
}
use ast_serialize.Texts.{
  is_whitespace, hash, is_empty, not_empty, trim_start, trim_end, trim, split_commas,
}
use ast_serialize.Texts.Trim.{ends_solid, trim_solid, trim_end_solid, ends_solid_append}
use ast_serialize.Texts.Split.{lacks, split_on-lacks}
use ast_serialize.Texts.Names.{
  is_plain_name, listed, all-listed, all-append, split_commas-listed, not_empty-names,
}
use ast_serialize.TypeComment.{
  TypeComment, type_ignore, ignore_of, drop, before_hash, without_last, ends_with_bracket,
  is_code_char, validated, bracketed_codes, parse_error_codes, some_parts, comment_of,
  parse_comment_part, collect, parse_type_comments_full,
}

bracket-ends_solid : ends_solid (93 ∷ []) ≡ true
unfolding ends_solid is_whitespace
bracket-ends_solid = refl

module _ (is_alphanumeric : ℕ → Bool) where
  -- A name that may stand between the brackets.
  abbrev pub is_code : Text → Bool
  is_code s = is_plain_name s && (lacks hash s && all (is_code_char is_alphanumeric) s)

  abbrev pub AllNames : List Text → Type 0
  AllNames ns =
      (all is_plain_name ns ≡ true)
      × (all (lacks hash) ns ≡ true)
      × (all (all (is_code_char is_alphanumeric)) ns ≡ true)

  all_names : (ns : List Text) → all is_code ns ≡ true → AllNames ns
  all_names [] h = (refl, refl, refl)
  all_names (n ∷ ns) h =
      let (hn, hns) = and_true (is_code n) (all is_code ns) h in
      let (plain, rest) = and_true (is_plain_name n) _ hn in
      let (hashless, chars) = and_true (lacks hash n) _ rest in
      let (a, b, c) = all_names ns hns in (rw (plain, a), rw (hashless, b), rw (chars, c))

  before_hash-lacks : (s : Text) → lacks hash s ≡ true → before_hash s ≡ s
  before_hash-lacks [] h = refl
  before_hash-lacks (c ∷ s) h =
      let (first, later) = and_true (not (c == hash)) (lacks hash s) h in
      rw (before_hash-lacks s later) (ground arith)

  ends_with_bracket_append : (s : Text) → ends_with_bracket (s ++ (93 ∷ [])) ≡ true
  ends_with_bracket_append [] = refl
  ends_with_bracket_append (c ∷ []) = refl
  ends_with_bracket_append (c ∷ d ∷ s) = ends_with_bracket_append (d ∷ s)

  without_last_append : (s : Text) (c : ℕ) → without_last (s ++ (c ∷ [])) ≡ s
  without_last_append [] c = refl
  without_last_append (d ∷ []) c = refl
  without_last_append (d ∷ e ∷ s) c = ap (λ t. d ∷ t) (without_last_append (e ∷ s) c)

  bracketed_codes-brackets :
      (s : Text)
      → bracketed_codes is_alphanumeric (91 ∷ (s ++ (93 ∷ [])))
        ≡ validated is_alphanumeric (not_empty (split_commas s))
  unfolding bracketed_codes
  bracketed_codes-brackets s =
      rw (ends_with_bracket_append (91 ∷ s)) (
        ap (λ t. validated is_alphanumeric (not_empty (split_commas t))) (without_last_append s 93))

  parse_error_codes-bracketed :
      (s : Text)
      → trim_start s ≡ s
      → before_hash s ≡ s
      → trim_end s ≡ s
      → starts_with s (codes "[") ≡ true
      → parse_error_codes is_alphanumeric s ≡ bracketed_codes is_alphanumeric s
  unfolding parse_error_codes
  parse_error_codes-bracketed s a b c d = rw (a, b, c, d)

  validated-all :
      (ss : List Text)
      → all (all (is_code_char is_alphanumeric)) ss ≡ true
      → validated is_alphanumeric ss ≡ some ss
  unfolding validated
  validated-all ss h = rw h

  -- `[n, …]`
  abbrev pub in_brackets : Text → List Text → Text
  in_brackets n ns = 91 ∷ (listed n ns ++ (93 ∷ []))

  lacks-in_brackets :
      (n : Text) (ns : List Text)
      → all (lacks hash) (n ∷ ns) ≡ true
      → lacks hash (in_brackets n ns) ≡ true
  lacks-in_brackets n ns hashless =
      let (hn, hns) = and_true (lacks hash n) (all (lacks hash) ns) hashless in
      all-append (λ c. not (c == hash)) (91 ∷ listed n ns) (93 ∷ [])
        (all-listed (λ c. not (c == hash)) n ns refl refl hn hns) refl

  -- Names in brackets are read back, in order, and then validated.
  parse_error_codes-listed :
      (n : Text) (ns : List Text)
      → all is_plain_name (n ∷ ns) ≡ true
      → all (lacks hash) (n ∷ ns) ≡ true
      → parse_error_codes is_alphanumeric (in_brackets n ns) ≡ validated is_alphanumeric (n ∷ ns)
  parse_error_codes-listed n ns plain hashless =
      let (hn, hns) = and_true (is_plain_name n) (all is_plain_name ns) plain in
      parse_error_codes-bracketed (in_brackets n ns) (unfold trim_start in refl)
        (before_hash-lacks (in_brackets n ns) (lacks-in_brackets n ns hashless))
        (trim_end_solid (in_brackets n ns)
          (ends_solid_append (91 ∷ listed n ns) (93 ∷ []) bracket-ends_solid))
        (unfold starts_with in refl)
      ∙ bracketed_codes-brackets (listed n ns)
      ∙ ap (λ ss. validated is_alphanumeric (not_empty ss)) (split_commas-listed n ns hn hns)
      ∙ ap (validated is_alphanumeric) (not_empty-names (n ∷ ns) plain)

  collect-one :
      (skip_commented : Bool) (part : Text) (parsed : TypeComment)
      → is_empty (trim part) ≡ false
      → parse_comment_part is_alphanumeric part ≡ some parsed
      → collect is_alphanumeric skip_commented false (part ∷ []) ≡ (parsed ∷ [])
  unfolding collect
  collect-one skip part parsed text known = rw (collect, text, known) refl

  parse_comment_part-type :
      (part trimmed after : Text)
      → trim part ≡ trimmed
      → starts_with trimmed (codes "mypy:") ≡ false
      → starts_with trimmed (codes "type:") ≡ true
      → trim_start (drop 5 trimmed) ≡ after
      → parse_comment_part is_alphanumeric part ≡ comment_of is_alphanumeric false after
  unfolding parse_comment_part
  parse_comment_part-type part trimmed after a b c d = rw (a, b, c, d)

  comment_of-ignore :
      (after_ignore : Text) (mypy_comment : Bool)
      → comment_of is_alphanumeric mypy_comment (codes "ignore" ++ (91 ∷ after_ignore))
        ≡ some (ignore_of mypy_comment (parse_error_codes is_alphanumeric (91 ∷ after_ignore)))
  unfolding comment_of
  comment_of-ignore s b = refl

  -- The comment `# type: ignore[n, …]`.
  abbrev pub ignore_comment : Text → List Text → Text
  ignore_comment n ns = codes "# type: ignore" ++ in_brackets n ns

  -- What stands behind the hash, without the space at its start.
  abbrev ignore_part : Text → List Text → Text
  ignore_part n ns = codes "type: ignore" ++ in_brackets n ns

  ignore_part-trim : (n : Text) (ns : List Text) → trim (32 ∷ ignore_part n ns) ≡ ignore_part n ns
  ignore_part-trim n ns =
      unfold trim in
      trim_solid (ignore_part n ns) (unfold is_whitespace in refl)
        (ends_solid_append (codes "type: ignore[" ++ listed n ns) (93 ∷ []) bracket-ends_solid)

  ignore_part-parse :
      (n : Text) (ns : List Text)
      → all is_plain_name (n ∷ ns) ≡ true
      → all (lacks hash) (n ∷ ns) ≡ true
      → parse_comment_part is_alphanumeric (32 ∷ ignore_part n ns)
        ≡ some (ignore_of false (validated is_alphanumeric (n ∷ ns)))
  ignore_part-parse n ns plain hashless =
      parse_comment_part-type (32 ∷ ignore_part n ns) (ignore_part n ns)
        (codes "ignore" ++ in_brackets n ns) (ignore_part-trim n ns) (unfold starts_with in refl)
        (unfold starts_with in refl) (unfold trim_start in refl)
      ∙ comment_of-ignore (listed n ns ++ (93 ∷ [])) false
      ∙ ap (λ cs. some (ignore_of false cs)) (parse_error_codes-listed n ns plain hashless)

  -- An ignore comment is read as the validated names between its brackets.
  pub parse_type_comments_full-validated :
      (n : Text) (ns : List Text) (skip_commented : Bool)
      → all is_plain_name (n ∷ ns) ≡ true
      → all (lacks hash) (n ∷ ns) ≡ true
      → parse_type_comments_full is_alphanumeric (ignore_comment n ns) skip_commented
        ≡ some (ignore_of false (validated is_alphanumeric (n ∷ ns)) ∷ [])
  unfolding parse_type_comments_full
  parse_type_comments_full-validated n ns skip plain hashless =
      ap (λ parts. some_parts (collect is_alphanumeric skip false parts))
        (split_on-lacks hash (32 ∷ ignore_part n ns) (lacks-in_brackets n ns hashless))
      ∙ ap some_parts (
          collect-one skip (32 ∷ ignore_part n ns)
            (ignore_of false (validated is_alphanumeric (n ∷ ns)))
            (ap is_empty (ignore_part-trim n ns)) (ignore_part-parse n ns plain hashless))

  -- The comment `# type: ignore[a, b, c]` is read as one ignore of those codes, in order, whether or
  -- not reading stops at a part that is not understood. A code has no whitespace, comma, quote or
  -- hash, and only letters, digits, `_`, `-` and `:`.
  pub parse_type_comments_full-ignore :
      (n : Text) (ns : List Text) (skip_commented : Bool)
      → all is_code (n ∷ ns) ≡ true
      → parse_type_comments_full is_alphanumeric (ignore_comment n ns) skip_commented
        ≡ some (type_ignore (n ∷ ns) ∷ [])
  parse_type_comments_full-ignore n ns skip h =
      let (plain, hashless, chars) = all_names (n ∷ ns) h in
      parse_type_comments_full-validated n ns skip plain hashless
      ∙ ap (λ cs. some (ignore_of false cs ∷ [])) (validated-all (n ∷ ns) chars)
