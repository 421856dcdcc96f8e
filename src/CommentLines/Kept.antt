-- ===== src/CommentLines/Kept.antt =====
-- The number of entries that comments have.
use ast_serialize.Common.{
  if◌then◌else◌, ℕ, ◌+◌, Bool, true, false, List, [], ◌∷◌, ◌++◌, ◌≡◌, arith, length, length-append,
  Text,
}
use ast_serialize.Options.{Options}
use ast_serialize.TypeComment.{
  TypeComment, type_ignore, mypy_ignore, type_annotation, invalid_ignore,
}
use ast_serialize.CommentLines.{
  Library, Comment, Extracted, SeenIgnores, nothing_extracted, report, take_part, take_parts,
  take_config, parts_of, take_comment, take_comments, extract_type_comments_and_ignores,
  contains_key, annotation_of,
}

-- All entries but the inline configurations.
abbrev pub entries : Extracted → ℕ
entries x =
    length x.type_ignore_lines
    + length x.mypy_ignore_lines
    + length x.type_comments
    + length x.syntax_errors

length-snoc {ℓ} : {A : Type ℓ} (xs : List A) (a : A) → length (xs ++ (a ∷ [])) ≡ length xs + 1
length-snoc xs a = length-append xs (a ∷ [])

entries-report :
    (c : Comment) (message : Text) (x : Extracted) → entries (report c message x) ≡ entries x + 1
entries-report c message x = omega (arith, length-snoc x.syntax_errors)

either :
    (b : Bool) (s t : SeenIgnores × Extracted) (n : ℕ)
    → entries s.1 ≡ n
    → entries t.1 ≡ n
    → entries (if b then s else t).1 ≡ n
either true s t n h k = h
either false s t n h k = k

module _ (lib : Library) where
  entries-take_part :
      (c : Comment) (p : TypeComment) (seen : SeenIgnores) (x : Extracted)
      → entries (take_part lib c p (seen, x)).1 ≡ entries x + 1
  unfolding take_part
  entries-take_part c (invalid_ignore m) seen x = entries-report c _ x
  entries-take_part c (type_ignore error_codes) seen x =
      either seen.seen_type_ignore _ _ _ (entries-report c _ x)
        (omega (arith, length-snoc x.type_ignore_lines (c.line_number, error_codes)))
  entries-take_part c (mypy_ignore error_codes) seen x =
      either seen.seen_mypy_ignore _ _ _ (entries-report c _ x)
        (omega (arith, length-snoc x.mypy_ignore_lines (c.line_number, error_codes)))
  entries-take_part c (type_annotation annotation) seen x =
      either (contains_key x.type_comments c.line_number) _ _ _ (entries-report c _ x)
        (omega (arith, length-snoc x.type_comments (c.line_number, annotation_of lib annotation)))

  entries-take_parts :
      (c : Comment) (ps : List TypeComment) (s : SeenIgnores × Extracted)
      → entries (take_parts lib c ps s).1 ≡ entries s.1 + length ps
  unfolding take_parts
  entries-take_parts c [] s = omega arith
  entries-take_parts c (p ∷ ps) s =
      omega (arith, entries-take_parts c ps (take_part lib c p s), entries-take_part c p s.0 s.1)

  entries-take_config : (c : Comment) (x : Extracted) → entries (take_config c x) ≡ entries x
  unfolding take_config
  entries-take_config c x = ground arith

  module _ (options : Options) where
    -- The number of parts in the comments.
    abbrev pub parts_count : List Comment → ℕ
    parts_count [] = 0
    parts_count (c ∷ cs) = length (parts_of lib options c) + parts_count cs

    entries-take_comments :
        (cs : List Comment) (x : Extracted)
        → entries (take_comments lib options cs x) ≡ entries x + parts_count cs
    unfolding take_comments
    entries-take_comments [] x = omega arith
    entries-take_comments (c ∷ cs) x = omega (
      arith,
      entries-take_comments cs (take_comment lib options c x),
      entries-take_parts c (parts_of lib options c)
          (record { seen_type_ignore = false; seen_mypy_ignore = false }, take_config c x),
      entries-take_config c x,
    )

    -- Every part that is read in the comments of a file has one entry in the results: a type ignore,
    -- a mypy ignore, a type comment or an error. None is dropped and none counts twice.
    pub extract_type_comments_and_ignores-keeps :
        (cs : List Comment)
        → entries (extract_type_comments_and_ignores lib options cs) ≡ parts_count cs
    unfolding extract_type_comments_and_ignores
    extract_type_comments_and_ignores-keeps cs =
        omega (arith, entries-take_comments cs nothing_extracted)
