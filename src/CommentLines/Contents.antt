-- ===== src/CommentLines/Contents.antt =====
-- What the comments of a file are collected as.
use mathlib.Core.List.{append_assoc, append-nil}
use ast_serialize.Common.{
  if◌then◌else◌, ℕ, false, List, [], ◌∷◌, ◌++◌, Option, none, ◌≡◌, sym, ap, ◌∙◌, Text, ◌==◌,
}
use ast_serialize.Options.{Options}
use ast_serialize.CommentLines.{
  Library, Comment, Extracted, SeenIgnores, ParsedTypeComment, nothing_extracted, take_config,
  parts_of, take_comment, take_comments, extract_type_comments_and_ignores,
}
use ast_serialize.CommentLines.Kept.{entries, parts_count, extract_type_comments_and_ignores-keeps}
use ast_serialize.CommentLines.Parts.{
  first_type_ignore, first_mypy_ignore, first_annotation, at_line, first_some, lookup,
  first_some_assoc, first_some-none, type_ignores-take_parts, mypy_ignores-take_parts,
  lookup-take_parts, kept_config,
}

abbrev none_seen : SeenIgnores
none_seen = record { seen_type_ignore = false; seen_mypy_ignore = false }

module _ (lib : Library) (options : Options) where
  -- For each comment with a type ignore, its line and the codes of the first one.
  abbrev pub type_ignores_of : List Comment → List (ℕ × List Text)
  type_ignores_of [] = []
  type_ignores_of (c ∷ cs) =
      at_line c.line_number (first_type_ignore (parts_of lib options c)) ++ type_ignores_of cs

  abbrev pub mypy_ignores_of : List Comment → List (ℕ × List Text)
  mypy_ignores_of [] = []
  mypy_ignores_of (c ∷ cs) =
      at_line c.line_number (first_mypy_ignore (parts_of lib options c)) ++ mypy_ignores_of cs

  -- The first type comment among the comments of a line.
  abbrev pub annotation_at : ℕ → List Comment → Option ParsedTypeComment
  annotation_at line [] = none
  annotation_at line (c ∷ cs) =
      first_some
        (if c.line_number == line then first_annotation lib (parts_of lib options c) else none)
        (annotation_at line cs)

  type_ignores-take_comments :
      (cs : List Comment) (x : Extracted)
      → (take_comments lib options cs x).type_ignore_lines
        ≡ (x.type_ignore_lines ++ type_ignores_of cs)
  unfolding take_comments take_comment
  type_ignores-take_comments [] x = sym (append-nil x.type_ignore_lines)
  type_ignores-take_comments (c ∷ cs) x =
      let ps = parts_of lib options c in
      type_ignores-take_comments cs (take_comment lib options c x)
      ∙ ap (λ l. l ++ type_ignores_of cs)
          (type_ignores-take_parts lib c ps none_seen (take_config c x)
            ∙ ap (λ l. l ++ at_line c.line_number (first_type_ignore ps)) (kept_config lib c x).0)
      ∙ append_assoc x.type_ignore_lines _ (type_ignores_of cs)

  mypy_ignores-take_comments :
      (cs : List Comment) (x : Extracted)
      → (take_comments lib options cs x).mypy_ignore_lines
        ≡ (x.mypy_ignore_lines ++ mypy_ignores_of cs)
  unfolding take_comments take_comment
  mypy_ignores-take_comments [] x = sym (append-nil x.mypy_ignore_lines)
  mypy_ignores-take_comments (c ∷ cs) x =
      let ps = parts_of lib options c in
      mypy_ignores-take_comments cs (take_comment lib options c x)
      ∙ ap (λ l. l ++ mypy_ignores_of cs)
          (mypy_ignores-take_parts lib c ps none_seen (take_config c x)
            ∙ ap (λ l. l ++ at_line c.line_number (first_mypy_ignore ps)) (kept_config lib c x).1)
      ∙ append_assoc x.mypy_ignore_lines _ (mypy_ignores_of cs)

  lookup-take_comments :
      (line : ℕ) (cs : List Comment) (x : Extracted)
      → lookup line (take_comments lib options cs x).type_comments
        ≡ first_some (lookup line x.type_comments) (annotation_at line cs)
  unfolding take_comments take_comment
  lookup-take_comments line [] x = sym (first_some-none _)
  lookup-take_comments line (c ∷ cs) x =
      let ps = parts_of lib options c in
      lookup-take_comments line cs (take_comment lib options c x)
      ∙ ap (λ o. first_some o (annotation_at line cs))
          (lookup-take_parts lib c line ps none_seen (take_config c x)
            ∙ ap
                (λ m.
                  first_some (lookup line m)
                    (if c.line_number == line then first_annotation lib ps else none))
                (kept_config lib c x).2)
      ∙ first_some_assoc (lookup line x.type_comments) _ (annotation_at line cs)

  -- The type ignores of a file are, in order, for each comment that has one, the line of the comment
  -- and the codes of its first one; so are the mypy ignores. The type comment of a line is the first
  -- among the comments of that line. Every part that is read has one entry: a type ignore, a mypy
  -- ignore, a type comment or an error.
  pub extract_type_comments_and_ignores-contents :
      (cs : List Comment)
      → ((extract_type_comments_and_ignores lib options cs).type_ignore_lines ≡ type_ignores_of cs)
        × ((extract_type_comments_and_ignores lib options cs).mypy_ignore_lines
            ≡ mypy_ignores_of cs)
        × ((line : ℕ)
            → lookup line (extract_type_comments_and_ignores lib options cs).type_comments
              ≡ annotation_at line cs)
        × (entries (extract_type_comments_and_ignores lib options cs) ≡ parts_count lib options cs)
  unfolding extract_type_comments_and_ignores
  extract_type_comments_and_ignores-contents cs = (
    type_ignores-take_comments cs nothing_extracted,
    mypy_ignores-take_comments cs nothing_extracted,
    λ line. lookup-take_comments line cs nothing_extracted,
    extract_type_comments_and_ignores-keeps lib options cs,
  )
