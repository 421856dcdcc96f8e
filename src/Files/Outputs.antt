-- ===== src/Files/Outputs.antt =====
-- The errors and the ignores of a file.
use mathlib.Core.List.{append_assoc}
use mathlib.Core.Path.{subst}
use ast_serialize.Common.{
  ℕ, ◌≡◌, sym, Bool, false, List, [], ◌∷◌, ◌++◌, some, >>=-eq-some, Text, All, inl, inr, Bool-cases,
}
use ast_serialize.Options.{Options}
use ast_serialize.CommentLines.{Extracted}
use ast_serialize.Serialize.{Serializer}
use ast_serialize.Serialize.Keeps.{some-injective}
use ast_serialize.Serialize.Grows.{Begins}
use ast_serialize.ModuleIgnore.{is_skipped, retain_reachable}
use ast_serialize.Files.{
  Output, serialize_commented, top_unreachable, file_context, serialize_tree, output_of,
}
use ast_serialize.Files.Inputs.{Crates, FilePath, Parsed, parse_errors}

retain_reachable_sound :
    (skipped : List ℕ) (xs : List (ℕ × List Text))
    → All (λ x. is_skipped skipped x.0 ≡ false) (retain_reachable skipped xs)
unfolding retain_reachable
retain_reachable_sound skipped [] = tt
retain_reachable_sound skipped (x ∷ xs) =
    let k = retain_reachable_sound skipped xs in
    elim (Bool-cases (is_skipped skipped x.0)) [
      | inl gone ↦ rw gone k
      | inr stays ↦ rw stays (stays, k)
    ]

output_of-errors :
    (crates : Crates) (file : FilePath) (source_hash : Text) (text : List ℕ) (parsed : Parsed)
    (comments : Extracted) (written : Serializer × List ℕ)
    → Begins
        (parse_errors (crates.line_index text) parsed.errors ++ comments.syntax_errors)
        (output_of crates file source_hash text parsed comments written).syntax_errors
unfolding output_of
output_of-errors crates file source_hash text parsed comments written = (
  _,
  sym (append_assoc (parse_errors (crates.line_index text) parsed.errors) comments.syntax_errors _),
)

-- Where a file is serialized, and that returns, the errors begin with those of the parser, in their
-- order, and those of the comments; and no type ignore or mypy ignore is reported that stands on a
-- line which the serializer skipped.
pub serialize_commented_sound :
    (crates : Crates) (file : FilePath) (source_hash : Text) (text : List ℕ) (parsed : Parsed)
    (comments : Extracted) (skip : Bool) (options : Options) (output : Output)
    → serialize_commented crates file source_hash text parsed comments skip options ≡ some output
    → (written : Serializer × List ℕ) × (serialize_tree
          (file_context crates text parsed comments skip options)
          (top_unreachable crates text parsed comments)
          parsed.body
        ≡ some written)
      × Begins
          (parse_errors (crates.line_index text) parsed.errors ++ comments.syntax_errors)
          output.syntax_errors
      × All (λ x. is_skipped written.0.skipped_lines x.0 ≡ false) output.type_ignore_lines
      × All (λ x. is_skipped written.0.skipped_lines x.0 ≡ false) output.mypy_ignore_lines
unfolding serialize_commented
serialize_commented_sound crates file source_hash text parsed comments skip options output h =
    let (written, ran, made) =
      >>=-eq-some
        (serialize_tree (file_context crates text parsed comments skip options)
          (top_unreachable crates text parsed comments) parsed.body)
        (λ w. some (output_of crates file source_hash text parsed comments w)) h in
    let p = some-injective _ output made in
    (
      written,
      ran,
      subst
          (λ (o : Output).
            Begins (parse_errors (crates.line_index text) parsed.errors ++ comments.syntax_errors)
              o.syntax_errors)
          p (output_of-errors crates file source_hash text parsed comments written),
      subst
          (λ (o : Output).
            All (λ x. is_skipped written.0.skipped_lines x.0 ≡ false) o.type_ignore_lines)
          p (unfold output_of in retain_reachable_sound written.0.skipped_lines _),
      subst
          (λ (o : Output).
            All (λ x. is_skipped written.0.skipped_lines x.0 ≡ false) o.mypy_ignore_lines)
          p (unfold output_of in retain_reachable_sound written.0.skipped_lines _),
    )
