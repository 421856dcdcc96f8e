-- ===== src/Files/Ignored.antt =====
-- A file with an ignore above its first statement.
use ast_serialize.Common.{
  ℕ, ◌≤◌, ◌≡◌, refl, sym, ap, ◌∙◌, Bool, true, false, ◌||◌, any, All, ltb, arith, or_false,
  Bool-cases, inl, inr, List, [], ◌∷◌, some, ◌>>=◌, if◌then◌else◌, Text,
}
use ast_serialize.Common.Int.{pos}
use ast_serialize.Options.{Options}
use ast_serialize.Wire.{write_tagged_int, write_usize, tag_list_gen}
use ast_serialize.Imports.{serialize_imports, locate_all, write_imports}
use ast_serialize.Ast.Stmt.{Stmt, Stmts, cons}
use ast_serialize.Ast.Ranges.{stmt_range}
use ast_serialize.Serialize.{Context, Serializer, append}
use ast_serialize.ModuleIgnore.{first_module_ignore, is_above, retain_reachable}
use ast_serialize.CommentLines.{Extracted}
use ast_serialize.Files.{
  Output, serialize_commented, top_unreachable, ignore_and_line, serialize_tree, serialize_body,
  output_of, file_context,
}
use ast_serialize.Files.Inputs.{Crates, FilePath, Parsed, first_statement_line, new_serializer}

-- The serializer behind a module that is ignored, and its import bytes.
abbrev ignored_module : Serializer × List ℕ
ignored_module =
    (record new_serializer { bytes = write_tagged_int (pos 0) }, tag_list_gen ∷ write_usize 0)

serialize_tree-ignored :
    (c : Context) (body : Stmts) → serialize_tree c true body ≡ some ignored_module
unfolding serialize_tree serialize_body append serialize_imports locate_all write_imports
serialize_tree-ignored c body = refl

nothing_kept :
    (b : Bool) (xs : List (ℕ × List Text))
    → b ≡ true
    → retain_reachable [] (if b then [] else xs) ≡ []
unfolding retain_reachable
nothing_kept b xs h = rw h refl

-- By line, as the extraction collects them.
abbrev pub IsAscending : List (ℕ × List Text) → Type 0
IsAscending [] = Unit
IsAscending (x ∷ xs) = All (λ y. x.0 ≤ y.0) xs × IsAscending xs

-- Whether some ignore stands above a line.
abbrev pub any_above : ℕ → List (ℕ × List Text) → Bool
any_above line xs = any (λ x. ltb x.0 line) xs

none_above :
    (x : ℕ × List Text) (xs : List (ℕ × List Text)) (line : ℕ)
    → ltb x.0 line ≡ false
    → All (λ y. x.0 ≤ y.0) xs
    → any_above line xs ≡ false
none_above x [] line h k = refl
none_above x (y ∷ ys) line h (first, k) =
    let below : ltb y.0 line ≡ false = ground (arith, h, first) in
    rw (below, none_above x ys line h k) refl

any_above_first :
    (x : ℕ × List Text) (xs : List (ℕ × List Text)) (line : ℕ)
    → All (λ y. x.0 ≤ y.0) xs
    → any_above line (x ∷ xs) ≡ ltb x.0 line
any_above_first x xs line k = elim (Bool-cases (ltb x.0 line)) [
  | inl h ↦ rw h refl
  | inr h ↦ rw (h, none_above x xs line h k) refl
]

is_above_any :
    (ts ms : List (ℕ × List Text)) (line : ℕ)
    → IsAscending ts
    → IsAscending ms
    → is_above (first_module_ignore ts ms) line ≡ (any_above line ts || any_above line ms)
unfolding first_module_ignore
is_above_any [] [] line h k = refl
is_above_any [] (m ∷ ms) line h k = sym (any_above_first m ms line k.0)
is_above_any (t ∷ ts) [] line h k = sym (or_false _ ∙ any_above_first t ts line h.0)
is_above_any (t ∷ ts) (m ∷ ms) line h k =
    rw (any_above_first t ts line h.0, any_above_first m ms line k.0)
      (elim (Bool-cases (ltb t.0 m.0)) [
        | inl earlier ↦ rw earlier (ground (arith, earlier))
        | inr later ↦ rw later (ground (arith, later))
      ])

top_unreachable-any :
    (crates : Crates) (text : List ℕ) (parsed : Parsed) (comments : Extracted) (st : Stmt)
    (rest : Stmts)
    → parsed.body ≡ cons st rest
    → IsAscending comments.type_ignore_lines
    → IsAscending comments.mypy_ignore_lines
    → top_unreachable crates text parsed comments ≡ (
        any_above
          ((crates.line_index text).line_column (stmt_range st).start).0
          comments.type_ignore_lines
        || any_above
            ((crates.line_index text).line_column (stmt_range st).start).0
            comments.mypy_ignore_lines)
unfolding top_unreachable ignore_and_line first_statement_line
top_unreachable-any crates text parsed comments st rest first ts ms =
    ap
      (λ body.
        is_above (first_module_ignore comments.type_ignore_lines comments.mypy_ignore_lines)
          (first_statement_line (crates.line_index text) body))
      first
    ∙ is_above_any comments.type_ignore_lines comments.mypy_ignore_lines _ ts ms

-- If the type ignores and the mypy ignores of a file are each ordered by line, and some ignore stands
-- above the line of the first statement, then the serialization always returns, whatever the body
-- holds: no statement and no import is written, and no ignore is reported.
pub serialize_commented-ignored :
    (crates : Crates) (file : FilePath) (source_hash : Text) (text : List ℕ) (parsed : Parsed)
    (comments : Extracted) (skip : Bool) (options : Options) (st : Stmt) (rest : Stmts)
    → parsed.body ≡ cons st rest
    → IsAscending comments.type_ignore_lines
    → IsAscending comments.mypy_ignore_lines
    → (any_above
          ((crates.line_index text).line_column (stmt_range st).start).0
          comments.type_ignore_lines
        || any_above
            ((crates.line_index text).line_column (stmt_range st).start).0
            comments.mypy_ignore_lines)
      ≡ true
    → (output : Output) × (serialize_commented crates file source_hash text parsed comments skip
          options
        ≡ some output)
      × (output.ast_bytes ≡ write_tagged_int (pos 0))
      × (output.import_bytes ≡ tag_list_gen ∷ write_usize 0)
      × (output.type_ignore_lines ≡ [])
      × (output.mypy_ignore_lines ≡ [])
unfolding serialize_commented output_of
serialize_commented-ignored crates file source_hash text parsed comments skip options st rest first
      ts ms found =
    let above = top_unreachable-any crates text parsed comments st rest first ts ms ∙ found in
    (
      output_of crates file source_hash text parsed comments ignored_module,
      ap
            (λ b. do
              written ←
                  serialize_tree (file_context crates text parsed comments skip options) b
                    parsed.body
              some (output_of crates file source_hash text parsed comments written))
            above
          ∙ ap (λ x. do w ← x; some (output_of crates file source_hash text parsed comments w))
              (serialize_tree-ignored (file_context crates text parsed comments skip options)
                parsed.body),
      refl,
      refl,
      nothing_kept _ _ above,
      nothing_kept _ _ above,
    )
