-- ===== src/Serialize/Module/Stripped.antt =====
-- The statements that a module leaves out.
use mathlib.Core.Path.{subst}
use ast_serialize.Common.{
  ℕ, ◌+◌, ◌-◌, ◌≤◌, ◌≡◌, ap, ◌∙◌, true, ◌||◌, ◌++◌, none, some, arith, Option-cases, inl, inr,
  or_comm,
}
use ast_serialize.Common.Int.{pos}
use ast_serialize.Wire.{write_tagged_int}
use ast_serialize.Ast.Stmt.{Stmt, Stmts, nil, cons}
use ast_serialize.Ast.Ranges.{stmt_range}
use ast_serialize.ModuleBody.{kept_body}
use ast_serialize.Serialize.{Context, Serializer, Action, ◌>>◌, append, panic}
use ast_serialize.Serialize.Grows.{Begins}
use ast_serialize.Serialize.Blocks.{last_stmt, stmts_len, skip_lines, skipped_range}
use ast_serialize.Serialize.Blocks.Skipped.{has_line, has_line-append, has_line-from}
use ast_serialize.Serialize.Stmts.Extend.{serialize_stmts-Extends}
use ast_serialize.Serialize.Module.{
  join, stripped_body, skip_stripped, serialize_kept, serialize_module, kept_body-stripped_body,
}

abbrev tail : Stmts → Stmts
tail nil = nil
tail (cons st rest) = rest

join_injective : (xs ys zs : Stmts) → join xs ys ≡ join xs zs → ys ≡ zs
join_injective nil ys zs h = h
join_injective (cons x xs) ys zs h = join_injective xs ys zs (ap tail h)

-- The lines of the statements from `st` to the last of `rest` are skipped, and the number of the kept
-- statements is written.
abbrev IsStripped :
    Context → (kept : Stmts) → (st : Stmt) → (rest : Stmts) → ℕ → Serializer → Serializer → Type 0
IsStripped c kept st rest line s t =
    (has_line line t.skipped_lines ≡ true)
    × Begins (s.bytes ++ write_tagged_int (pos (stmts_len kept))) t.bytes

IsStripped-ran :
    (c : Context) (kept : Stmts) (st : Stmt) (rest : Stmts) (line : ℕ) (s t : Serializer)
    → has_line line (skipped_range c st (last_stmt st rest)) ≡ true
    → (skip_stripped c (some (cons st rest)) >> serialize_kept c (some kept)) s ≡ some t
    → IsStripped c kept st rest line s t
unfolding ◌>>◌ skip_stripped skip_lines serialize_kept append
IsStripped-ran c kept st rest line s t inside ran =
    let lines = skipped_range c st (last_stmt st rest) in
    let e = (serialize_stmts-Extends c kept).at _ t ran in
    let (more, begins) = e.skipped in
    (
      ap (has_line line) begins
          ∙ has_line-append line (s.skipped_lines ++ lines) more
          ∙ ap (λ b. b || has_line line more)
              (has_line-append line s.skipped_lines lines
                ∙ ap (λ b. has_line line s.skipped_lines || b) inside
                ∙ or_comm (has_line line s.skipped_lines) true),
      e.written,
    )

never-stripped :
    (c : Context) (b : Action) (s t : Serializer) → (skip_stripped c none >> b) s ≡ some t → ⊥
unfolding ◌>>◌ skip_stripped panic
never-stripped c b s t h = cc

-- Where a module is serialized whose kept statements are `kept`, with `st` and `rest` behind them, and
-- that returns, the number of the kept statements is written first, and every line from the start of
-- `st` to the end of the last statement is among the skipped lines.
pub serialize_module-stripped :
    (c : Context) (kept : Stmts) (st : Stmt) (rest : Stmts) (s t : Serializer) (line : ℕ)
    → kept_body c.options (join kept (cons st rest)) ≡ some kept
    → (c.source.line_index.line_column (stmt_range st).start).0 ≤ line
    → line ≤ (c.source.line_index.line_column (stmt_range (last_stmt st rest)).end).0
    → serialize_module c (join kept (cons st rest)) s ≡ some t
    → (has_line line t.skipped_lines ≡ true)
      × Begins (s.bytes ++ write_tagged_int (pos (stmts_len kept))) t.bytes
unfolding serialize_module skipped_range
serialize_module-stripped c kept st rest s t line k from to ran =
    let st_line = (c.source.line_index.line_column (stmt_range st).start).0 in
    let end_line = (c.source.line_index.line_column (stmt_range (last_stmt st rest)).end).0 in
    let inside = has_line-from st_line (end_line + 1 - st_line) line from (omega arith) in
    elim (Option-cases (stripped_body c.options (join kept (cons st rest)))) [
      | inl missing ↦ absurd (
          never-stripped c (serialize_kept c (kept_body c.options (join kept (cons st rest)))) s t
            (rw missing at ran))
      | inr (stripped, found) ↦
          let e =
            join_injective kept stripped (cons st rest) (
              kept_body-stripped_body c.options (join kept (cons st rest)) kept stripped k found) in
          IsStripped-ran c kept st rest line s t inside (
            subst (λ x. (skip_stripped c (some x) >> serialize_kept c (some kept)) s ≡ some t) e
              (rw (found, k) at ran))
    ]
