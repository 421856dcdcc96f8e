-- ===== src/Serialize/Blocks.antt =====
-- src/serialize_ast.rs: blocks, and the flags that a branch puts on what stands in it.
pub mod Skipped
use ast_serialize.Common.{
  ℕ, zero, suc, ◌+◌, ◌-◌, Bool, true, false, not, ◌&&◌, ◌||◌, List, [], ◌∷◌, ◌++◌, Option, none,
  some, ◌>>=◌, if◌then◌else◌,
}
use ast_serialize.Common.Int.{pos}
use ast_serialize.Ast.Expr.{TextRange}
use ast_serialize.Ast.Stmt.{Stmt, Stmts, nil, cons, Clauses, no_clauses, clause}
use ast_serialize.Ast.Ranges.{stmt_range}
use ast_serialize.Wire.{write_int, write_usize, write_tagged_int, write_bool, tag_list_gen}
use ast_serialize.Branches.{Flags, IfFlags, has_else}
use ast_serialize.Serialize.{
  Context, Serializer, Action, ◌>>◌, skip, panic, reading, append, write_tag, write_end_tag,
  append_location,
}
use ast_serialize.Serialize.Tags.{tag_block}
use ast_serialize.Serialize.StmtTags.{tag_if}

unfoldable pub stmts_len : Stmts → ℕ
stmts_len nil = 0
stmts_len (cons _ rest) = suc (stmts_len rest)

abbrev pub last_stmt : Stmt → Stmts → Stmt
last_stmt s nil = s
last_stmt s (cons t rest) = last_stmt t rest

-- `line, line + 1, …`, `n` lines.
unfoldable pub lines_from : (line n : ℕ) → List ℕ
lines_from line zero = []
lines_from line (suc n) = line ∷ lines_from (suc line) n

-- `skip_lines`: `st_line..end_line + 1`.
unfoldable pub skipped_range : Context → Stmt → Stmt → List ℕ
unfolding lines_from
skipped_range c from to =
    let st_line = (c.source.line_index.line_column (stmt_range from).start).0 in
    let end_line = (c.source.line_index.line_column (stmt_range to).end).0 in
    lines_from st_line (end_line + 1 - st_line)

unfoldable pub skip_lines : Context → Stmt → Stmt → Action
unfolding skipped_range
skip_lines c from to s =
    some (record s { skipped_lines = s.skipped_lines ++ skipped_range c from to })

unfoldable pub skip_unreachable : Context → Stmts → Bool → Action
unfolding skip skip_lines
skip_unreachable c nil current_unreachable = skip
skip_unreachable c (cons s rest) current_unreachable =
    if current_unreachable then skip_lines c s (last_stmt s rest) else skip

-- The location of an empty block, if the reader wants one.
unfoldable pub write_fallback : Context → Stmts → Option TextRange → Action
unfolding skip append_location
write_fallback c nil (some range) = append_location c range
write_fallback c nil none = skip
write_fallback c (cons _ _) fallback_range = skip

-- `serialize_block`, given the action for its statements.
unfoldable pub serialize_block : Context → Stmts → Option TextRange → (stmts : Action) → Action
unfolding ◌>>◌ write_tag append write_usize stmts_len reading write_bool skip_unreachable
    write_fallback write_end_tag
serialize_block c block fallback_range stmts = do
  write_tag tag_block
  write_tag tag_list_gen
  append (write_usize (stmts_len block))
  reading λ s. append (write_bool s.current_unreachable)
  reading λ s. skip_unreachable c block s.current_unreachable
  write_fallback c block fallback_range
  stmts
  write_end_tag

unfoldable pub serialize_empty_block : Context → TextRange → Action
unfolding ◌>>◌ write_tag append write_int reading write_bool append_location write_end_tag
serialize_empty_block c range = do
  write_tag tag_block
  write_tag tag_list_gen
  append (write_int (pos 0))
  reading λ s. append (write_bool s.current_unreachable)
  append_location c range
  write_end_tag

unfoldable pub with_branch_flags : Flags → Action → Action
with_branch_flags branch f s = do
  t ← f (record s {
    current_unreachable = s.current_unreachable || branch.unreachable;
    current_mypy_only = s.current_mypy_only || branch.mypy_only;
  })
  some (record t {
    current_unreachable = s.current_unreachable;
    current_mypy_only = s.current_mypy_only;
  })

-- `ser.in_class = true` around the body of a class.
unfoldable pub within_class : Action → Action
within_class f s = do
  t ← f (record s { in_class = true })
  some (record t { in_class = s.in_class })

unfoldable pub within_function : Action → Action
within_function f s = do
  t ← f (record s { in_function = true })
  some (record t { in_function = s.in_function })

unfoldable pub clauses_len : Clauses → ℕ
clauses_len no_clauses = 0
clauses_len (clause _ _ _ rest) = suc (clauses_len rest)

-- The block behind an `if` without `else`.
unfoldable pub serialize_synthetic_else : Context → TextRange → Option Flags → Action
unfolding ◌>>◌ skip append write_bool with_branch_flags serialize_empty_block
serialize_synthetic_else c range none = skip
serialize_synthetic_else c range (some flags) =
    if flags.unreachable
    then (do append (write_bool true); with_branch_flags flags (serialize_empty_block c range))
    else append (write_bool false)

-- `serialize_if_stmt`, given the actions for the condition, the body and the clauses.
unfoldable pub serialize_if_stmt :
    Context
    → TextRange
    → Clauses
    → Option IfFlags
    → (test body : Action) → (clauses : List Flags → Action) → Action
unfolding ◌>>◌ panic write_tag with_branch_flags append write_tagged_int clauses_len has_else
    serialize_synthetic_else append_location
serialize_if_stmt c range branches none test body rest = panic
serialize_if_stmt c range branches (some flags) test body rest = do
  write_tag tag_if
  test
  with_branch_flags flags.main_flags body
  append (write_tagged_int (pos (clauses_len branches - (if has_else branches then 1 else 0))))
  rest flags.clause_flags
  serialize_synthetic_else c range flags.synthetic_else_flags
  append_location c range
