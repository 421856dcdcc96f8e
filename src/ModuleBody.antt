-- ===== src/ModuleBody.antt =====
-- src/serialize_ast.rs, `Ser` for `ast::Mod`: which statements of a module are serialized. `none` is a
-- panic.
pub mod Kept
use ast_serialize.Common.{Bool, true, false, Option, none, some, ◌>>=◌}
use ast_serialize.Options.{Options}
use ast_serialize.Ast.Stmt.{Stmt, Stmts, nil, cons}
use ast_serialize.Reachability.Infer.{assert_will_always_fail}

-- The loop ends behind an assert that always fails.
abbrev pub push : Stmt → Bool → Option Stmts → Option Stmts
push stmt true later = some (cons stmt nil)
push stmt false later = do body ← later; some (cons stmt body)

unfoldable pub kept_body : Options → Stmts → Option Stmts
unfolding assert_will_always_fail
kept_body options nil = some nil
kept_body options (cons stmt stmts) = do
  fails ← assert_will_always_fail stmt options
  push stmt fails (kept_body options stmts)
