-- ===== src/Serialize/Module.antt =====
-- src/serialize_ast.rs, `Ser` for `ast::Mod`.
pub mod Stripped
use mathlib.Core.Path.{subst}
use ast_serialize.Common.{
  ◌≡◌, sym, ap, Bool, true, false, Option, none, some, ◌>>=◌, >>=-eq-some, if◌then◌else◌,
}
use ast_serialize.Common.Int.{pos}
use ast_serialize.Options.{Options}
use ast_serialize.Ast.Stmt.{Stmt, Stmts, nil, cons}
use ast_serialize.Reachability.Infer.{assert_will_always_fail}
use ast_serialize.ModuleBody.{push, kept_body}
use ast_serialize.Wire.{write_tagged_int}
use ast_serialize.Serialize.{Context, Action, ◌>>◌, skip, panic, append}
use ast_serialize.Serialize.Keeps.{Keeps, some-injective, Keeps-panic}
use ast_serialize.Serialize.Extends.{Extends, skip_lines-Extends}
use ast_serialize.Serialize.Blocks.{last_stmt, stmts_len, skip_lines}
use ast_serialize.Serialize.Stmts.Nodes.{serialize_stmts}
use ast_serialize.Serialize.Stmts.Bodies.{body_rules, skip-Extends}
use ast_serialize.Serialize.Stmts.Extend.{serialize_stmts-Extends}

-- The statements behind the first assert that always fails.
unfoldable pub stripped_body : Options → Stmts → Option Stmts
unfolding assert_will_always_fail
stripped_body options nil = some nil
stripped_body options (cons stmt stmts) =
    let later = stripped_body options stmts in
    (do fails ← assert_will_always_fail stmt options; if fails then some stmts else later)

unfoldable pub skip_stripped : Context → Option Stmts → Action
unfolding panic skip skip_lines
skip_stripped c none = panic
skip_stripped c (some nil) = skip
skip_stripped c (some (cons s rest)) = skip_lines c s (last_stmt s rest)

unfoldable pub serialize_kept : Context → Option Stmts → Action
unfolding panic ◌>>◌ append write_tagged_int stmts_len serialize_stmts
serialize_kept c none = panic
serialize_kept c (some body) = do
  append (write_tagged_int (pos (stmts_len body)))
  serialize_stmts c body

unfoldable pub serialize_module : Context → Stmts → Action
unfolding ◌>>◌ skip_stripped stripped_body serialize_kept kept_body
serialize_module c body = do
  skip_stripped c (stripped_body c.options body)
  serialize_kept c (kept_body c.options body)

skip_stripped-Extends : (c : Context) (o : Option Stmts) → Keeps Extends (skip_stripped c o)
unfolding skip_stripped
skip_stripped-Extends c none = Keeps-panic
skip_stripped-Extends c (some nil) = skip-Extends
skip_stripped-Extends c (some (cons s rest)) = skip_lines-Extends c s (last_stmt s rest)

serialize_kept-Extends : (c : Context) (o : Option Stmts) → Keeps Extends (serialize_kept c o)
unfolding serialize_kept
serialize_kept-Extends c none = Keeps-panic
serialize_kept-Extends c (some body) = search (body_rules, serialize_stmts-Extends)

-- The statements in front of the stripped ones.
abbrev pub join : Stmts → Stmts → Stmts
join nil ys = ys
join (cons x xs) ys = cons x (join xs ys)

join-push :
    (stmt : Stmt) (stmts : Stmts) (fails : Bool) (later rest : Option Stmts) (kept stripped : Stmts)
    → ((xs ys : Stmts) → later ≡ some xs → rest ≡ some ys → join xs ys ≡ stmts)
    → push stmt fails later ≡ some kept
    → (if fails then some stmts else rest) ≡ some stripped
    → join kept stripped ≡ cons stmt stmts
join-push stmt stmts true later rest kept stripped k p q =
    subst (λ x. join x stripped ≡ cons stmt stmts) (some-injective _ kept p)
      (ap (cons stmt) (sym (some-injective stmts stripped q)))
join-push stmt stmts false later rest kept stripped k p q =
    let (xs, known, back) = >>=-eq-some later _ p in
    subst (λ x. join x stripped ≡ cons stmt stmts) (some-injective _ kept back)
      (ap (cons stmt) (k xs stripped known q))

-- Where the selection of the statements of a module answers, what is kept and what is stripped make up
-- the body, in this order.
pub kept_body-stripped_body :
    (options : Options) (body kept stripped : Stmts)
    → kept_body options body ≡ some kept
    → stripped_body options body ≡ some stripped
    → join kept stripped ≡ body
unfolding kept_body stripped_body
kept_body-stripped_body options nil kept stripped h k =
    subst (λ x. join x stripped ≡ nil) (some-injective nil kept h)
      (sym (some-injective nil stripped k))
kept_body-stripped_body options (cons stmt stmts) kept stripped h k =
    let (fails, asserted, pushed) = >>=-eq-some (assert_will_always_fail stmt options) _ h in
    join-push stmt stmts fails (kept_body options stmts) (stripped_body options stmts) kept stripped
      (λ xs ys. kept_body-stripped_body options stmts xs ys) pushed (rw asserted at k)

-- Where a module is serialized, and that returns, bytes, errors, imports and skipped lines are only
-- added to those collected before, and the flags of the surroundings are as they were.
pub serialize_module-Extends :
    (c : Context) (body : Stmts) → Keeps Extends (serialize_module c body)
unfolding serialize_module
serialize_module-Extends c body = search (body_rules, skip_stripped-Extends, serialize_kept-Extends)
