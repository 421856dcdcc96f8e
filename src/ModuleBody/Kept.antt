-- ===== src/ModuleBody/Kept.antt =====
-- Modules that run to their end.
use mathlib.Core.Option.{some-injective}
use ast_serialize.Common.{
  Bool, true, false, ◌&&◌, ◌≡◌, ◌∙◌, sym, ap, arith, Option, some, >>=-eq-some, and_true,
}
use ast_serialize.Options.{Options}
use ast_serialize.Ast.Expr.{Expr}
use ast_serialize.Ast.Stmt.{Stmt, Stmts, nil, cons, assert}
use ast_serialize.Reachability.Truth.{TruthValue, always_true}
use ast_serialize.Reachability.BoolOps.{Says}
use ast_serialize.Reachability.Infer.{is_false, infer_condition_value, assert_will_always_fail}
use ast_serialize.Reachability.Soundness.{holds, Respects, infer_condition_value_sound}
use ast_serialize.ModuleBody.{push, kept_body}

-- Every assert of the module passes, so that the module runs to its end.
abbrev pub passes : (Expr → Bool) → Stmt → Bool
passes worth (assert _ test _) = worth test
passes worth _ = true

abbrev pub all_pass : (Expr → Bool) → Stmts → Bool
all_pass worth nil = true
all_pass worth (cons stmt stmts) = passes worth stmt && all_pass worth stmts

Says-is_false : (v : TruthValue) (b : Bool) → Says v b → b ≡ true → is_false v ≡ false
Says-is_false always_true b s h = ground arith
Says-is_false _ b s h = ground arith

module _ (options : Options) (state : Expr → Bool) (s : Respects options state) where
  passes-fails :
      (stmt : Stmt) (fails : Bool)
      → passes (holds state) stmt ≡ true
      → assert_will_always_fail stmt options ≡ some fails
      → fails ≡ false
  unfolding assert_will_always_fail
  passes-fails (assert r test msg) fails h e =
      let (v, inferred, back) = >>=-eq-some (infer_condition_value options test) _ e in
      sym (some-injective _ _ back)
      ∙ Says-is_false v (holds state test)
          (infer_condition_value_sound options state s test v inferred) h
  passes-fails _ fails h e = sym (some-injective _ _ e)

  push_all :
      (stmt : Stmt) (stmts : Stmts) (fails : Bool) (later : Option Stmts) (body : Stmts)
      → fails ≡ false
      → ((b : Stmts) → later ≡ some b → b ≡ stmts)
      → push stmt fails later ≡ some body
      → body ≡ cons stmt stmts
  push_all stmt stmts true later body n h e = cc
  push_all stmt stmts false later body n h e =
      let (b, known, back) = >>=-eq-some later _ e in
      sym (some-injective _ _ back) ∙ ap (cons stmt) (h b known)

  -- If every assert at the top level of a module passes, then all its statements are serialized. This
  -- holds in every state that respects the options, where the selection answers.
  pub kept_body_all :
      (stmts body : Stmts)
      → all_pass (holds state) stmts ≡ true
      → kept_body options stmts ≡ some body
      → body ≡ stmts
  unfolding kept_body
  kept_body_all nil body h e = sym (some-injective _ _ e)
  kept_body_all (cons stmt stmts) body h e =
      let (first, later) = and_true (passes (holds state) stmt) (all_pass (holds state) stmts) h in
      let (fails, known, rest) = >>=-eq-some (assert_will_always_fail stmt options) _ e in
      push_all stmt stmts fails (kept_body options stmts) body (passes-fails stmt fails first known)
        (λ b k. kept_body_all stmts b later k) rest
