-- ===== src/Examples/Modules.antt =====
-- Modules and literals on small inputs.
use ast_serialize.Common.{
  ◌≡◌, refl, arith, true, false, [], ◌∷◌, some, Text, codes, inl, inr, is_some,
}
use ast_serialize.Options.{default_options}
use ast_serialize.Ast.Expr.{absent, lt, gt_e}
use ast_serialize.Ast.Stmt.{Stmts, nil, cons, assert, pass}
use ast_serialize.Reachability.Soundness.{inferred_state, inferred_state-Respects, holds}
use ast_serialize.ModuleBody.{kept_body}
use ast_serialize.ModuleBody.Kept.{all_pass, kept_body_all}
use ast_serialize.Surrogates.{is_surrogate, check_surrogate_codepoint}
use ast_serialize.Surrogates.Found.{check_surrogate_codepoint-found}
use ast_serialize.Surrogates.Total.{
  WellEscaped, plain, escape, escape_u, finished, check_surrogate_codepoint_total,
}
use ast_serialize.Examples.Data.{r, version_check}

-- `assert sys.version_info < (3, 8)`, then `pass`
stripped-kept :
    kept_body default_options (cons (assert r (version_check lt 8) absent) (cons (pass r) nil))
    ≡ some (cons (assert r (version_check lt 8) absent) nil)
unfolding kept_body
stripped-kept = refl

abbrev body : Stmts
body = cons (assert r (version_check gt_e 8) absent) (cons (pass r) nil)

body-kept : kept_body default_options body ≡ some body
unfolding kept_body
body-kept = refl

body-passes : all_pass (holds (inferred_state default_options)) body ≡ true
body-passes = unfold inferred_state in unfold holds in refl

kept_body_all_example : body ≡ body
kept_body_all_example =
    kept_body_all default_options (inferred_state default_options)
      (inferred_state-Respects default_options) body body body-passes body-kept

-- The digits of `\\uD800`, which an upper-case letter begins.
abbrev digits : Text
digits = codes "D800"

check_surrogate_codepoint-found_example :
    check_surrogate_codepoint false (97 ∷ 65533 ∷ []) (codes "'a\\uD800'") ≡ some true
check_surrogate_codepoint-found_example =
    check_surrogate_codepoint-found (97 ∷ 65533 ∷ []) (codes "'a") (codes "'") 68 56 48 48 13 8 0 0
      refl (unfold is_surrogate in refl) (inr (omega arith, omega arith, inl refl))
      (inl (omega arith, refl)) (inl (omega arith, refl)) (inl (omega arith, refl)) (omega arith)
      (omega arith)

-- `a\\n\\uD800`
escaped_text : WellEscaped (codes "a\\n\\uD800")
escaped_text = plain (ground arith) (
    escape (ground arith) (ground arith) (
      escape_u digits []
        (
          (13, inr (omega arith, omega arith, inl refl)),
          (
            (8, inl (omega arith, refl)),
            ((0, inl (omega arith, refl)), ((0, inl (omega arith, refl)), tt)),
          ),
        )
        refl finished))

check_surrogate_codepoint_total_example :
    is_some (check_surrogate_codepoint false (65533 ∷ []) (codes "a\\n\\uD800")) ≡ true
check_surrogate_codepoint_total_example =
    check_surrogate_codepoint_total false (65533 ∷ []) (codes "a\\n\\uD800") escaped_text
