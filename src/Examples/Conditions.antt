-- ===== src/Examples/Conditions.antt =====
-- Conditions on small inputs.
use ast_serialize.Common.{◌≡◌, refl, arith, true, [], ◌∷◌, some, is_some}
use ast_serialize.Common.Order.{nat_ord}
use ast_serialize.Options.{default_options}
use ast_serialize.Ast.Expr.{nil, cons, load, gt_e, lt, compare}
use ast_serialize.Reachability.Truth.{always_true, truth_value_unknown, truth_of}
use ast_serialize.Reachability.Version.{is_standard, consider_sys_version_info}
use ast_serialize.Reachability.Infer.{infer_condition_value}
use ast_serialize.Reachability.BoolOps.{Says}
use ast_serialize.Reachability.Comparison.{consider_sys_version_info-pair_first}
use ast_serialize.Reachability.Versions.{
  sys_version_info, int_pair, version_holds, consider_sys_version_info-pair,
}
use ast_serialize.Reachability.Total.{well_formed, infer_condition_value_total}
use ast_serialize.Reachability.Soundness.{
  holds, inferred_state, inferred_state-Respects, infer_condition_value_sound,
}
use ast_serialize.Examples.Data.{r, version_check, condition}

-- `debug` is unknown, so that `not (debug or False) and MYPY` is.
condition-infer : infer_condition_value default_options condition ≡ some truth_value_unknown
unfolding infer_condition_value
condition-infer = refl

version_check-infer :
    infer_condition_value default_options (version_check gt_e 8) ≡ some always_true
unfolding infer_condition_value
version_check-infer = refl

infer_condition_value_sound_example :
    Says always_true (holds (inferred_state default_options) (version_check gt_e 8))
infer_condition_value_sound_example =
    infer_condition_value_sound default_options (inferred_state default_options)
      (inferred_state-Respects default_options) (version_check gt_e 8) always_true
      version_check-infer

condition-well_formed : well_formed condition ≡ true
unfolding well_formed
condition-well_formed = refl

infer_condition_value_total_example :
    is_some (infer_condition_value default_options condition) ≡ true
infer_condition_value_total_example =
    infer_condition_value_total default_options condition condition-well_formed

lt-is_standard : is_standard lt ≡ true
unfolding is_standard
lt-is_standard = refl

consider_sys_version_info-pair_example :
    consider_sys_version_info
      (compare r (sys_version_info r load) (lt ∷ []) (cons (int_pair r load 3 8) nil))
      default_options
    ≡ some (truth_of (version_holds lt (3, 12) (3, 8)))
consider_sys_version_info-pair_example =
    consider_sys_version_info-pair r load default_options 3 8 lt lt-is_standard (omega arith)
      (omega arith) (omega arith) (omega arith)

consider_sys_version_info-pair_first_example :
    consider_sys_version_info
      (compare r (int_pair r load 3 8) (lt ∷ []) (cons (sys_version_info r load) nil))
      default_options
    ≡ some (truth_of (version_holds lt (3, 8) (3, 12)))
consider_sys_version_info-pair_first_example =
    consider_sys_version_info-pair_first r load default_options 3 8 lt lt-is_standard (omega arith)
      (omega arith) (omega arith) (omega arith)
