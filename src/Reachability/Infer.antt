-- ===== src/Reachability/Infer.antt =====
-- src/reachability.rs: the value of a condition, of an assert and of a pattern.
use ast_serialize.Common.{
  Bool, true, false, ◌||◌, List, [], ◌∷◌, Option, some, ◌>>=◌, if◌then◌else◌, any, Text, codes,
  text_eq,
}
use ast_serialize.Options.{Options}
use ast_serialize.Ast.Expr.{
  Expr, Exprs, nil, cons, not_op, unary_op, boolean_literal, name, attribute, bool_op,
}
use ast_serialize.Ast.Pattern.{Pattern, Patterns, match_as, match_or, no_pattern}
use ast_serialize.Ast.Stmt.{Stmt, assert}
use ast_serialize.Reachability.Truth.{
  TruthValue, always_true, mypy_true, always_false, mypy_false, truth_value_unknown, invert,
  combine_bool_op,
}
use ast_serialize.Reachability.Version.{consider_sys_version_info}
use ast_serialize.Reachability.Platform.{consider_sys_platform}

abbrev pub listed : List Text → Text → Bool
listed names s = any (λ n. text_eq n s) names

unfoldable pub check_name_truth_value : Text → Options → TruthValue
unfolding text_eq
check_name_truth_value s options =
    if text_eq s (codes "MYPY") || text_eq s (codes "TYPE_CHECKING")
    then mypy_true
    else if text_eq s (codes "PY2")
    then always_false
    else if text_eq s (codes "PY3")
    then always_true
    else if listed options.always_true s
    then always_true
    else if listed options.always_false s
    then always_false
    else truth_value_unknown

unfoldable pub boolean_value : Bool → Options → TruthValue
unfolding text_eq
boolean_value true options =
    if listed options.always_true (codes "True") then always_true else truth_value_unknown
boolean_value false options =
    if listed options.always_false (codes "False") then always_false else truth_value_unknown

abbrev pub or_platform : Option TruthValue → TruthValue → Option TruthValue
or_platform p truth_value_unknown = p
or_platform p known = some known

-- The last arm of `infer_condition_value`: version, then platform.
unfoldable pub version_or_platform : Expr → Options → Option TruthValue
unfolding consider_sys_version_info consider_sys_platform
version_or_platform e options = do
  result ← consider_sys_version_info e options
  or_platform (consider_sys_platform e options) result

-- `none` is a panic.
unfoldable mutual
  unfolding invert check_name_truth_value boolean_value combine_bool_op version_or_platform

  pub infer_condition_value : Options → Expr → Option TruthValue
  infer_condition_value options (unary_op r not_op operand) = do
    positive ← infer_condition_value options operand
    some (invert positive)
  infer_condition_value options (boolean_literal _ value) = some (boolean_value value options)
  infer_condition_value options (name _ id _) = some (check_name_truth_value id options)
  infer_condition_value options (attribute _ _ attr _) =
      some (check_name_truth_value attr.id options)
  infer_condition_value options (bool_op _ op values) = do
    inferred_values ← infer_condition_values options values
    some (combine_bool_op op inferred_values)
  infer_condition_value options e = version_or_platform e options

  pub infer_condition_values : Options → Exprs → Option (List TruthValue)
  infer_condition_values options nil = some []
  infer_condition_values options (cons e es) = do
    value ← infer_condition_value options e
    values ← infer_condition_values options es
    some (value ∷ values)

abbrev pub is_false : TruthValue → Bool
is_false always_false = true
is_false mypy_false = true
is_false _ = false

abbrev pub is_true : TruthValue → Bool
is_true always_true = true
is_true mypy_true = true
is_true _ = false

unfoldable pub assert_will_always_fail : Stmt → Options → Option Bool
unfolding infer_condition_value
assert_will_always_fail (assert _ test _) options = do
  truth_value ← infer_condition_value options test
  some (is_false truth_value)
assert_will_always_fail _ options = some false

abbrev pub is_always_true : TruthValue → Bool
is_always_true always_true = true
is_always_true _ = false

unfoldable mutual
  pub infer_pattern_value : Pattern → TruthValue
  infer_pattern_value (match_as _ no_pattern _) = always_true
  infer_pattern_value (match_or _ ps) =
      if any_always_true ps then always_true else truth_value_unknown
  infer_pattern_value _ = truth_value_unknown

  pub any_always_true : Patterns → Bool
  any_always_true Patterns.nil = false
  any_always_true (Patterns.cons p ps) =
      is_always_true (infer_pattern_value p) || any_always_true ps
