-- ===== src/Reachability/Platform.antt =====
-- src/reachability.rs: conditions on `sys.platform`.
use ast_serialize.Common.{
  Bool, not, List, [], ◌∷◌, Option, none, some, ◌>>=◌, ltb, if◌then◌else◌, length, get_elem?, Text,
  codes, text_eq, starts_with,
}
use ast_serialize.Common.Order.{nat_ord, list_ord}
use ast_serialize.Options.{Options}
use ast_serialize.Ast.Expr.{
  Expr, to_list, CmpOp, eq, not_eq, in_op, not_in, attribute, compare, call,
}
use ast_serialize.Reachability.Truth.{TruthValue, truth_value_unknown, truth_of, fixed_comparison}
use ast_serialize.Reachability.Literals.{string_of, string_literal_container_contains, is_sys_attr}

abbrev pub platform_name : Text
platform_name = codes "platform"

abbrev pub of_string : CmpOp → Text → Option Text → TruthValue
of_string op platform (some s) = fixed_comparison platform op s
of_string op platform none = truth_value_unknown

abbrev pub of_container : (Bool → Bool) → Option Bool → TruthValue
of_container f (some result) = truth_of (f result)
of_container f none = truth_value_unknown

unfoldable pub compare_platform : Text → CmpOp → Expr → TruthValue
unfolding fixed_comparison string_of string_literal_container_contains
compare_platform platform eq right = of_string eq platform (string_of right)
compare_platform platform not_eq right = of_string not_eq platform (string_of right)
compare_platform platform in_op right =
    of_container (λ b. b) (string_literal_container_contains right platform)
compare_platform platform not_in right =
    of_container not (string_literal_container_contains right platform)
compare_platform platform _ right = truth_value_unknown

abbrev pub starts_with_literal : Text → Option Text → TruthValue
starts_with_literal platform (some prefix) = truth_of (starts_with platform prefix)
starts_with_literal platform none = truth_value_unknown

-- A call of `sys.platform.startswith` with one argument. The keywords are not looked at.
unfoldable pub platform_call : Text → Expr → List Expr → TruthValue
unfolding is_sys_attr string_of starts_with
platform_call platform (attribute _ value attr _) (argument ∷ []) =
    if is_sys_attr value platform_name
    then (if text_eq attr.id (codes "startswith")
        then starts_with_literal platform (string_of argument)
        else truth_value_unknown)
    else truth_value_unknown
platform_call platform _ _ = truth_value_unknown

-- `none` is a panic: `ops[0]` or `comparators[0]` out of bounds.
unfoldable pub consider_sys_platform : Expr → Options → Option TruthValue
unfolding compare_platform platform_call is_sys_attr
consider_sys_platform (compare _ left ops comparators) options =
    if ltb 1 (length ops) then some truth_value_unknown else do
      op ← get_elem? ops 0
      if is_sys_attr left platform_name
          then (do
            right ← get_elem? (to_list comparators) 0
            some (compare_platform options.platform op right))
          else some truth_value_unknown
consider_sys_platform (call _ func args _) options =
    some (platform_call options.platform func (to_list args))
consider_sys_platform _ options = some truth_value_unknown
