-- ===== src/Reachability/Version.antt =====
-- src/reachability.rs: conditions on `sys.version_info`.
use ast_serialize.Common.{
  ℕ, zero, suc, Bool, true, false, not, ◌&&◌, ◌||◌, List, [], ◌∷◌, Option, none, some, ◌>>=◌, ltb,
  ◌==◌, if◌then◌else◌, length, get_elem?, Text, codes,
}
use ast_serialize.Common.Int.{ℤ, pos, leb_ℤ, ltb_ℤ, u32_as_i32}
use ast_serialize.Common.Order.{cmp_ℤ, int_ord, list_ord}
use ast_serialize.Options.{Options}
use ast_serialize.Ast.Expr.{
  Expr, OptExpr, absent, present, to_list, CmpOp, eq, not_eq, lt, lt_e, gt, gt_e, number_literal,
  slice, subscript, compare,
}
use ast_serialize.Reachability.Truth.{
  TruthValue, truth_value_unknown, reverse_cmp_op, fixed_comparison, is_eq,
}
use ast_serialize.Reachability.Literals.{
  IntOrTuple, int_value, tuple_value, expr_to_int, contains_int_or_tuple_of_ints, is_sys_attr,
}

pub data SysVersionInfo : Type 0 where
  whole : SysVersionInfo
  index : ℤ → SysVersionInfo
  slice_of : (begin end : Option ℤ) → SysVersionInfo

abbrev pub version_info : Text
version_info = codes "version_info"

-- The stride is absent, or the literal 1.
unfoldable pub stride_is_one : OptExpr → Option (Unit {0})
unfolding expr_to_int
stride_is_one absent = some tt
stride_is_one (present stride) = do
  step ← expr_to_int stride
  if is_eq (cmp_ℤ step (pos 1)) then some tt else none

unfoldable pub bound_of : OptExpr → Option (Option ℤ)
unfolding expr_to_int
bound_of absent = some none
bound_of (present e) = do bound ← expr_to_int e; some (some bound)

-- The match on what stands in the brackets of `sys.version_info[...]`.
unfoldable pub subscript_of_version_info : Expr → Option SysVersionInfo
unfolding expr_to_int stride_is_one bound_of
subscript_of_version_info (number_literal r n) = do
  i ← expr_to_int (number_literal r n)
  some (index i)
subscript_of_version_info (slice _ lower upper step) = do
  ok ← stride_is_one step
  begin ← bound_of lower
  end ← bound_of upper
  some (slice_of begin end)
subscript_of_version_info _ = none

unfoldable pub subscripted_version_info : Expr → Option SysVersionInfo
unfolding is_sys_attr subscript_of_version_info
subscripted_version_info (subscript _ value bracket _) =
    if is_sys_attr value version_info then subscript_of_version_info bracket else none
subscripted_version_info _ = none

unfoldable pub contains_sys_version_info : Expr → Option SysVersionInfo
unfolding is_sys_attr subscripted_version_info
contains_sys_version_info e =
    if is_sys_attr e version_info then some whole else subscripted_version_info e

unfoldable pub is_standard : CmpOp → Bool
is_standard eq = true
is_standard not_eq = true
is_standard lt = true
is_standard lt_e = true
is_standard gt = true
is_standard gt_e = true
is_standard _ = false

unfoldable pub is_equality : CmpOp → Bool
is_equality eq = true
is_equality not_eq = true
is_equality _ = false

abbrev pub unwrap_or : Option ℤ → ℤ → ℤ
unwrap_or none d = d
unwrap_or (some i) d = i

-- `lo` and `hi` of the slice that a tuple is compared with.
unfoldable pub slice_bounds : SysVersionInfo → Option (ℤ × ℤ)
slice_bounds whole = some (pos 0, pos 2)
slice_bounds (slice_of begin end) = some (unwrap_or begin (pos 0), unwrap_or end (pos 2))
slice_bounds (index _) = none

-- `python_version[lo:hi]`, within the bounds 0 <= lo < hi <= 2.
unfoldable pub version_slice : ℕ × ℕ → ℤ → ℤ → Option (List ℤ)
version_slice version (pos zero) (pos (suc zero)) = some (u32_as_i32 version.0 ∷ [])
version_slice version (pos zero) (pos (suc (suc zero))) =
    some (u32_as_i32 version.0 ∷ u32_as_i32 version.1 ∷ [])
version_slice version (pos (suc zero)) (pos (suc (suc zero))) = some (u32_as_i32 version.1 ∷ [])
version_slice version _ _ = none

unfoldable pub bounds_are_valid : ℤ → ℤ → Bool
bounds_are_valid lo hi = not (ltb_ℤ lo (pos 0) || ltb_ℤ (pos 2) hi || leb_ℤ hi lo)

unfoldable pub lengths_fit : CmpOp → List ℤ → List ℤ → Bool
unfolding is_equality
lengths_fit op version target =
    length version == length target
    || (ltb (length target) (length version) && not (is_equality op))

abbrev pub compare_slice : CmpOp → List ℤ → Option (List ℤ) → TruthValue
compare_slice op target none = truth_value_unknown
compare_slice op target (some version) =
    if lengths_fit op version target
    then fixed_comparison version op target
    else truth_value_unknown

abbrev pub compare_bounds : ℕ × ℕ → CmpOp → List ℤ → Option (ℤ × ℤ) → TruthValue
compare_bounds version op target none = truth_value_unknown
compare_bounds version op target (some (lo, hi)) =
    if bounds_are_valid lo hi
    then compare_slice op target (version_slice version lo hi)
    else truth_value_unknown

-- The final match of `consider_sys_version_info`.
unfoldable pub compare_version : ℕ × ℕ → CmpOp → SysVersionInfo → IntOrTuple → TruthValue
unfolding fixed_comparison slice_bounds version_slice bounds_are_valid lengths_fit
compare_version version op (index (pos zero)) (int_value value) =
    fixed_comparison (u32_as_i32 version.0) op value
compare_version version op (index (pos (suc zero))) (int_value value) =
    fixed_comparison (u32_as_i32 version.1) op value
compare_version version op i (tuple_value target) =
    compare_bounds version op target (slice_bounds i)
compare_version version op i t = truth_value_unknown

abbrev pub compare_extracted :
    ℕ × ℕ → CmpOp → Option SysVersionInfo → Option IntOrTuple → TruthValue
compare_extracted version op (some i) (some thing) = compare_version version op i thing
compare_extracted version op _ _ = truth_value_unknown

-- The pair from `left op right`, and, if one half is missing, that from `right (reverse op) left`.
abbrev pub pick_order :
    ℕ × ℕ
    → CmpOp
    → (left_version : Option SysVersionInfo) → (right_thing : Option IntOrTuple)
    → (right_version : Option SysVersionInfo) → (left_thing : Option IntOrTuple) → TruthValue
pick_order version op (some i) (some thing) right_version left_thing =
    compare_version version op i thing
pick_order version op _ _ right_version left_thing =
    compare_extracted version (reverse_cmp_op op) right_version left_thing

unfoldable pub compare_either_way : ℕ × ℕ → CmpOp → Expr → Expr → TruthValue
unfolding reverse_cmp_op compare_version contains_sys_version_info contains_int_or_tuple_of_ints
compare_either_way version op left right =
    pick_order version op (contains_sys_version_info left) (contains_int_or_tuple_of_ints right)
      (contains_sys_version_info right) (contains_int_or_tuple_of_ints left)

-- `none` is a panic: `ops[0]` or `comparators[0]` out of bounds.
unfoldable pub consider_sys_version_info : Expr → Options → Option TruthValue
unfolding is_standard compare_either_way
consider_sys_version_info (compare _ left ops comparators) options =
    if ltb 1 (length ops) then some truth_value_unknown else do
      op ← get_elem? ops 0
      if is_standard op
          then (do
            right ← get_elem? (to_list comparators) 0
            some (compare_either_way options.python_version op left right))
          else some truth_value_unknown
consider_sys_version_info _ options = some truth_value_unknown
