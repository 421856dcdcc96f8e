-- ===== src/Reachability/Negation.antt =====
-- Comparisons under the opposite operator.
use mathlib.Core.Option
use ast_serialize.Common.{ℕ, zero, suc, List, [], ◌∷◌, ◌≡◌, refl, arith, Option, none, some}
use ast_serialize.Common.Int.{ℤ, pos, u32_as_i32}
use ast_serialize.Common.Order.{PartialOrd, int_ord, list_ord}
use ast_serialize.Options.{Options}
use ast_serialize.Ast.Expr.{
  Expr, nil, cons, CmpOp, eq, not_eq, lt, lt_e, gt, gt_e, compare, TextRange,
}
use ast_serialize.Reachability.Truth.{invert, reverse_cmp_op, fixed_comparison}
use ast_serialize.Reachability.Literals.{
  IntOrTuple, int_value, tuple_value, contains_int_or_tuple_of_ints,
}
use ast_serialize.Reachability.Version.{
  SysVersionInfo, index, compare_slice, compare_bounds, pick_order, lengths_fit, is_equality,
  version_slice, slice_bounds, is_standard, contains_sys_version_info, compare_version,
  consider_sys_version_info,
}

-- The operator that holds exactly when `op` does not.
abbrev pub negate : CmpOp → CmpOp
negate eq = not_eq
negate not_eq = eq
negate lt = gt_e
negate gt_e = lt
negate gt = lt_e
negate lt_e = gt
negate op = op

pub fixed_comparison-negate {ℓ} :
    {A : Type ℓ} ⦃o : PartialOrd A⦄ (a b : A) (op : CmpOp)
    → fixed_comparison a (negate op) b ≡ invert (fixed_comparison a op b)
unfolding fixed_comparison invert
fixed_comparison-negate ⦃o⦄ a b eq = ground arith
fixed_comparison-negate ⦃o⦄ a b _ = ground arith

is_equality-negate : (op : CmpOp) → is_equality (negate op) ≡ is_equality op
unfolding is_equality
is_equality-negate eq = refl
is_equality-negate _ = refl

compare_slice-negate :
    (op : CmpOp) (target : List ℤ) (part : Option (List ℤ))
    → compare_slice (negate op) target part ≡ invert (compare_slice op target part)
unfolding lengths_fit invert
compare_slice-negate op target none = refl
compare_slice-negate op target (some version) =
    rw (fixed_comparison-negate version target op) (ground (arith, is_equality-negate op))

compare_bounds-negate :
    (version : ℕ × ℕ) (op : CmpOp) (target : List ℤ) (bounds : Option (ℤ × ℤ))
    → compare_bounds version (negate op) target bounds
      ≡ invert (compare_bounds version op target bounds)
unfolding invert
compare_bounds-negate version op target none = refl
compare_bounds-negate version op target (some (lo, hi)) =
    ground (arith, compare_slice-negate op target (version_slice version lo hi))

compare_version-negate :
    (version : ℕ × ℕ) (op : CmpOp) (i : SysVersionInfo) (t : IntOrTuple)
    → compare_version version (negate op) i t ≡ invert (compare_version version op i t)
unfolding compare_version
compare_version-negate version op (index (pos zero)) (int_value k) =
    fixed_comparison-negate (u32_as_i32 version.0) k op
compare_version-negate version op (index (pos (suc zero))) (int_value k) =
    fixed_comparison-negate (u32_as_i32 version.1) k op
compare_version-negate version op i (tuple_value target) =
    compare_bounds-negate version op target (slice_bounds i)
compare_version-negate version op i t = unfold invert in refl

is_standard-negate : (op : CmpOp) → is_standard (negate op) ≡ is_standard op
unfolding is_standard
is_standard-negate eq = refl
is_standard-negate _ = refl

reverse_cmp_op-negate : (op : CmpOp) → reverse_cmp_op (negate op) ≡ negate (reverse_cmp_op op)
unfolding reverse_cmp_op
reverse_cmp_op-negate eq = refl
reverse_cmp_op-negate _ = refl

pick_order-negate :
    (version : ℕ × ℕ) (op : CmpOp) (u v : Option SysVersionInfo) (s t : Option IntOrTuple)
    → pick_order version (negate op) u s v t ≡ invert (pick_order version op u s v t)
pick_order-negate version op (some i) v (some x) t = compare_version-negate version op i x
pick_order-negate version op _ none _ t = unfold invert in refl
pick_order-negate version op _ (some i) _ none = unfold invert in refl
pick_order-negate version op _ (some i) _ (some x) =
    rw (reverse_cmp_op-negate op) (compare_version-negate version (reverse_cmp_op op) i x)

-- A version check under the opposite operator (`<` for `>=`, `!=` for `==`, ...) has the inverted
-- value, for all operands.
pub consider_sys_version_info-negate :
    (r : TextRange) (options : Options) (op : CmpOp) (left right : Expr)
    → consider_sys_version_info (compare r left (negate op ∷ []) (cons right nil)) options
      ≡ Option.map invert
          (consider_sys_version_info (compare r left (op ∷ []) (cons right nil)) options)
unfolding consider_sys_version_info
consider_sys_version_info-negate r options op left right =
    rw
      (
        is_standard-negate op,
        pick_order-negate options.python_version op (contains_sys_version_info left)
            (contains_sys_version_info right) (contains_int_or_tuple_of_ints right)
            (contains_int_or_tuple_of_ints left),
      )
      (unfold invert in ground arith)
