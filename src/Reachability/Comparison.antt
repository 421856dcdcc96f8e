-- ===== src/Reachability/Comparison.antt =====
-- Comparisons with their operands swapped.

use ast_serialize.Common.{
  ℕ, ◌^◌, ◌<◌, true, [], ◌∷◌, ◌≡◌, refl, sym, ◌∙◌, arith, Option, none, some, ◌⊎◌, inl, inr,
}
use ast_serialize.Common.Int.{pos}
use ast_serialize.Common.Order.{PartialOrd, int_ord, list_ord}
use ast_serialize.Options.{Options}
use ast_serialize.Ast.Expr.{
  Expr, nil, cons, CmpOp, eq, attribute, compare, subscript, TextRange, ExprContext,
}
use ast_serialize.Reachability.Truth.{truth_of, reverse_cmp_op, fixed_comparison}
use ast_serialize.Reachability.Literals.{IntOrTuple, contains_int_or_tuple_of_ints}
use ast_serialize.Reachability.Version.{
  SysVersionInfo, pick_order, is_standard, contains_sys_version_info, compare_either_way,
  consider_sys_version_info,
}
use ast_serialize.Reachability.Versions.{
  version_holds, sys_version_info, int_pair, compare_pair, compare_either_way-pair,
}

pub reverse_cmp_op-reverse_cmp_op : (op : CmpOp) → reverse_cmp_op (reverse_cmp_op op) ≡ op
unfolding reverse_cmp_op
reverse_cmp_op-reverse_cmp_op eq = refl
reverse_cmp_op-reverse_cmp_op _ = refl

-- Swapped operands under the reversed operator have the same fixed comparison, in every order.
pub fixed_comparison-reverse_cmp_op {ℓ} :
    {A : Type ℓ} ⦃o : PartialOrd A⦄ (a b : A) (op : CmpOp)
    → fixed_comparison b (reverse_cmp_op op) a ≡ fixed_comparison a op b
unfolding fixed_comparison reverse_cmp_op
fixed_comparison-reverse_cmp_op ⦃o⦄ a b eq = ground (arith, o.cmp_swap a b)
fixed_comparison-reverse_cmp_op ⦃o⦄ a b _ = ground (arith, o.cmp_swap a b)

-- An expression that is an access to `sys.version_info` is neither an integer nor a tuple.
version-not-ints :
    (e : Expr) → (contains_sys_version_info e ≡ none) ⊎ (contains_int_or_tuple_of_ints e ≡ none)
unfolding contains_sys_version_info contains_int_or_tuple_of_ints
version-not-ints (attribute _ _ _ _) = inr refl
version-not-ints (subscript _ _ _ _) = inr refl
version-not-ints _ = inl refl

pick_order-swap :
    (version : ℕ × ℕ) (op : CmpOp) (u v : Option SysVersionInfo) (s t : Option IntOrTuple)
    → (u ≡ none) ⊎ (s ≡ none)
    → (v ≡ none) ⊎ (t ≡ none)
    → pick_order version (reverse_cmp_op op) v s u t ≡ pick_order version op u t v s
pick_order-swap version op (some i) v (some x) t (inl e) r = cc
pick_order-swap version op (some i) v (some x) t (inr e) r = cc
pick_order-swap version op u (some j) s (some x) l (inl e) = cc
pick_order-swap version op u (some j) s (some x) l (inr e) = cc
pick_order-swap version op none none none none l r = refl
pick_order-swap version op none none none (some t) l r = refl
pick_order-swap version op none none (some t) none l r = refl
pick_order-swap version op none none (some x) (some y) l r = refl
pick_order-swap version op none (some j) none none l r = refl
pick_order-swap version op none (some j) (some t) none l r = refl
pick_order-swap version op (some i) none none none l r = refl
pick_order-swap version op (some i) none none (some t) l r = rw (reverse_cmp_op-reverse_cmp_op op)
pick_order-swap version op (some i) (some j) none none l r = refl

-- The operands of a version check may be swapped, with the operator reversed.
pub compare_either_way-swap :
    (version : ℕ × ℕ) (op : CmpOp) (left right : Expr)
    → compare_either_way version (reverse_cmp_op op) right left
      ≡ compare_either_way version op left right
unfolding compare_either_way
compare_either_way-swap version op left right =
    pick_order-swap version op (contains_sys_version_info left) (contains_sys_version_info right)
      (contains_int_or_tuple_of_ints left) (contains_int_or_tuple_of_ints right)
      (version-not-ints left) (version-not-ints right)

-- `(a, b) op sys.version_info`, for the operators `==`, `!=`, `<`, `<=`, `>` and `>=`, is worth
-- whether (a, b) is in that order to the target version, major number first, for numbers that an i32
-- holds.
pub consider_sys_version_info-pair_first :
    (r : TextRange) (c : ExprContext) (options : Options) (a b : ℕ) (op : CmpOp)
    → is_standard op ≡ true
    → options.python_version.0 < 2 ^ 31
    → options.python_version.1 < 2 ^ 31
    → a < 2 ^ 31
    → b < 2 ^ 31
    → consider_sys_version_info
        (compare r (int_pair r c a b) (op ∷ []) (cons (sys_version_info r c) nil))
        options
      ≡ some (truth_of (version_holds op (a, b) options.python_version))
unfolding consider_sys_version_info
consider_sys_version_info-pair_first r c options a b op h hm hn ha hb =
    let (m, n) = options.python_version in
    let swapped : compare_either_way (m, n) op (int_pair r c a b) (sys_version_info r c)
        ≡ truth_of (version_holds op (a, b) (m, n)) =
      sym (compare_either_way-swap (m, n) op (int_pair r c a b) (sys_version_info r c))
      ∙ compare_either_way-pair r c m n a b (reverse_cmp_op op) hm hn ha hb
      ∙ fixed_comparison-reverse_cmp_op (pos a ∷ pos b ∷ []) (pos m ∷ pos n ∷ []) op
      ∙ compare_pair op a b m n h in
    rw (h, swapped) refl
