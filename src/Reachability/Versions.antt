-- ===== src/Reachability/Versions.antt =====
-- What a check of the version is worth.

use ast_serialize.Common.{
  ℕ, ◌^◌, ◌<◌, Bool, true, false, not, ◌&&◌, ◌||◌, [], ◌∷◌, ◌≡◌, arith, some, ltb, leb, lt→ltb,
  ◌==◌,
}
use ast_serialize.Common.Int.{pos}
use ast_serialize.Common.Order.{int_ord, list_ord}
use ast_serialize.Options.{Options}
use ast_serialize.Ast.Expr.{
  Expr, nil, cons, CmpOp, eq, not_eq, lt, lt_e, gt, gt_e, int, number_literal, attribute, tuple,
  compare, TextRange, ExprContext, name,
}
use ast_serialize.Reachability.Truth.{truth_of, fixed_comparison}
use ast_serialize.Reachability.Literals.{sys}
use ast_serialize.Reachability.Version.{
  version_info, is_standard, compare_either_way, consider_sys_version_info,
}

-- The order of two versions, major number first.
abbrev pub version_holds : CmpOp → ℕ × ℕ → ℕ × ℕ → Bool
version_holds eq (m, n) (a, b) = m == a && n == b
version_holds not_eq (m, n) (a, b) = not (m == a && n == b)
version_holds lt (m, n) (a, b) = ltb m a || (m == a && ltb n b)
version_holds lt_e (m, n) (a, b) = ltb m a || (m == a && leb n b)
version_holds gt (m, n) (a, b) = ltb a m || (m == a && ltb b n)
version_holds gt_e (m, n) (a, b) = ltb a m || (m == a && leb b n)
version_holds _ v w = false

-- The expressions `sys.version_info` and `(a, b)`.
abbrev pub sys_version_info : TextRange → ExprContext → Expr
sys_version_info r c = attribute r (name r sys c) (record { id = version_info; range = r }) c

abbrev pub int_pair : TextRange → ExprContext → ℕ → ℕ → Expr
int_pair r c a b =
    tuple r (cons (number_literal r (int a)) (cons (number_literal r (int b)) nil)) c true

pub compare_pair :
    (op : CmpOp) (m n a b : ℕ)
    → is_standard op ≡ true
    → fixed_comparison (pos m ∷ pos n ∷ []) op (pos a ∷ pos b ∷ [])
      ≡ truth_of (version_holds op (m, n) (a, b))
unfolding fixed_comparison is_standard
compare_pair eq m n a b h = ground arith
compare_pair _ m n a b h = ground arith

pub compare_either_way-pair :
    (r : TextRange) (c : ExprContext) (m n a b : ℕ) (op : CmpOp)
    → m < 2 ^ 31
    → n < 2 ^ 31
    → a < 2 ^ 31
    → b < 2 ^ 31
    → compare_either_way (m, n) op (sys_version_info r c) (int_pair r c a b)
      ≡ fixed_comparison (pos m ∷ pos n ∷ []) op (pos a ∷ pos b ∷ [])
unfolding compare_either_way
compare_either_way-pair r c m n a b op hm hn ha hb =
    rw (lt→ltb a (2 ^ 31) ha, lt→ltb b (2 ^ 31) hb, lt→ltb m (2 ^ 31) hm, lt→ltb n (2 ^ 31) hn)

-- `sys.version_info op (a, b)`, for the operators `==`, `!=`, `<`, `<=`, `>` and `>=`, is worth
-- whether the target version is in that order to (a, b), major number first, for numbers that an i32
-- holds.
pub consider_sys_version_info-pair :
    (r : TextRange) (c : ExprContext) (options : Options) (a b : ℕ) (op : CmpOp)
    → is_standard op ≡ true
    → options.python_version.0 < 2 ^ 31
    → options.python_version.1 < 2 ^ 31
    → a < 2 ^ 31
    → b < 2 ^ 31
    → consider_sys_version_info
        (compare r (sys_version_info r c) (op ∷ []) (cons (int_pair r c a b) nil))
        options
      ≡ some (truth_of (version_holds op options.python_version (a, b)))
unfolding consider_sys_version_info
consider_sys_version_info-pair r c options a b op h hm hn ha hb = rw (
  h,
  compare_either_way-pair r c options.python_version.0 options.python_version.1 a b op hm hn ha hb,
  compare_pair op options.python_version.0 options.python_version.1 a b h,
)
