-- ===== src/Reachability/Truth.antt =====
-- src/reachability.rs: truth values, comparison of known values, and `and` and `or` over them.
use Prim.Native.Nat.{Ordering}
use ast_serialize.Common.{Bool, true, false, not, ◌&&◌, List, [], ◌∷◌, if◌then◌else◌}
use ast_serialize.Common.Order.{PartialOrd}
use ast_serialize.Ast.Expr.{BoolOp, and_op, or_op, CmpOp, eq, not_eq, lt, lt_e, gt, gt_e}

pub data TruthValue : Type 0 where
  always_true mypy_true always_false mypy_false truth_value_unknown : TruthValue

unfoldable pub invert : TruthValue → TruthValue
invert always_true = always_false
invert always_false = always_true
invert mypy_true = mypy_false
invert mypy_false = mypy_true
invert truth_value_unknown = truth_value_unknown

unfoldable pub reverse_cmp_op : CmpOp → CmpOp
reverse_cmp_op eq = eq
reverse_cmp_op not_eq = not_eq
reverse_cmp_op lt = gt
reverse_cmp_op lt_e = gt_e
reverse_cmp_op gt = lt
reverse_cmp_op gt_e = lt_e
reverse_cmp_op op = op

-- `==`, `<`, `<=` of Rust's `PartialOrd`; the other three are their negations.
abbrev pub is_eq : Ordering → Bool
is_eq Ordering.eq = true
is_eq _ = false

abbrev pub is_lt : Ordering → Bool
is_lt Ordering.lt = true
is_lt _ = false

abbrev pub is_gt : Ordering → Bool
is_gt Ordering.gt = true
is_gt _ = false

abbrev pub truth_of : Bool → TruthValue
truth_of result = if result then always_true else always_false

unfoldable pub fixed_comparison {ℓ} : {A : Type ℓ} ⦃o : PartialOrd A⦄ → A → CmpOp → A → TruthValue
fixed_comparison ⦃o⦄ left eq right = truth_of (is_eq (o.cmp left right))
fixed_comparison ⦃o⦄ left not_eq right = truth_of (not (is_eq (o.cmp left right)))
fixed_comparison ⦃o⦄ left lt right = truth_of (is_lt (o.cmp left right))
fixed_comparison ⦃o⦄ left lt_e right = truth_of (not (is_gt (o.cmp left right)))
fixed_comparison ⦃o⦄ left gt right = truth_of (is_gt (o.cmp left right))
fixed_comparison ⦃o⦄ left gt_e right = truth_of (not (is_lt (o.cmp left right)))
fixed_comparison left _ right = truth_value_unknown

-- What the loop of `combine_bool_op` has seen.
pub record Seen : Type 0 where
  pub has_always_true : Bool
  pub has_mypy_true : Bool
  pub has_always_false : Bool
  pub has_mypy_false : Bool
  pub has_unknown : Bool

unfoldable pub see : Seen → TruthValue → Seen
see s always_true = record s { has_always_true = true }
see s mypy_true = record s { has_mypy_true = true }
see s always_false = record s { has_always_false = true }
see s mypy_false = record s { has_mypy_false = true }
see s truth_value_unknown = record s { has_unknown = true }

unfoldable pub see_all : Seen → List TruthValue → Seen
unfolding see
see_all s [] = s
see_all s (v ∷ vs) = see_all (see s v) vs

abbrev pub nothing_seen : Seen
nothing_seen = record {
  has_always_true = false;
  has_mypy_true = false;
  has_always_false = false;
  has_mypy_false = false;
  has_unknown = false;
}

unfoldable pub decide_or : Seen → TruthValue
decide_or s =
    if s.has_always_true
    then always_true
    else if s.has_mypy_true
    then mypy_true
    else if not s.has_always_false && not s.has_unknown && s.has_mypy_false
    then mypy_false
    else if not s.has_unknown && not s.has_always_true && not s.has_mypy_true
    then always_false
    else truth_value_unknown

unfoldable pub decide_and : Seen → TruthValue
decide_and s =
    if s.has_always_false
    then always_false
    else if s.has_mypy_false
    then mypy_false
    else if not s.has_mypy_true && not s.has_unknown && s.has_always_true
    then always_true
    else if not s.has_unknown && not s.has_always_false && not s.has_mypy_false
    then mypy_true
    else truth_value_unknown

unfoldable pub combine_bool_op : BoolOp → List TruthValue → TruthValue
unfolding see_all decide_or decide_and
combine_bool_op or_op values = decide_or (see_all nothing_seen values)
combine_bool_op and_op values = decide_and (see_all nothing_seen values)
