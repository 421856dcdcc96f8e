-- ===== src/Serialize/Names/Literals.antt =====
-- The integers and the names that a type is read as.
use mathlib.Core.Path.{subst}
use ast_serialize.Common.{
  ℕ, zero, suc, ◌^◌, ◌<◌, ◌≡◌, refl, ap, Option, none, some, ◌>>=◌, >>=-eq-some, ltb, arith,
  Bool-cases, inl, inr,
}
use ast_serialize.Common.Int.{ℤ, pos, negsuc, pos_part, neg_part}
use ast_serialize.Ast.Expr.{int, float, complex, u_sub, Expr, number_literal, unary_op}
use ast_serialize.Serialize.Names.{as_i64, neg_i64, extract_int_literal_value}

abbrev pub negate : ℤ → ℤ
negate (pos zero) = pos zero
negate (pos (suc n)) = negsuc n
negate (negsuc n) = pos (suc n)

-- The integer that a literal behind any number of minus signs denotes.
unfoldable pub literal_value : Expr → Option ℤ
literal_value (number_literal _ (int n)) = some (pos n)
literal_value (unary_op _ u_sub operand) = do v ← literal_value operand; some (negate v)
literal_value _ = none

-- Between -(2 ^ 63) and 2 ^ 63, both excluded.
abbrev pub IsSymmetric : ℤ → Type 0
IsSymmetric v = (pos_part v < 2 ^ 63) × (neg_part v < 2 ^ 63)

as_i64_sound : (n : ℕ) (v : ℤ) → as_i64 n ≡ some v → (pos n ≡ v) × IsSymmetric v
unfolding as_i64
as_i64_sound n v h = elim (Bool-cases (ltb n (2 ^ 63))) [
  | inl small ↦
      let p : pos n ≡ v = ground (arith, small, h) in (p, subst IsSymmetric p (ground arith))
  | inr large ↦ ground (arith, large, h)
]

neg_i64_sound : (v : ℤ) → IsSymmetric v → (neg_i64 v ≡ negate v) × IsSymmetric (negate v)
unfolding neg_i64
neg_i64_sound (pos zero) h = (refl, ground arith)
neg_i64_sound (pos (suc n)) h = (refl, ground arith)
neg_i64_sound (negsuc n) h = (ground arith, ground arith)

-- Where an integer literal is read, the value is the integer that the literal denotes, and lies
-- strictly between -(2 ^ 63) and 2 ^ 63: the negation of the i64 behind a minus sign never overflows.
pub extract_int_literal_value-bounds :
    (e : Expr) (v : ℤ)
    → extract_int_literal_value e ≡ some v
    → (literal_value e ≡ some v) × (pos_part v < 2 ^ 63) × (neg_part v < 2 ^ 63)
unfolding extract_int_literal_value literal_value
extract_int_literal_value-bounds (number_literal _ (int n)) v h =
    let (p, small) = as_i64_sound n v h in (ap some p, small.0, small.1)
extract_int_literal_value-bounds (number_literal _ (float _)) v h = cc
extract_int_literal_value-bounds (number_literal _ (complex _ _)) v h = cc
extract_int_literal_value-bounds (unary_op _ u_sub operand) v h =
    let (w, read, negated) = >>=-eq-some (extract_int_literal_value operand) _ h in
    let (q, upper, lower) = extract_int_literal_value-bounds operand w read in
    let (p, bounded) = neg_i64_sound w (upper, lower) in
    let r : negate w ≡ v = cc in
    let (small, large) = subst IsSymmetric r bounded in (rw q (ap some r), small, large)
extract_int_literal_value-bounds _ v h = cc
