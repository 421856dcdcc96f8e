-- ===== src/Common/Order.antt =====
-- The orders of Rust's `PartialOrd` that the code compares by: integers, texts and slices. All are
-- total, so an order is one function into `Ordering`.
use Prim.Native.Nat.{ℕ, compare, Ordering}
use mathlib.Core.Path.{◌≡◌, refl}
use mathlib.Core.List.{List, [], ◌∷◌}
use native.Mathlib.Omega.{arith}
use ast_serialize.Common.Int.{ℤ, pos, negsuc}

abbrev pub swap : Ordering → Ordering
swap Ordering.lt = Ordering.gt
swap Ordering.eq = Ordering.eq
swap Ordering.gt = Ordering.lt

pub record PartialOrd {ℓ} (A : Type ℓ) : Type ℓ where
  pub cmp : A → A → Ordering
  pub cmp_swap : (a b : A) → cmp b a ≡ swap (cmp a b)
  pub cmp_refl : (a : A) → cmp a a ≡ Ordering.eq

pub compare_swap : (a b : ℕ) → compare b a ≡ swap (compare a b)
compare_swap a b = ground arith

pub compare_refl : (a : ℕ) → compare a a ≡ Ordering.eq
compare_refl a = ground arith

abbrev pub cmp_ℤ : ℤ → ℤ → Ordering
cmp_ℤ (pos a) (pos b) = compare a b
cmp_ℤ (pos a) (negsuc b) = Ordering.gt
cmp_ℤ (negsuc a) (pos b) = Ordering.lt
cmp_ℤ (negsuc a) (negsuc b) = compare b a

pub cmp_ℤ-swap : (a b : ℤ) → cmp_ℤ b a ≡ swap (cmp_ℤ a b)
cmp_ℤ-swap a b = ground arith

pub cmp_ℤ-refl : (a : ℤ) → cmp_ℤ a a ≡ Ordering.eq
cmp_ℤ-refl a = ground arith

instance abbrev pub nat_ord : PartialOrd ℕ
nat_ord = record { cmp = compare; cmp_swap = compare_swap; cmp_refl = compare_refl }

instance abbrev pub int_ord : PartialOrd ℤ
int_ord = record { cmp = cmp_ℤ; cmp_swap = cmp_ℤ-swap; cmp_refl = cmp_ℤ-refl }

-- Slices and texts compare lexicographically.
module _ {ℓ} {A : Type ℓ} (o : PartialOrd A) where
  abbrev pub cmp_list : List A → List A → Ordering
  cmp_list [] [] = Ordering.eq
  cmp_list [] (y ∷ ys) = Ordering.lt
  cmp_list (x ∷ xs) [] = Ordering.gt
  cmp_list (x ∷ xs) (y ∷ ys) = elim (o.cmp x y) [ Ordering.eq ↦ cmp_list xs ys | other ↦ other ]

  pub cmp_list-swap : (xs ys : List A) → cmp_list ys xs ≡ swap (cmp_list xs ys)
  cmp_list-swap [] [] = refl
  cmp_list-swap [] (y ∷ ys) = refl
  cmp_list-swap (x ∷ xs) [] = refl
  cmp_list-swap (x ∷ xs) (y ∷ ys) = ground (arith, o.cmp_swap x y, cmp_list-swap xs ys)

  pub cmp_list_refl : (xs : List A) → cmp_list xs xs ≡ Ordering.eq
  cmp_list_refl [] = refl
  cmp_list_refl (x ∷ xs) = ground (arith, o.cmp_refl x, cmp_list_refl xs)

instance abbrev pub list_ord {ℓ} : {A : Type ℓ} ⦃o : PartialOrd A⦄ → PartialOrd (List A)
list_ord ⦃o⦄ = record { cmp = cmp_list o; cmp_swap = cmp_list-swap o; cmp_refl = cmp_list_refl o }
