-- ===== src/Wire/Ints.antt =====
-- Little-endian bytes, and the number of bytes that a magnitude needs.
use ast_serialize.Common.{
  ℕ, zero, suc, ◌/◌, ◌%◌, ◌^◌, ◌<◌, ◌≤◌, ◌≡◌, refl, arith, List, ◌∷◌, ◌++◌, some, ◌==◌, Bool-cases,
  inl, inr, ap,
}
use ast_serialize.Wire.{le_bytes, byte_at, significant, first}
use ast_serialize.Wire.Reader.{read_le}

-- `x` without its `n` lowest bytes. Nothing is left where `n` bytes hold `x`.
abbrev pub shift : ℕ → ℕ → ℕ
shift zero x = x
shift (suc n) x = shift n (x / 256)

shift-suc : (n x : ℕ) → shift (suc n) x ≡ shift n x / 256
shift-suc zero x = refl
shift-suc (suc n) x = shift-suc n (x / 256)

pub shift-eight : (x : ℕ) → x < 2 ^ 64 → shift 8 x ≡ 0
shift-eight x h = omega arith

pub read_le-le_bytes :
    (n x : ℕ) (rest : List ℕ) → shift n x ≡ 0 → read_le n (le_bytes n x ++ rest) ≡ some (x, rest)
unfolding le_bytes read_le
read_le-le_bytes zero x rest h = ground arith
read_le-le_bytes (suc n) x rest h = rw (read_le-le_bytes n (x / 256) rest h) (ground arith)

byte_at-le_bytes : (k n x : ℕ) → n < k → byte_at (le_bytes k x) n ≡ shift n x % 256
unfolding le_bytes
byte_at-le_bytes zero n x h = absurd (omega arith)
byte_at-le_bytes (suc k) zero x h = refl
byte_at-le_bytes (suc k) (suc n) x h = byte_at-le_bytes k n (x / 256) (omega arith)

pub first-le_bytes : (k n x : ℕ) → n ≤ k → first n (le_bytes k x) ≡ le_bytes n x
unfolding le_bytes
first-le_bytes k zero x h = refl
first-le_bytes zero (suc n) x h = absurd (omega arith)
first-le_bytes (suc k) (suc n) x h = ap (◌∷◌ (x % 256)) (first-le_bytes k n (x / 256) (omega arith))

-- The bytes that the loop keeps hold the number, and are at most those it began with.
pub significant_holds :
    (k n x : ℕ)
    → n ≤ k
    → 0 < n
    → shift n x ≡ 0
    → (shift (significant (le_bytes k x) n) x ≡ 0)
      × (significant (le_bytes k x) n ≤ n)
      × (0 < significant (le_bytes k x) n)
unfolding significant
significant_holds k zero x h p s = absurd (omega arith)
significant_holds k (suc zero) x h p s = (s, omega arith, omega arith)
significant_holds k (suc (suc n)) x h p s =
    elim (Bool-cases (byte_at (le_bytes k x) (suc n) == 0)) [
      | inl zero_byte ↦
          let top : shift (suc n) x % 256 ≡ 0 = ground (arith, byte_at-le_bytes k (suc n) x) in
          let rest : shift (suc n) x ≡ 0 = omega (arith, shift-suc (suc n) x) in
          let (a, b, c) = significant_holds k (suc n) x (omega arith) (omega arith) rest in
          rw zero_byte (a, omega arith, c)
      | inr kept ↦ rw kept (s, omega arith, omega arith)
    ]
