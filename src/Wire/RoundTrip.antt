-- ===== src/Wire/RoundTrip.antt =====
-- Reading what the primitive writes append.
use ast_serialize.Common.{
  ℕ, ◌+◌, ◌-◌, ◌*◌, ◌/◌, ◌%◌, ◌^◌, ◌<◌, ◌≤◌, ◌≡◌, refl, arith, Bool, true, false, List, [], ◌∷◌,
  ◌++◌, some, Bool-cases, inl, inr, ◌∙◌, length,
}
use mathlib.Core.List.{append_assoc}
use ast_serialize.Common.Int.{ℤ, pos, negsuc, sub_ℕ, IsI64}
use ast_serialize.Wire.{
  above, in_range, le_bytes, significant, magnitude, sign_bit, long_int_trailer, long_format,
  write_int_by, write_int, write_tagged_int, write_usize, write_bool, write_bytes,
}
use ast_serialize.Wire.Reader.{
  signed, read_long, read_int, read_tagged_int, read_bool, split, read_count, read_bytes,
}
use ast_serialize.Wire.Ints.{
  shift, shift-eight, read_le-le_bytes, first-le_bytes, significant_holds,
}

read_int_short :
    (i : ℤ) (rest : List ℕ)
    → in_range (negsuc 9) (pos 117) i ≡ true
    → read_int (((above 10 i * 2) % 2 ^ 8) ∷ rest) ≡ some (i, rest)
unfolding read_int
read_int_short (pos n) rest h = ground arith
read_int_short (negsuc n) rest h = ground arith

-- The lowest bits of the first byte tell the formats apart.
read_int_two :
    (x : ℕ) (rest : List ℕ)
    → x < 2 ^ 16
    → x % 4 ≡ 1
    → read_int (le_bytes 2 x ++ rest) ≡ some (sub_ℕ (x / 4) 100, rest)
unfolding read_int le_bytes
read_int_two x rest h k =
    let whole = read_le-le_bytes 2 x rest (omega arith) in ground (arith, whole)

read_int_four :
    (x : ℕ) (rest : List ℕ)
    → x < 2 ^ 32
    → x % 8 ≡ 3
    → read_int (le_bytes 4 x ++ rest) ≡ some (sub_ℕ (x / 8) 10000, rest)
unfolding read_int le_bytes
read_int_four x rest h k =
    let whole = read_le-le_bytes 4 x rest (omega arith) in ground (arith, whole)

-- The length and sign of a long integer always take the one-byte format.
write_int_by_short :
    (write : ℤ → List ℕ) (n s : ℕ)
    → n ≤ 8
    → s ≤ 1
    → write_int_by write (pos (n * 2 + s)) ≡ (((n * 2 + s + 10) * 2) ∷ [])
unfolding write_int_by
write_int_by_short write n s hn hs = ground arith

sign_bit-le : (i : ℤ) → sign_bit i ≤ 1
sign_bit-le (pos n) = omega arith
sign_bit-le (negsuc n) = omega arith

magnitude-lt : (i : ℤ) → IsI64 i → magnitude i < 2 ^ 64
magnitude-lt (pos n) h = omega arith
magnitude-lt (negsuc n) h = omega arith

signed-magnitude : (i : ℤ) → signed (sign_bit i) (magnitude i) ≡ i
signed-magnitude (pos n) = refl
signed-magnitude (negsuc n) = ground arith

read_long_lem :
    (i : ℤ) (n : ℕ) (rest : List ℕ)
    → n ≤ 8
    → shift n (magnitude i) ≡ 0
    → read_int (
        long_int_trailer ∷ ((((n * 2 + sign_bit i + 10) * 2) ∷ []) ++ le_bytes n (magnitude i))
        ++ rest)
      ≡ some (i, rest)
unfolding read_int read_long
read_long_lem i n rest h s =
    let s1 = sign_bit-le i in
    let len : ((n * 2 + sign_bit i + 10) * 2 / 2 - 10) / 2 ≡ n = omega arith in
    let sign : ((n * 2 + sign_bit i + 10) * 2 / 2 - 10) % 2 ≡ sign_bit i = omega arith in
    rw (len, sign, read_le-le_bytes n (magnitude i) rest s, signed-magnitude i)

read_int-long_format :
    (write : ℤ → List ℕ) (i : ℤ) (rest : List ℕ)
    → IsI64 i
    → read_int (long_format (write_int_by write) i ++ rest) ≡ some (i, rest)
unfolding long_format
read_int-long_format write i rest h =
    let m = magnitude i in
    let (fits, short, some_byte) =
      significant_holds 8 8 m (omega arith) (omega arith) (shift-eight m (magnitude-lt i h)) in
    let n = significant (le_bytes 8 m) 8 in
    rw (write_int_by_short write n (sign_bit i) short (sign_bit-le i), first-le_bytes 8 n m short)
      (read_long_lem i n rest short fits)

read_int-write_int_two :
    (i : ℤ) (rest : List ℕ)
    → in_range (negsuc 99) (pos 16283) i ≡ true
    → read_int (le_bytes 2 ((above 100 i * 4 + 1) % 2 ^ 16) ++ rest) ≡ some (i, rest)
read_int-write_int_two (pos n) rest h =
    read_int_two _ rest (omega arith) (ground arith) ∙ ground arith
read_int-write_int_two (negsuc n) rest h =
    read_int_two _ rest (omega arith) (ground arith) ∙ ground arith

read_int-write_int_four :
    (i : ℤ) (rest : List ℕ)
    → in_range (negsuc 9999) (pos 536860911) i ≡ true
    → read_int (le_bytes 4 ((above 10000 i * 8 + 3) % 2 ^ 32) ++ rest) ≡ some (i, rest)
read_int-write_int_four (pos n) rest h =
    read_int_four _ rest (omega arith) (ground arith) ∙ ground arith
read_int-write_int_four (negsuc n) rest h =
    read_int_four _ rest (omega arith) (ground arith) ∙ ground arith

-- Every i64 is read back from the bytes that `write_int` appends for it, whatever follows them.
pub read_int-write_int :
    (i : ℤ) (rest : List ℕ) → IsI64 i → read_int (write_int i ++ rest) ≡ some (i, rest)
unfolding write_int write_int_by
read_int-write_int i rest h = elim (Bool-cases (in_range (negsuc 9) (pos 117) i)) [
  | inl short ↦ rw short (read_int_short i rest short)
  | inr a ↦ rw a (elim (Bool-cases (in_range (negsuc 99) (pos 16283) i)) [
    | inl two ↦ rw two (read_int-write_int_two i rest two)
    | inr b ↦ rw b (elim (Bool-cases (in_range (negsuc 9999) (pos 536860911) i)) [
      | inl four ↦ rw four (read_int-write_int_four i rest four)
      | inr c ↦ rw c (read_int-long_format (λ _. []) i rest h)
    ])
  ])
]

-- On every i64, `write_int` meets the recursion of the source, which calls `write_int` for the
-- length and the sign.
pub write_int-unfold : (i : ℤ) → IsI64 i → write_int i ≡ write_int_by write_int i
unfolding write_int write_int_by long_format
write_int-unfold i h =
    let m = magnitude i in
    let (fits, short, some_byte) =
      significant_holds 8 8 m (omega arith) (omega arith) (shift-eight m (magnitude-lt i h)) in
    let n = significant (le_bytes 8 m) 8 in
    rw (
      write_int_by_short (λ _. []) n (sign_bit i) short (sign_bit-le i),
      write_int_by_short (write_int_by (λ _. [])) n (sign_bit i) short (sign_bit-le i),
    )

pub read_tagged_int-write_tagged_int :
    (i : ℤ) (rest : List ℕ)
    → IsI64 i
    → read_tagged_int (write_tagged_int i ++ rest) ≡ some (i, rest)
unfolding read_tagged_int write_tagged_int
read_tagged_int-write_tagged_int i rest h = read_int-write_int i rest h

pub read_bool-write_bool :
    (b : Bool) (rest : List ℕ) → read_bool (write_bool b ++ rest) ≡ some (b, rest)
unfolding read_bool write_bool
read_bool-write_bool true rest = refl
read_bool-write_bool false rest = refl

split-append : (xs rest : List ℕ) → split (length xs) (xs ++ rest) ≡ some (xs, rest)
unfolding split
split-append [] rest = refl
split-append (x ∷ xs) rest = rw (split-append xs rest)

pub read_count-write_usize :
    (n : ℕ) (rest : List ℕ) → n < 2 ^ 63 → read_count (write_usize n ++ rest) ≡ some (n, rest)
unfolding read_count write_usize
read_count-write_usize n rest h = rw (read_int-write_int (pos n) rest (omega arith))

-- A text of fewer than 2 ^ 63 bytes is read back from what `write_bytes` appends, whatever follows.
pub read_bytes-write_bytes :
    (b rest : List ℕ) → length b < 2 ^ 63 → read_bytes (write_bytes b ++ rest) ≡ some (b, rest)
unfolding read_bytes write_bytes
read_bytes-write_bytes b rest h =
    rw
      (
        append_assoc (write_usize (length b)) b rest,
        read_count-write_usize (length b) (b ++ rest) h,
      )
      (split-append b rest)
