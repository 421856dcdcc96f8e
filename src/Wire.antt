-- ===== src/Wire.antt =====
-- src/serialize_ast.rs: the primitive writes of the serializer, as the bytes that each appends.
-- `Reader` reads them back, the way a consumer of the format does.
pub mod Reader
pub mod Ints
pub mod RoundTrip
use ast_serialize.Common.{
  ℕ, zero, suc, ◌+◌, ◌-◌, ◌*◌, ◌/◌, ◌%◌, ◌^◌, Bool, true, false, ◌&&◌, List, [], ◌∷◌, ◌++◌, leb,
  ltb, ◌==◌, if◌then◌else◌, length,
}
use ast_serialize.Common.Int.{ℤ, pos, negsuc, leb_ℤ, ltb_ℤ}

abbrev pub tag_literal_false : ℕ
tag_literal_false = 0

abbrev pub tag_literal_true : ℕ
tag_literal_true = 1

abbrev pub tag_literal_none : ℕ
tag_literal_none = 2

abbrev pub tag_literal_int : ℕ
tag_literal_int = 3

abbrev pub tag_literal_str : ℕ
tag_literal_str = 4

abbrev pub tag_list_gen : ℕ
tag_list_gen = 20

abbrev pub tag_location : ℕ
tag_location = 152

abbrev pub tag_end : ℕ
tag_end = 255

abbrev pub long_int_trailer : ℕ
long_int_trailer = 15

-- `i - MIN` for a bound `MIN` = -k that is at most `i`.
abbrev pub above : ℕ → ℤ → ℕ
above k (pos n) = n + k
above k (negsuc n) = k - suc n

-- `lo <= i && i <= hi` for the bounds of a format.
abbrev pub in_range : ℤ → ℤ → ℤ → Bool
in_range lo hi i = leb_ℤ lo i && leb_ℤ i hi

-- `x.to_le_bytes()` of a word of `k` bytes.
unfoldable pub le_bytes : ℕ → ℕ → List ℕ
le_bytes zero x = []
le_bytes (suc k) x = (x % 256) ∷ le_bytes k (x / 256)

abbrev pub byte_at : List ℕ → ℕ → ℕ
byte_at [] i = 0
byte_at (b ∷ bs) zero = b
byte_at (b ∷ bs) (suc i) = byte_at bs i

-- `while n > 1 && bytes[n - 1] == 0 { n -= 1; }`
unfoldable pub significant : List ℕ → ℕ → ℕ
significant bytes zero = zero
significant bytes (suc zero) = suc zero
significant bytes (suc (suc n)) =
    let shorter = significant bytes (suc n) in
    if byte_at bytes (suc n) == 0 then shorter else suc (suc n)

abbrev pub first : ℕ → List ℕ → List ℕ
first zero bs = []
first (suc n) [] = []
first (suc n) (b ∷ bs) = b ∷ first n bs

-- `wrapping_abs() as u64`, and the sign bit.
abbrev pub magnitude : ℤ → ℕ
magnitude (pos n) = n
magnitude (negsuc n) = suc n

abbrev pub sign_bit : ℤ → ℕ
sign_bit (pos n) = 0
sign_bit (negsuc n) = 1

-- The variable-length format, given the call of `write_int` for the length and the sign.
unfoldable pub long_format : (ℤ → List ℕ) → ℤ → List ℕ
unfolding le_bytes significant
long_format write i =
    let bytes = le_bytes 8 (magnitude i) in
    let n = significant bytes 8 in
    long_int_trailer ∷ (write (pos (n * 2 + sign_bit i)) ++ first n bytes)

-- `write_int`, given its own recursive call. The numbers that the shifts leave room for are added
-- where the source joins them by `|`.
unfoldable pub write_int_by : (ℤ → List ℕ) → ℤ → List ℕ
unfolding long_format le_bytes
write_int_by write i =
    if in_range (negsuc 9) (pos 117) i
    then ((above 10 i * 2) % 2 ^ 8) ∷ []
    else if in_range (negsuc 99) (pos 16283) i
    then le_bytes 2 ((above 100 i * 4 + 1) % 2 ^ 16)
    else if in_range (negsuc 9999) (pos 536860911) i
    then le_bytes 4 ((above 10000 i * 8 + 3) % 2 ^ 32)
    else long_format write i

-- The recursive call is made on a number below 18, and makes none itself.
unfoldable pub write_int : ℤ → List ℕ
unfolding write_int_by
write_int i = write_int_by (write_int_by (λ _. [])) i

unfoldable pub write_tagged_int : ℤ → List ℕ
unfolding write_int
write_tagged_int i = tag_literal_int ∷ write_int i

unfoldable pub write_usize : ℕ → List ℕ
unfolding write_int
write_usize i = write_int (pos i)

unfoldable pub write_bool : Bool → List ℕ
write_bool b = (if b then tag_literal_true else tag_literal_false) ∷ []

unfoldable pub write_bytes : List ℕ → List ℕ
unfolding write_usize
write_bytes b = tag_literal_str ∷ (write_usize (length b) ++ b)
