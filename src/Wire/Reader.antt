-- ===== src/Wire/Reader.antt =====
-- A reader of the format: what a consumer must do to get the numbers, texts and flags back.
use ast_serialize.Common.{
  ℕ, zero, suc, ◌+◌, ◌-◌, ◌*◌, ◌/◌, ◌%◌, List, [], ◌∷◌, Option, none, some, ◌>>=◌, ◌==◌,
  if◌then◌else◌, Bool, true, false,
}
use ast_serialize.Common.Int.{ℤ, pos, negsuc, sub_ℕ}
use ast_serialize.Wire.{
  long_int_trailer, tag_literal_false, tag_literal_true, tag_literal_int, tag_literal_str,
}

-- What a reader makes of the bytes in front of it: a value and the bytes left, or a failure.
abbrev pub Read : Type 0 → Type 0
Read A = List ℕ → Option (A × List ℕ)

abbrev pub next : Read ℕ
next [] = none
next (b ∷ bs) = some (b, bs)

abbrev pub expect : ℕ → Read (Unit {0})
expect b [] = none
expect b (c ∷ bs) = if c == b then some (tt, bs) else none

-- `k` bytes as a number, lowest first.
unfoldable pub read_le : ℕ → Read ℕ
read_le zero bs = some (0, bs)
read_le (suc k) [] = none
read_le (suc k) (b ∷ bs) = do (high, rest) ← read_le k bs; some (b + 256 * high, rest)

abbrev pub signed : ℕ → ℕ → ℤ
signed zero m = pos m
signed (suc _) m = sub_ℕ 0 m

-- Length and sign stand in one number of the one-byte format.
unfoldable pub read_long : Read ℤ
unfolding read_le
read_long bs = do
  (b, rest) ← next bs
  (m, rest') ← read_le ((b / 2 - 10) / 2) rest
  some (signed ((b / 2 - 10) % 2) m, rest')

unfoldable pub read_int : Read ℤ
unfolding read_le read_long
read_int [] = none
read_int (b ∷ bs) =
    if b % 2 == 0
    then some (sub_ℕ (b / 2) 10, bs)
    else if b % 4 == 1
    then (do (x, rest) ← read_le 2 (b ∷ bs); some (sub_ℕ (x / 4) 100, rest))
    else if b % 8 == 3
    then (do (x, rest) ← read_le 4 (b ∷ bs); some (sub_ℕ (x / 8) 10000, rest))
    else if b == long_int_trailer
    then read_long bs
    else none

unfoldable pub read_tagged_int : Read ℤ
unfolding read_int
read_tagged_int bs = do (t, rest) ← expect tag_literal_int bs; read_int rest

unfoldable pub read_bool : Read Bool
read_bool [] = none
read_bool (b ∷ bs) =
    if b == tag_literal_true
    then some (true, bs)
    else if b == tag_literal_false
    then some (false, bs)
    else none

unfoldable pub split : ℕ → Read (List ℕ)
split zero bs = some ([], bs)
split (suc n) [] = none
split (suc n) (b ∷ bs) = do (taken, rest) ← split n bs; some (b ∷ taken, rest)

abbrev pub count_of : ℤ → Option ℕ
count_of (pos n) = some n
count_of (negsuc n) = none

unfoldable pub read_count : Read ℕ
unfolding read_int
read_count bs = do (i, rest) ← read_int bs; n ← count_of i; some (n, rest)

unfoldable pub read_bytes : Read (List ℕ)
unfolding read_count split
read_bytes bs = do
  (t, rest) ← expect tag_literal_str bs
  (n, rest') ← read_count rest
  split n rest'
