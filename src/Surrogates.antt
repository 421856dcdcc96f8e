-- ===== src/Surrogates.antt =====
-- src/serialize_ast.rs: the scan of a literal for Unicode surrogates. `none` is a panic: an escape
-- that the parser has let pass is cut off or not hexadecimal.
pub mod Found
pub mod Total
use ast_serialize.Common.{
  ℕ, zero, suc, ◌+◌, ◌-◌, ◌*◌, ◌^◌, Bool, true, false, not, ◌&&◌, ◌||◌, List, [], ◌∷◌, Option, none,
  some, ◌>>=◌, leb, ◌==◌, if◌then◌else◌, Text, length, any,
}

-- `c.to_digit(16)`
unfoldable pub to_digit : ℕ → Option ℕ
to_digit c =
    if leb 48 c && leb c 57
    then some (c - 48)
    else if leb 97 c && leb c 102
    then some (c - 87)
    else if leb 65 c && leb c 70
    then some (c - 55)
    else none

-- `parse_int`, on the digits that are left, with the text behind them. The sum is below 16 ^ size, so
-- that a u32 holds it.
unfoldable pub parse_int : Text → ℕ → Option (ℕ × Text)
unfolding to_digit
parse_int s zero = some (0, s)
parse_int [] (suc size) = none
parse_int (c ∷ s) (suc size) = do
  d ← to_digit c
  (result, rest) ← parse_int s size
  some (d * 16 ^ size + result, rest)

unfoldable pub is_surrogate : ℕ → Bool
is_surrogate ord = leb 55296 ord && leb ord 57343

-- What an escape tells: it is a surrogate, or the scan goes on behind it.
abbrev pub escaped : Option (ℕ × Text) → Option (Bool × Text)
escaped none = none
escaped (some (ord, rest)) = some (is_surrogate ord, rest)

-- The code behind a backslash.
unfoldable pub after_backslash : Text → Option (Bool × Text)
unfolding parse_int is_surrogate
after_backslash [] = some (false, [])
after_backslash (next_char ∷ s) =
    if next_char == 117
    then escaped (parse_int s 4)
    else if next_char == 85
    then escaped (parse_int s 8)
    else some (false, s)

-- The loop. Each round takes at least one character.
unfoldable pub scan : ℕ → Text → Option Bool
unfolding is_surrogate after_backslash
scan zero s = none
scan (suc fuel) [] = some false
scan (suc fuel) (c ∷ s) = elim (is_surrogate c) [
  | true ↦ some true
  | false ↦ elim (c == 92) [
    | true ↦ elim (after_backslash s) [
      | some (found, rest) ↦ elim found [ true ↦ some true | false ↦ scan fuel rest ]
      | none ↦ none
    ]
    | false ↦ scan fuel s
  ]
]

-- `check_surrogate_codepoint`: the new value of `has_surrogates`.
unfoldable pub check_surrogate_codepoint :
    (has_surrogates : Bool) → (parsed_value source : Text) → Option Bool
unfolding scan
check_surrogate_codepoint has_surrogates parsed_value source =
    if any (λ c. c == 65533) parsed_value && not has_surrogates
    then scan (suc (length source)) source
    else some has_surrogates
