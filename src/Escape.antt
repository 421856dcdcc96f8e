-- ===== src/Escape.antt =====
-- src/serialize_ast.rs: `serialize_bytes_to_escaped_string`, the text of a bytes literal.
pub mod Unescape
use ast_serialize.Common.{
  ℕ, ◌+◌, ◌/◌, ◌%◌, Bool, true, false, ◌&&◌, List, [], ◌∷◌, ◌++◌, ltb, leb, ◌==◌, if◌then◌else◌,
  any,
}

abbrev pub single_quote : ℕ
single_quote = 39

abbrev pub double_quote : ℕ
double_quote = 34

abbrev pub backslash : ℕ
backslash = 92

-- `b"0123456789abcdef"[n]`
abbrev pub hex_digit : ℕ → ℕ
hex_digit n = if ltb n 10 then n + 48 else n + 87

abbrev pub contains : ℕ → List (List ℕ) → Bool
contains b parts = any (any (λ c. c == b)) parts

-- The body of the inner loop of the second pass.
unfoldable pub escape_byte : Bool → ℕ → List ℕ
escape_byte escape_quote b =
    if b == 13
    then backslash ∷ 114 ∷ []
    else if b == 10
    then backslash ∷ 110 ∷ []
    else if b == 9
    then backslash ∷ 116 ∷ []
    else if b == backslash
    then backslash ∷ backslash ∷ []
    else if b == single_quote && escape_quote
    then backslash ∷ single_quote ∷ []
    else if leb 32 b && leb b 126
    then b ∷ []
    else backslash ∷ 120 ∷ hex_digit (b / 16) ∷ hex_digit (b % 16) ∷ []

unfoldable pub escape_part : Bool → List ℕ → List ℕ
unfolding escape_byte
escape_part escape_quote [] = []
escape_part escape_quote (b ∷ bs) = escape_byte escape_quote b ++ escape_part escape_quote bs

unfoldable pub escape_parts : Bool → List (List ℕ) → List ℕ
unfolding escape_part
escape_parts escape_quote [] = []
escape_parts escape_quote (p ∷ ps) = escape_part escape_quote p ++ escape_parts escape_quote ps

unfoldable pub serialize_bytes_to_escaped_string : List (List ℕ) → List ℕ
unfolding escape_parts
serialize_bytes_to_escaped_string parts =
    escape_parts (contains single_quote parts && contains double_quote parts) parts
