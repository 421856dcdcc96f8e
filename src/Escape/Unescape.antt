-- ===== src/Escape/Unescape.antt =====
-- A reader of escaped bytes.
use mathlib.Core.List.{append_assoc}
use ast_serialize.Common.{
  ℕ, zero, suc, ◌+◌, ◌-◌, ◌*◌, ◌<◌, Bool, true, ◌&&◌, List, [], ◌∷◌, ◌++◌, Option, none, some,
  ◌>>=◌, ◌≡◌, refl, ap, sym, ◌∙◌, arith, leb, ◌==◌, if◌then◌else◌, all, All, length, and_true,
}
use ast_serialize.Escape.{
  single_quote, double_quote, backslash, hex_digit, contains, escape_byte, escape_part,
  escape_parts, serialize_bytes_to_escaped_string,
}

abbrev pub hex_value : ℕ → ℕ
hex_value c = if leb c 57 then c - 48 else c - 87

abbrev pub hex_pair : List ℕ → Option (ℕ × List ℕ)
hex_pair (h ∷ l ∷ s) = some (hex_value h * 16 + hex_value l, s)
hex_pair _ = none

abbrev pub after_backslash : List ℕ → Option (ℕ × List ℕ)
after_backslash [] = none
after_backslash (c ∷ s) =
    if c == 114
    then some (13, s)
    else if c == 110
    then some (10, s)
    else if c == 116
    then some (9, s)
    else if c == 120
    then hex_pair s
    else some (c, s)

-- One byte from the front of an escaped text, as Python reads it.
unfoldable pub next_byte : List ℕ → Option (ℕ × List ℕ)
next_byte [] = none
next_byte (b ∷ s) = if b == backslash then after_backslash s else some (b, s)

-- `n` bytes.
unfoldable pub unescape : ℕ → List ℕ → Option (List ℕ × List ℕ)
unfolding next_byte
unescape zero s = some ([], s)
unescape (suc n) s = do (b, rest) ← next_byte s; (bs, rest') ← unescape n rest; some (b ∷ bs, rest')

hex_value-hex_digit : (n : ℕ) → n < 16 → hex_value (hex_digit n) ≡ n
hex_value-hex_digit n h = ground arith

next_byte-escape_byte :
    (q : Bool) (b : ℕ) (rest : List ℕ)
    → b < 256
    → next_byte (escape_byte q b ++ rest) ≡ some (b, rest)
unfolding next_byte escape_byte
next_byte-escape_byte q b rest h = ground arith

abbrev pub IsByte : ℕ → Type 0
IsByte b = b < 256

abbrev pub flatten : List (List ℕ) → List ℕ
flatten [] = []
flatten (p ∷ ps) = p ++ flatten ps

escape_part_append :
    (q : Bool) (xs ys : List ℕ) → escape_part q (xs ++ ys) ≡ (escape_part q xs ++ escape_part q ys)
unfolding escape_part
escape_part_append q [] ys = refl
escape_part_append q (x ∷ xs) ys =
    rw (escape_part_append q xs ys)
      (sym (append_assoc (escape_byte q x) (escape_part q xs) (escape_part q ys)))

escape_parts-flatten :
    (q : Bool) (ps : List (List ℕ)) → escape_parts q ps ≡ escape_part q (flatten ps)
unfolding escape_parts
escape_parts-flatten q [] = refl
escape_parts-flatten q (p ∷ ps) =
    ap (λ s. escape_part q p ++ s) (escape_parts-flatten q ps)
    ∙ sym (escape_part_append q p (flatten ps))

unescape-escape_part :
    (q : Bool) (bs rest : List ℕ)
    → All IsByte bs
    → unescape (length bs) (escape_part q bs ++ rest) ≡ some (bs, rest)
unfolding unescape escape_part
unescape-escape_part q [] rest h = refl
unescape-escape_part q (b ∷ bs) rest (hb, hs) = rw (
  append_assoc (escape_byte q b) (escape_part q bs) rest,
  next_byte-escape_byte q b (escape_part q bs ++ rest) hb,
  unescape-escape_part q bs rest hs,
)

-- The bytes of a literal, its parts joined, are read back from its escaped text, whatever follows.
pub unescape-serialize_bytes_to_escaped_string :
    (parts : List (List ℕ)) (rest : List ℕ)
    → All IsByte (flatten parts)
    → unescape (length (flatten parts)) (serialize_bytes_to_escaped_string parts ++ rest)
      ≡ some (flatten parts, rest)
unfolding serialize_bytes_to_escaped_string
unescape-serialize_bytes_to_escaped_string parts rest h =
    let q = contains single_quote parts && contains double_quote parts in
    ap (λ s. unescape (length (flatten parts)) (s ++ rest)) (escape_parts-flatten q parts)
    ∙ unescape-escape_part q (flatten parts) rest h

abbrev pub is_printable : ℕ → Bool
is_printable c = leb 32 c && leb c 126

all_append :
    (xs ys : List ℕ)
    → all is_printable xs ≡ true
    → all is_printable ys ≡ true
    → all is_printable (xs ++ ys) ≡ true
all_append [] ys h k = k
all_append (x ∷ xs) ys h k =
    let (first, later) = and_true (is_printable x) (all is_printable xs) h in
    rw first (all_append xs ys later k)

escape_byte-printable : (q : Bool) (b : ℕ) → b < 256 → all is_printable (escape_byte q b) ≡ true
unfolding escape_byte
escape_byte-printable q b h = ground arith

escape_part-printable :
    (q : Bool) (bs : List ℕ) → All IsByte bs → all is_printable (escape_part q bs) ≡ true
unfolding escape_part
escape_part-printable q [] h = refl
escape_part-printable q (b ∷ bs) (hb, hs) =
    all_append (escape_byte q b) (escape_part q bs) (escape_byte-printable q b hb)
      (escape_part-printable q bs hs)

-- The escaped text of bytes is printable ASCII.
pub serialize_bytes_to_escaped_string-printable :
    (parts : List (List ℕ))
    → All IsByte (flatten parts)
    → all is_printable (serialize_bytes_to_escaped_string parts) ≡ true
unfolding serialize_bytes_to_escaped_string
serialize_bytes_to_escaped_string-printable parts h =
    let q = contains single_quote parts && contains double_quote parts in
    ap (all is_printable) (escape_parts-flatten q parts) ∙ escape_part-printable q (flatten parts) h
