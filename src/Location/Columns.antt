-- ===== src/Location/Columns.antt =====
-- How `convert_column_to_codepoint` maps columns on lines with characters of several bytes.
use ast_serialize.Common.{
  Bool-cases, inl, inr, ℕ, zero, suc, ◌+◌, ◌-◌, ◌≤◌, ◌<◌, ◌≡◌, refl, arith, Bool, true, false, not,
  ◌&&◌, List, [], ◌∷◌, Option, none, some, ◌>>=◌, ltb, if◌then◌else◌, length, get_elem?,
}
use ast_serialize.Common.Int.{pos, negsuc, sub_ℕ}
use ast_serialize.Ast.Expr.{TextRange}
use ast_serialize.Location.{
  Source, is_continuation, is_char_boundary, walk_back, floor_char_boundary, drop, chars_in, flag,
  convert_column_to_codepoint, Location, located, location_of,
}

walk_back_at : (s : List ℕ) (n : ℕ) → is_char_boundary s n ≡ true → walk_back s n ≡ n
unfolding walk_back
walk_back_at s zero h = refl
walk_back_at s (suc n) h = rw h

walk_back-le : (s : List ℕ) (n : ℕ) → walk_back s n ≤ n
unfolding walk_back
walk_back-le s zero = omega arith
walk_back-le s (suc n) = ground (arith, walk_back-le s n)

-- The walk ends on a boundary, and passes none.
pub walk_back-boundary : (s : List ℕ) (n : ℕ) → is_char_boundary s (walk_back s n) ≡ true
unfolding walk_back
walk_back-boundary s zero = unfold is_char_boundary in refl
walk_back-boundary s (suc n) = ground (arith, walk_back-boundary s n)

walk_back_greatest :
    (s : List ℕ) (n m : ℕ) → m ≤ n → is_char_boundary s m ≡ true → m ≤ walk_back s n
unfolding walk_back
walk_back_greatest s zero m h b = omega arith
walk_back_greatest s (suc n) m h b = ground (arith, walk_back_greatest s n m)

floor_char_boundary-le :
    (s : List ℕ) (n : ℕ) → (floor_char_boundary s n ≤ n) × (floor_char_boundary s n ≤ length s)
unfolding floor_char_boundary
floor_char_boundary-le s n = ground (arith, walk_back-le s n, walk_back-le s (length s))

floor-boundary :
    (s : List ℕ) (target : ℕ) → is_char_boundary s (floor_char_boundary s target) ≡ true
unfolding floor_char_boundary
floor-boundary s target = walk_back-boundary s (if ltb (length s) target then length s else target)

floor-greatest :
    (s : List ℕ) (target m : ℕ)
    → is_char_boundary s m ≡ true
    → m ≤ target
    → m ≤ length s
    → m ≤ floor_char_boundary s target
unfolding floor_char_boundary
floor-greatest s target m b h k =
    walk_back_greatest s (if ltb (length s) target then length s else target) m (ground arith) b

-- `floor_char_boundary` gives a character boundary that is not behind the target, and every such
-- boundary `m` of the text is at most it.
pub floor_char_boundary_greatest :
    (s : List ℕ) (target m : ℕ)
    → is_char_boundary s m ≡ true
    → m ≤ target
    → m ≤ length s
    → (is_char_boundary s (floor_char_boundary s target) ≡ true)
      × (floor_char_boundary s target ≤ target)
      × (m ≤ floor_char_boundary s target)
floor_char_boundary_greatest s target m b h k =
    (floor-boundary s target, (floor_char_boundary-le s target).0, floor-greatest s target m b h k)

get_elem?-lt {ℓ} :
    {A : Type ℓ} (xs : List A) (n : ℕ) {x : A} → get_elem? xs n ≡ some x → n < length xs
get_elem?-lt [] n h = cc
get_elem?-lt (y ∷ xs) zero h = omega arith
get_elem?-lt (y ∷ xs) (suc n) h = omega (arith, get_elem?-lt xs n h)

-- A walk back from inside a character.
walk_back_inside :
    (s : List ℕ) (n b : ℕ)
    → is_char_boundary s n ≡ true
    → get_elem? s (suc n) ≡ some b
    → is_continuation b ≡ true
    → walk_back s (suc n) ≡ n
unfolding walk_back
walk_back_inside s n b start second c =
    let inside : is_char_boundary s (suc n) ≡ false =
      unfold is_char_boundary in rw second (ground arith) in
    rw inside (walk_back_at s n start)

clamped : (len n : ℕ) → n ≤ len → (if ltb len n then len else n) ≡ n
clamped len n h = ground arith

-- On a line whose first character has several bytes, column 1 is converted to column 0.
convert_column-multibyte :
    (s : Source) (line b : ℕ)
    → flag (get_elem? s.lines_with_non_ascii (line - 1)) ≡ true
    → is_char_boundary s.text (s.line_index.line_start (line - 1)) ≡ true
    → get_elem? s.text (suc (s.line_index.line_start (line - 1))) ≡ some b
    → is_continuation b ≡ true
    → convert_column_to_codepoint s line 1 ≡ some 0
unfolding convert_column_to_codepoint
convert_column-multibyte s line b f start second c =
    let n = s.line_index.line_start (line - 1) in
    let inside = get_elem?-lt s.text (suc n) second in
    let one : n + 1 ≡ suc n = omega arith in
    let none_left : n - n ≡ 0 = omega arith in
    rw
      (
        f,
        one,
        clamped (length s.text) (suc n) (omega arith),
        clamped (length s.text) (suc n) (omega arith),
        walk_back_inside s.text n b start second c,
        none_left,
      )
      (ground arith)

location_column :
    (o : Option ℕ) (p : Option ℕ) (f : ℕ → ℕ → Location) (l : Location)
    → o ≡ some 0
    → ((x y : ℕ) → (f x y).column ≡ sub_ℕ x 1)
    → (o >>= λ x. p >>= λ y. some (f x y)) ≡ some l
    → l.column ≡ negsuc 0
location_column none p f l h k e = cc
location_column (some x) none f l h k e = cc
location_column (some x) (some y) f l h k e = ground (arith, k x y)

-- In a file that is not all ASCII, with no location override, a node that stands at column 1 of a
-- line which begins with a character of several bytes is written with the column -1.
pub location_of-multibyte_start :
    (s : Source) (range : TextRange) (line b : ℕ) (l : Location)
    → s.is_all_ascii ≡ false
    → s.location_override ≡ none
    → s.line_index.line_column range.start ≡ (line, 1)
    → flag (get_elem? s.lines_with_non_ascii (line - 1)) ≡ true
    → is_char_boundary s.text (s.line_index.line_start (line - 1)) ≡ true
    → get_elem? s.text (suc (s.line_index.line_start (line - 1))) ≡ some b
    → is_continuation b ≡ true
    → location_of s range ≡ some l
    → l.column ≡ negsuc 0
unfolding location_of located
location_of-multibyte_start s range line b l ascii over start f boundary second c h =
    let (end_line, end_bytes) = s.line_index.line_column range.end in
    location_column (convert_column_to_codepoint s line 1)
      (convert_column_to_codepoint s end_line end_bytes)
      (λ x y. record {
        line = pos line;
        column = sub_ℕ x 1;
        line_delta = sub_ℕ end_line line;
        column_delta = sub_ℕ y x;
      })
      l (convert_column-multibyte s line b f boundary second c) (λ x y. refl)
      (rw (over, ascii, start) at h)

-- The first `n` bytes are there, and each begins a character.
abbrev pub plain : ℕ → List ℕ → Bool
plain zero bs = true
plain (suc n) [] = false
plain (suc n) (b ∷ bs) = not (is_continuation b) && plain n bs

chars_in-plain : (n : ℕ) (bs : List ℕ) → plain n bs ≡ true → chars_in n bs ≡ n
unfolding chars_in
chars_in-plain zero bs h = refl
chars_in-plain (suc n) [] h = cc
chars_in-plain (suc n) (b ∷ bs) h = ground (arith, chars_in-plain n bs)

-- A column is converted to itself where the bytes of its line up to it are characters of one byte
-- each, up to a character boundary of the text.
pub convert_column_to_codepoint-plain :
    (s : Source) (line column : ℕ)
    → s.line_index.line_start (line - 1) + column ≤ length s.text
    → is_char_boundary s.text (s.line_index.line_start (line - 1) + column) ≡ true
    → plain column (drop (s.line_index.line_start (line - 1)) s.text) ≡ true
    → convert_column_to_codepoint s line column ≡ some column
unfolding convert_column_to_codepoint
convert_column_to_codepoint-plain s line column fits boundary p =
    let start = s.line_index.line_start (line - 1) in
    elim (Bool-cases (flag (get_elem? s.lines_with_non_ascii (line - 1)))) [
      | inr f ↦ rw f refl
      | inl f ↦
          let width : (start + column) - start ≡ column = omega arith in
          rw
            (
              f,
              clamped (length s.text) (start + column) fits,
              clamped (length s.text) (start + column) fits,
              walk_back_at s.text (start + column) boundary,
              width,
              chars_in-plain column (drop start s.text) p,
            )
            (ground arith)
    ]
