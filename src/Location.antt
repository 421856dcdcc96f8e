-- ===== src/Location.antt =====
-- src/serialize_ast.rs: source positions, as `write_location` puts them into the output.
-- `LineIndex` is crates/ruff_source_file, a library that the code calls: its two functions are
-- arguments here. A text is the list of its UTF-8 bytes, and `none` is a panic.
pub mod Columns
pub mod Read
use ast_serialize.Common.{
  ℕ, zero, suc, ◌+◌, ◌-◌, Bool, true, false, not, ◌&&◌, ◌||◌, List, [], ◌∷◌, ◌++◌, Option, none,
  some, ◌>>=◌, ltb, leb, ◌==◌, if◌then◌else◌, length, get_elem?,
}
use ast_serialize.Common.Int.{ℤ, pos, sub_ℕ}
use ast_serialize.Ast.Expr.{TextRange}
use ast_serialize.Wire.{tag_location, write_int}

-- `line_column` takes a byte offset to a line and a column, both from 1; `line_start` takes a line,
-- from 0, to a byte offset.
pub record LineIndex : Type 0 where
  pub line_column : ℕ → ℕ × ℕ
  pub line_start : ℕ → ℕ

-- The fields of `Serializer` that positions are computed from. They never change.
pub record Source : Type 0 where
  pub line_index : LineIndex
  pub text : List ℕ
  pub is_all_ascii : Bool
  pub lines_with_non_ascii : List Bool
  pub location_override : Option (ℕ × ℕ × ℕ × ℕ)

-- A byte that is not the first of its character.
abbrev pub is_continuation : ℕ → Bool
is_continuation b = leb 128 b && ltb b 192

-- `s.is_char_boundary(target)`
abbrev pub boundary_at : Option ℕ → ℕ → ℕ → Bool
boundary_at (some b) target len = not (is_continuation b)
boundary_at none target len = target == len

unfoldable pub is_char_boundary : List ℕ → ℕ → Bool
is_char_boundary s target = target == 0 || boundary_at (get_elem? s target) target (length s)

-- The loop `while target > 0 && !s.is_char_boundary(target) { target -= 1; }`
unfoldable pub walk_back : List ℕ → ℕ → ℕ
unfolding is_char_boundary
walk_back s zero = zero
walk_back s (suc target) =
    let before = walk_back s target in
    if is_char_boundary s (suc target) then suc target else before

unfoldable pub floor_char_boundary : List ℕ → ℕ → ℕ
unfolding walk_back
floor_char_boundary s target = walk_back s (if ltb (length s) target then length s else target)

abbrev pub drop : ℕ → List ℕ → List ℕ
drop zero bs = bs
drop (suc n) [] = []
drop (suc n) (b ∷ bs) = drop n bs

-- `chars().count()` of the first `n` bytes: the bytes that begin a character.
unfoldable pub chars_in : ℕ → List ℕ → ℕ
chars_in zero bs = 0
chars_in (suc n) [] = 0
chars_in (suc n) (b ∷ bs) = if is_continuation b then chars_in n bs else suc (chars_in n bs)

abbrev pub flag : Option Bool → Bool
flag none = false
flag (some b) = b

-- `text[start..end].chars().count()`; a range that ends before it starts is a panic.
unfoldable pub count_between : List ℕ → ℕ → ℕ → Option ℕ
unfolding chars_in
count_between text start end =
    if ltb end start then none else some (chars_in (end - start) (drop start text))

unfoldable pub convert_column_to_codepoint : Source → ℕ → ℕ → Option ℕ
unfolding count_between floor_char_boundary
convert_column_to_codepoint s line_number byte_column =
    let line_idx = line_number - 1 in
    if flag (get_elem? s.lines_with_non_ascii line_idx)
    then (let line_start_byte = s.line_index.line_start line_idx in
        let target_byte = line_start_byte + byte_column in
        let safe_target =
          (if ltb (length s.text) target_byte then length s.text else target_byte) in
        count_between s.text line_start_byte (floor_char_boundary s.text safe_target))
    else some byte_column

-- The four numbers behind the location tag.
pub record Location : Type 0 where
  pub line : ℤ
  pub column : ℤ
  pub line_delta : ℤ
  pub column_delta : ℤ

abbrev pub overridden : ℕ × ℕ × ℕ × ℕ → Location
overridden (line, column, end_line, end_column) = record {
  line = pos line;
  column = pos column;
  line_delta = sub_ℕ end_line line;
  column_delta = sub_ℕ end_column column;
}

unfoldable pub located : Source → TextRange → Option Location
unfolding convert_column_to_codepoint
located s range =
    let (st_line, st_bytes) = s.line_index.line_column range.start in
    let (end_line, end_bytes) = s.line_index.line_column range.end in
    if s.is_all_ascii
    then some (record {
      line = pos st_line;
      column = pos (st_bytes - 1);
      line_delta = sub_ℕ end_line st_line;
      column_delta = sub_ℕ end_bytes st_bytes;
    })
    else (do
      st_column ← convert_column_to_codepoint s st_line st_bytes
      end_column ← convert_column_to_codepoint s end_line end_bytes
      some (record {
        line = pos st_line;
        column = sub_ℕ st_column 1;
        line_delta = sub_ℕ end_line st_line;
        column_delta = sub_ℕ end_column st_column;
      }))

abbrev pub override_or : Option (ℕ × ℕ × ℕ × ℕ) → Option Location → Option Location
override_or (some o) computed = some (overridden o)
override_or none computed = computed

unfoldable pub location_of : Source → TextRange → Option Location
unfolding located
location_of s range = override_or s.location_override (located s range)

-- The bytes of a location.
unfoldable pub write_fields : Location → List ℕ
unfolding write_int
write_fields l =
    tag_location
    ∷ (write_int l.line
        ++ (write_int l.column ++ (write_int l.line_delta ++ write_int l.column_delta)))

-- What `write_location` appends.
unfoldable pub write_location : Source → TextRange → Option (List ℕ)
unfolding location_of write_fields
write_location s range = do l ← location_of s range; some (write_fields l)
