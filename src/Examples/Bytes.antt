-- ===== src/Examples/Bytes.antt =====
-- Numbers, locations and imports as bytes.
use ast_serialize.Common.{
  ℕ, ◌≡◌, refl, arith, true, false, List, [], ◌∷◌, ◌++◌, none, some, All, length, suc,
}
use ast_serialize.Common.Int.{pos, negsuc}
use ast_serialize.Wire.{tag_list_gen, write_usize, write_int}
use ast_serialize.Wire.Reader.{read_int}
use ast_serialize.Wire.RoundTrip.{read_int-write_int}
use ast_serialize.Location.{
  Source, convert_column_to_codepoint, is_char_boundary, Location, location_of,
}
use ast_serialize.Location.Columns.{location_of-multibyte_start, convert_column_to_codepoint-plain}
use ast_serialize.Location.Read.{Fits}
use ast_serialize.Escape.{serialize_bytes_to_escaped_string}
use ast_serialize.Escape.Unescape.{unescape, flatten, unescape-serialize_bytes_to_escaped_string}
use ast_serialize.Imports.{
  ImportStatement, write_imports, import, import_from, import_all, make_import_flags, locate_all,
  serialize_imports,
}
use ast_serialize.Imports.Flags.{HasBits, make_import_flags_bits}
use ast_serialize.Imports.RoundTrip.{Writable, read_imports, read_imports-serialize_imports}
use ast_serialize.Examples.Data.{r, accented}

-- The numbers of the test of `write_int` in the source.
write_int-two : write_int (pos 118) ≡ (105 ∷ 3 ∷ [])
unfolding write_int
write_int-two = refl

write_int-negative : write_int (negsuc 10) ≡ (101 ∷ 1 ∷ [])
unfolding write_int
write_int-negative = refl

write_int-long : write_int (negsuc 10000) ≡ (15 ∷ 30 ∷ 17 ∷ 39 ∷ [])
unfolding write_int
write_int-long = refl

read_int-write_int_example :
    read_int (write_int (negsuc 10000) ++ (7 ∷ [])) ≡ some (negsuc 10000, 7 ∷ [])
read_int-write_int_example = read_int-write_int (negsuc 10000) (7 ∷ []) (omega arith)

start-is_char_boundary : is_char_boundary (195 ∷ 169 ∷ 32 ∷ []) 0 ≡ true
unfolding is_char_boundary
start-is_char_boundary = refl

abbrev accented_location : Location
accented_location = record {
  line = pos 1;
  column = negsuc 0;
  line_delta = pos 0;
  column_delta = pos 0;
}

accented-location_of : location_of accented r ≡ some accented_location
unfolding location_of
accented-location_of = refl

line-is_char_boundary : is_char_boundary accented.text 0 ≡ true
unfolding is_char_boundary
line-is_char_boundary = refl

location_of-multibyte_start_example : accented_location.column ≡ negsuc 0
location_of-multibyte_start_example =
    location_of-multibyte_start accented r 1 169 accented_location refl refl refl refl
      line-is_char_boundary refl refl accented-location_of

make_import_flags_bits_example :
    HasBits true false true false (make_import_flags true false true false)
make_import_flags_bits_example = make_import_flags_bits true false true false

-- `import os as o`, then `from . import a, b as c`, then `from m import *`
abbrev imports : {R : Type 0} → R → List (ImportStatement R)
imports range =
    import (111 ∷ 115 ∷ []) (pos 0) (some (111 ∷ [])) range 1
    ∷ import_from [] (pos 1) ((97 ∷ [], none) ∷ (98 ∷ [], some (99 ∷ [])) ∷ []) range 0
    ∷ import_all (109 ∷ []) (pos 0) range 3
    ∷ []

abbrev ascii : Source
ascii = record {
  line_index = record { line_column = λ offset. (1, suc offset); line_start = λ line. 0 };
  text = 49 ∷ 10 ∷ [];
  is_all_ascii = true;
  lines_with_non_ascii = [];
  location_override = none;
}

abbrev start : Location
start = record { line = pos 1; column = pos 0; line_delta = pos 0; column_delta = pos 0 }

start-Fits : Fits start
start-Fits = record {
  line_fits = omega arith;
  column_fits = omega arith;
  line_delta_fits = omega arith;
  column_delta_fits = omega arith;
}

imports-locate_all : locate_all ascii (imports r) ≡ some (imports start)
unfolding locate_all
imports-locate_all = refl

imports-Writable : All Writable (imports start)
imports-Writable = (
  (omega arith, omega arith, omega arith, start-Fits, omega arith),
  (
    (
      omega arith,
      omega arith,
      omega arith,
      ((omega arith, tt), ((omega arith, omega arith), tt)),
      start-Fits,
      omega arith,
    ),
    ((omega arith, omega arith, start-Fits, omega arith), tt),
  ),
)

abbrev imports_bytes : List ℕ
imports_bytes = tag_list_gen ∷ (write_usize 3 ++ write_imports (imports start))

imports-serialize_imports : serialize_imports ascii (imports r) ≡ some imports_bytes
unfolding serialize_imports
imports-serialize_imports = refl

read_imports-serialize_imports_example :
    read_imports (imports_bytes ++ (7 ∷ [])) ≡ some (imports start, 7 ∷ [])
read_imports-serialize_imports_example =
    read_imports-serialize_imports ascii (imports r) (imports start) imports_bytes (7 ∷ [])
      imports-locate_all imports-Writable (omega arith) imports-serialize_imports

-- Both quotes, a newline and a byte that is not ASCII.
abbrev literal : List (List ℕ)
literal = (39 ∷ 34 ∷ []) ∷ (10 ∷ 255 ∷ []) ∷ []

literal-escape :
    serialize_bytes_to_escaped_string literal
    ≡ (92 ∷ 39 ∷ 34 ∷ 92 ∷ 110 ∷ 92 ∷ 120 ∷ 102 ∷ 102 ∷ [])
unfolding serialize_bytes_to_escaped_string
literal-escape = refl

unescape-serialize_bytes_to_escaped_string_example :
    unescape (length (flatten literal)) (serialize_bytes_to_escaped_string literal ++ (7 ∷ []))
    ≡ some (flatten literal, 7 ∷ [])
unescape-serialize_bytes_to_escaped_string_example =
    unescape-serialize_bytes_to_escaped_string literal (7 ∷ [])
      (omega arith, (omega arith, (omega arith, (omega arith, tt))))

abbrev spaced : Source
spaced = record accented { text = 49 ∷ 32 ∷ 195 ∷ 169 ∷ [] }

spaced-is_char_boundary : is_char_boundary spaced.text 2 ≡ true
unfolding is_char_boundary
spaced-is_char_boundary = refl

convert_column_to_codepoint-plain_example : convert_column_to_codepoint spaced 1 2 ≡ some 2
convert_column_to_codepoint-plain_example =
    convert_column_to_codepoint-plain spaced 1 2 (omega arith) spaced-is_char_boundary refl
