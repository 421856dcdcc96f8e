-- ===== src/Imports.antt =====
-- src/serialize_ast.rs: the import statements that a file was seen to hold, and their serialization.
-- A String is the list of its UTF-8 bytes.
pub mod Flags
pub mod RoundTrip
use ast_serialize.Common.{
  ℕ, ◌+◌, Bool, true, false, List, [], ◌∷◌, ◌++◌, Option, none, some, ◌>>=◌, if◌then◌else◌, length,
}
use ast_serialize.Common.Int.{ℤ, pos}
use ast_serialize.Ast.Expr.{TextRange}
use ast_serialize.Wire.{tag_list_gen, write_tagged_int, write_usize, write_bool, write_bytes}
use ast_serialize.Location.{Source, Location, location_of, write_fields}

abbrev pub tag_import_metadata : ℕ
tag_import_metadata = 226

abbrev pub tag_importfrom_metadata : ℕ
tag_importfrom_metadata = 227

abbrev pub tag_importall_metadata : ℕ
tag_importall_metadata = 228

abbrev pub Utf8 : Type 0
Utf8 = List ℕ

-- `R` is the range in the source, or the location that it is written as.
pub data ImportStatement (R : Type 0) : Type 0 where
  import :
      (name : Utf8)
      → (relative : ℤ) → (as_name : Option Utf8) → (range : R) → (flags : ℕ) → ImportStatement R
  import_from :
      (from : Utf8)
      → (relative : ℤ) → (names : List (Utf8 × Option Utf8)) → (range : R) → (flags : ℕ)
      → ImportStatement R
  import_all : (from : Utf8) → (relative : ℤ) → (range : R) → (flags : ℕ) → ImportStatement R

abbrev pub flag_top_level : ℕ
flag_top_level = 1

abbrev pub flag_unreachable : ℕ
flag_unreachable = 2

abbrev pub flag_mypy_only : ℕ
flag_mypy_only = 4

abbrev pub flag_lazy : ℕ
flag_lazy = 8

-- `make_import_flags`, on the three fields of the serializer that it reads. The bits are disjoint,
-- so that `|` adds them.
unfoldable pub make_import_flags : (in_function unreachable mypy_only is_lazy : Bool) → ℕ
make_import_flags in_function unreachable mypy_only is_lazy =
    (if in_function then 0 else flag_top_level)
    + (if unreachable then flag_unreachable else 0)
    + (if mypy_only then flag_mypy_only else 0)
    + (if is_lazy then flag_lazy else 0)

unfoldable pub write_as_name : Option Utf8 → List ℕ
unfolding write_bool write_bytes
write_as_name (some asname) = write_bool true ++ write_bytes asname
write_as_name none = write_bool false

unfoldable pub write_names : List (Utf8 × Option Utf8) → List ℕ
unfolding write_bytes write_as_name
write_names [] = []
write_names ((n, as_name) ∷ names) = write_bytes n ++ (write_as_name as_name ++ write_names names)

-- The body of the loop of `serialize_imports`.
unfoldable pub write_import : ImportStatement Location → List ℕ
unfolding write_bytes write_tagged_int write_as_name write_usize write_names write_fields
write_import (import n relative as_name l flags) =
    tag_import_metadata
    ∷ (write_bytes n
        ++ (write_tagged_int relative
            ++ (write_as_name as_name ++ (write_fields l ++ write_tagged_int (pos flags)))))
write_import (import_from from relative names l flags) =
    tag_importfrom_metadata
    ∷ (write_bytes from
        ++ (write_tagged_int relative
            ++ (tag_list_gen
                ∷ (write_usize (length names)
                    ++ (write_names names ++ (write_fields l ++ write_tagged_int (pos flags)))))))
write_import (import_all from relative l flags) =
    tag_importall_metadata
    ∷ (write_bytes from
        ++ (write_tagged_int relative ++ (write_fields l ++ write_tagged_int (pos flags))))

-- The statement with its location; `none` is a panic of `write_location`.
unfoldable pub locate : Source → ImportStatement TextRange → Option (ImportStatement Location)
unfolding location_of
locate s (import n relative as_name range flags) = do
  l ← location_of s range
  some (import n relative as_name l flags)
locate s (import_from from relative names range flags) = do
  l ← location_of s range
  some (import_from from relative names l flags)
locate s (import_all from relative range flags) = do
  l ← location_of s range
  some (import_all from relative l flags)

unfoldable pub locate_all :
    Source → List (ImportStatement TextRange) → Option (List (ImportStatement Location))
unfolding locate
locate_all s [] = some []
locate_all s (i ∷ is) = do l ← locate s i; ls ← locate_all s is; some (l ∷ ls)

unfoldable pub write_imports : List (ImportStatement Location) → List ℕ
unfolding write_import
write_imports [] = []
write_imports (i ∷ is) = write_import i ++ write_imports is

unfoldable pub serialize_imports : Source → List (ImportStatement TextRange) → Option (List ℕ)
unfolding locate_all write_usize write_imports
serialize_imports s imports = do
  located ← locate_all s imports
  some (tag_list_gen ∷ (write_usize (length imports) ++ write_imports located))
