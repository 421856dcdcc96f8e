-- ===== src/Imports/RoundTrip.antt =====
-- Reading the import metadata of a file.
use mathlib.Core.List.{append_assoc}
use mathlib.Core.Path.{subst}
use mathlib.Core.Option.{some-injective}
use ast_serialize.Common.{
  ℕ, zero, suc, ◌^◌, ◌<◌, ◌≡◌, refl, arith, true, false, List, [], ◌∷◌, ◌++◌, Option, none, some,
  ◌>>=◌, >>=-eq-some, ◌==◌, if◌then◌else◌, length, All, ap,
}
use ast_serialize.Common.Int.{pos, IsI64}
use ast_serialize.Ast.Expr.{TextRange}
use ast_serialize.Wire.{tag_list_gen, write_tagged_int, write_usize, write_bool, write_bytes}
use ast_serialize.Wire.Reader.{
  Read, expect, read_tagged_int, read_bool, read_count, count_of, read_bytes,
}
use ast_serialize.Wire.RoundTrip.{
  read_tagged_int-write_tagged_int, read_bool-write_bool, read_count-write_usize,
  read_bytes-write_bytes,
}
use ast_serialize.Location.{Source, Location, write_fields}
use ast_serialize.Location.Read.{read_location, Fits, read_location-write_fields}
use ast_serialize.Imports.{
  Utf8, ImportStatement, import, import_from, import_all, tag_import_metadata,
  tag_importfrom_metadata, tag_importall_metadata, write_as_name, write_names, write_import, locate,
  locate_all, write_imports, serialize_imports,
}

unfoldable pub read_as_name : Read (Option Utf8)
read_as_name bs = do
  (has, rest) ← read_bool bs
  if has then (do (n, rest') ← read_bytes rest; some (some n, rest')) else some (none, rest)

unfoldable pub read_names : ℕ → Read (List (Utf8 × Option Utf8))
read_names zero bs = some ([], bs)
read_names (suc k) bs = do
  (n, r0) ← read_bytes bs
  (a, r1) ← read_as_name r0
  (names, r2) ← read_names k r1
  some ((n, a) ∷ names, r2)

unfoldable pub read_flags : Read ℕ
read_flags bs = do (i, rest) ← read_tagged_int bs; n ← count_of i; some (n, rest)

read_import_fields : Read (ImportStatement Location)
read_import_fields bs = do
  (n, r0) ← read_bytes bs
  (relative, r1) ← read_tagged_int r0
  (a, r2) ← read_as_name r1
  (l, r3) ← read_location r2
  (f, r4) ← read_flags r3
  some (import n relative a l f, r4)

read_import_from_fields : Read (ImportStatement Location)
read_import_from_fields bs = do
  (m, r0) ← read_bytes bs
  (relative, r1) ← read_tagged_int r0
  (t, r2) ← expect tag_list_gen r1
  (k, r3) ← read_count r2
  (names, r4) ← read_names k r3
  (l, r5) ← read_location r4
  (f, r6) ← read_flags r5
  some (import_from m relative names l f, r6)

read_import_all_fields : Read (ImportStatement Location)
read_import_all_fields bs = do
  (m, r0) ← read_bytes bs
  (relative, r1) ← read_tagged_int r0
  (l, r2) ← read_location r1
  (f, r3) ← read_flags r2
  some (import_all m relative l f, r3)

unfoldable pub read_import : Read (ImportStatement Location)
unfolding read_import_fields read_import_from_fields read_import_all_fields
read_import [] = none
read_import (tag ∷ bs) =
    if tag == tag_import_metadata
    then read_import_fields bs
    else if tag == tag_importfrom_metadata
    then read_import_from_fields bs
    else if tag == tag_importall_metadata
    then read_import_all_fields bs
    else none

unfoldable pub read_each : ℕ → Read (List (ImportStatement Location))
read_each zero bs = some ([], bs)
read_each (suc k) bs = do (i, r0) ← read_import bs; (is, r1) ← read_each k r0; some (i ∷ is, r1)

unfoldable pub read_imports : Read (List (ImportStatement Location))
read_imports bs = do (t, r0) ← expect tag_list_gen bs; (k, r1) ← read_count r0; read_each k r1

-- Texts have lengths that an i64 holds.
abbrev pub Short : Utf8 → Type 0
Short b = length b < 2 ^ 63

abbrev pub ShortName : Option Utf8 → Type 0
ShortName none = Unit
ShortName (some n) = Short n

abbrev pub Writable : ImportStatement Location → Type 0
Writable (import n relative a l f) = Short n × IsI64 relative × ShortName a × Fits l × (f < 2 ^ 63)
Writable (import_from m relative names l f) =
    Short m
    × IsI64 relative
    × (length names < 2 ^ 63)
    × All (λ p. Short p.0 × ShortName p.1) names
    × Fits l
    × (f < 2 ^ 63)
Writable (import_all m relative l f) = Short m × IsI64 relative × Fits l × (f < 2 ^ 63)

read_as_name-write_as_name :
    (a : Option Utf8) (rest : List ℕ)
    → ShortName a
    → read_as_name (write_as_name a ++ rest) ≡ some (a, rest)
unfolding read_as_name write_as_name
read_as_name-write_as_name none rest h = rw (read_bool-write_bool false rest)
read_as_name-write_as_name (some n) rest h = rw (
  append_assoc (write_bool true) (write_bytes n) rest,
  read_bool-write_bool true (write_bytes n ++ rest),
  read_bytes-write_bytes n rest h,
)

read_names-write_names :
    (names : List (Utf8 × Option Utf8)) (rest : List ℕ)
    → All (λ p. Short p.0 × ShortName p.1) names
    → read_names (length names) (write_names names ++ rest) ≡ some (names, rest)
unfolding read_names write_names
read_names-write_names [] rest h = refl
read_names-write_names ((n, a) ∷ names) rest ((hn, ha), hs) = rw (
  append_assoc (write_bytes n) (write_as_name a ++ write_names names) rest,
  read_bytes-write_bytes n ((write_as_name a ++ write_names names) ++ rest) hn,
  append_assoc (write_as_name a) (write_names names) rest,
  read_as_name-write_as_name a (write_names names ++ rest) ha,
  read_names-write_names names rest hs,
)

read_flags_lem :
    (f : ℕ) (rest : List ℕ)
    → f < 2 ^ 63
    → read_flags (write_tagged_int (pos f) ++ rest) ≡ some (f, rest)
unfolding read_flags
read_flags_lem f rest h = rw (read_tagged_int-write_tagged_int (pos f) rest (omega arith))

read_import-write_import :
    (i : ImportStatement Location) (rest : List ℕ)
    → Writable i
    → read_import (write_import i ++ rest) ≡ some (i, rest)
unfolding read_import write_import
read_import-write_import (import n relative a l f) rest (hn, hr, ha, hl, hf) = rw (
  append_assoc (write_bytes n) _ rest,
  read_bytes-write_bytes n _ hn,
  append_assoc (write_tagged_int relative) _ rest,
  read_tagged_int-write_tagged_int relative _ hr,
  append_assoc (write_as_name a) _ rest,
  read_as_name-write_as_name a _ ha,
  append_assoc (write_fields l) _ rest,
  read_location-write_fields l _ hl,
  read_flags_lem f rest hf,
)
read_import-write_import (import_from m relative names l f) rest (hm, hr, hk, hs, hl, hf) = rw (
  append_assoc (write_bytes m) _ rest,
  read_bytes-write_bytes m _ hm,
  append_assoc (write_tagged_int relative) _ rest,
  read_tagged_int-write_tagged_int relative _ hr,
  append_assoc (write_usize (length names)) _ rest,
  read_count-write_usize (length names) _ hk,
  append_assoc (write_names names) _ rest,
  read_names-write_names names _ hs,
  append_assoc (write_fields l) _ rest,
  read_location-write_fields l _ hl,
  read_flags_lem f rest hf,
)
read_import-write_import (import_all m relative l f) rest (hm, hr, hl, hf) = rw (
  append_assoc (write_bytes m) _ rest,
  read_bytes-write_bytes m _ hm,
  append_assoc (write_tagged_int relative) _ rest,
  read_tagged_int-write_tagged_int relative _ hr,
  append_assoc (write_fields l) _ rest,
  read_location-write_fields l _ hl,
  read_flags_lem f rest hf,
)

read_each-write_imports :
    (is : List (ImportStatement Location)) (rest : List ℕ)
    → All Writable is
    → read_each (length is) (write_imports is ++ rest) ≡ some (is, rest)
unfolding read_each write_imports
read_each-write_imports [] rest h = refl
read_each-write_imports (i ∷ is) rest (hi, hs) = rw (
  append_assoc (write_import i) (write_imports is) rest,
  read_import-write_import i _ hi,
  read_each-write_imports is rest hs,
)

length-locate_all :
    (s : Source) (is : List (ImportStatement TextRange)) (located : List (ImportStatement Location))
    → locate_all s is ≡ some located
    → length located ≡ length is
unfolding locate_all
length-locate_all s [] located h = subst (λ l. length l ≡ 0) (some-injective _ _ h) refl
length-locate_all s (i ∷ is) located h =
    let (l, first, more) = >>=-eq-some (locate s i) _ h in
    let (ls, rest, back) = >>=-eq-some (locate_all s is) _ more in
    subst (λ l. length l ≡ suc (length is)) (some-injective _ _ back)
      (ap suc (length-locate_all s is ls rest))

-- The bytes that `serialize_imports` appends for a file are read back as the file's import
-- statements, in order, each with its names, level, flags and location, whatever follows. This holds
-- when no location panics and all lengths and numbers fit in an i64.
pub read_imports-serialize_imports :
    (s : Source) (is : List (ImportStatement TextRange)) (located : List (ImportStatement Location))
    (out rest : List ℕ)
    → locate_all s is ≡ some located
    → All Writable located
    → length is < 2 ^ 63
    → serialize_imports s is ≡ some out
    → read_imports (out ++ rest) ≡ some (located, rest)
unfolding read_imports serialize_imports
read_imports-serialize_imports s is located out rest h w n o =
    subst (λ bs. read_imports (bs ++ rest) ≡ some (located, rest)) (some-injective _ _ (rw h at o))
      (rw (
        ← length-locate_all s is located h,
        append_assoc (write_usize (length located)) (write_imports located) rest,
        read_count-write_usize (length located) _ (omega (arith, length-locate_all s is located h)),
        read_each-write_imports located rest w,
      ))
