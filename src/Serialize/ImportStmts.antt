-- ===== src/Serialize/ImportStmts.antt =====
-- src/serialize_ast.rs, `Ser` for `ast::Stmt`: the imports, and the record of them.
pub mod Flagged
use ast_serialize.Common.{
  ℕ, Bool, true, false, List, [], ◌∷◌, ◌++◌, Option, none, some, leb, if◌then◌else◌, Text, codes,
  text_eq, length,
}
use ast_serialize.Common.Int.{pos, u32_as_i32}
use ast_serialize.Options.{cv_import_flags}
use ast_serialize.Ast.Expr.{TextRange, Identifier}
use ast_serialize.Ast.Stmt.{Alias}
use ast_serialize.Wire.{write_tagged_int, write_bool, write_bytes}
use ast_serialize.Imports.{
  Utf8, ImportStatement, import, import_from, import_all, make_import_flags, write_as_name,
}
use ast_serialize.Serialize.{
  Context, Serializer, Action, ◌>>◌, skip, reading, append, write_tag, append_location, utf8,
  write_text,
}
use ast_serialize.Serialize.StmtTags.{tag_import, tag_import_from, tag_import_all}

unfoldable pub push_import : ImportStatement TextRange → Action
push_import i s = some (record s { imports = s.imports ++ (i ∷ []) })

unfoldable pub import_flags : Serializer → (is_lazy : Bool) → ℕ
unfolding make_import_flags
import_flags s is_lazy =
    make_import_flags s.in_function s.current_unreachable s.current_mypy_only is_lazy

abbrev pub alias_bytes : Option Identifier → Option Utf8
alias_bytes none = none
alias_bytes (some asname) = some (utf8 asname.id)

unfoldable pub write_alias : Alias → Action
unfolding ◌>>◌ write_text append write_as_name utf8
write_alias a = do write_text a.name.id; append (write_as_name (alias_bytes a.asname))

-- The loop of `import`.
unfoldable pub import_names : (flags : ℕ) → List Alias → Action
unfolding ◌>>◌ skip write_alias push_import utf8
import_names flags [] = skip
import_names flags (a ∷ names) = do
  write_alias a
  push_import (import (utf8 a.name.id) (pos 0) (alias_bytes a.asname) a.range flags)
  import_names flags names

unfoldable pub write_flags : Context → (flags : ℕ) → Action
unfolding append write_tagged_int skip
write_flags c flags =
    if leb cv_import_flags c.options.cache_version
    then append (write_tagged_int (pos flags))
    else skip

unfoldable pub serialize_plain_import : Context → TextRange → List Alias → (flags : ℕ) → Action
unfolding ◌>>◌ write_tag append write_tagged_int import_names append_location write_flags
serialize_plain_import c range names flags = do
  write_tag tag_import
  append (write_tagged_int (pos (length names)))
  import_names flags names
  append_location c range
  write_flags c flags

unfoldable pub serialize_import : Context → TextRange → List Alias → (is_lazy : Bool) → Action
unfolding reading import_flags serialize_plain_import
serialize_import c range names is_lazy =
    reading λ s. serialize_plain_import c range names (import_flags s is_lazy)

-- Whether the names are one `*`.
unfoldable pub is_wildcard : List Alias → Bool
unfolding text_eq
is_wildcard (a ∷ []) = text_eq a.name.id (codes "*")
is_wildcard _ = false

abbrev pub from_bytes : Option Identifier → Utf8
from_bytes none = []
from_bytes (some m) = utf8 m.id

unfoldable pub write_aliases : List Alias → Action
unfolding ◌>>◌ skip write_alias
write_aliases [] = skip
write_aliases (a ∷ names) = do write_alias a; write_aliases names

unfoldable pub alias_pairs : List Alias → List (Utf8 × Option Utf8)
unfolding utf8
alias_pairs [] = []
alias_pairs (a ∷ names) = (utf8 a.name.id, alias_bytes a.asname) ∷ alias_pairs names

unfoldable pub serialize_import_all :
    Context → TextRange → Option Identifier → (level flags : ℕ) → Action
unfolding ◌>>◌ write_tag append write_bytes write_tagged_int append_location write_flags push_import
serialize_import_all c range from level flags = do
  write_tag tag_import_all
  append (write_bytes (from_bytes from))
  append (write_tagged_int (pos level))
  append_location c range
  write_flags c flags
  push_import (import_all (from_bytes from) (u32_as_i32 level) range flags)

unfoldable pub serialize_import_names :
    Context → TextRange → Option Identifier → List Alias → (level flags : ℕ) → Action
unfolding ◌>>◌ write_tag append write_bytes write_tagged_int append_location write_flags push_import
    write_aliases alias_pairs
serialize_import_names c range from names level flags = do
  write_tag tag_import_from
  append (write_tagged_int (pos level))
  append (write_bytes (from_bytes from))
  append (write_tagged_int (pos (length names)))
  write_aliases names
  push_import (import_from (from_bytes from) (u32_as_i32 level) (alias_pairs names) range flags)
  append_location c range
  write_flags c flags

unfoldable pub serialize_import_from :
    Context → TextRange → Option Identifier → List Alias → (level : ℕ) → (is_lazy : Bool) → Action
unfolding reading import_flags is_wildcard serialize_import_all serialize_import_names
serialize_import_from c range from names level is_lazy = reading λ s.
    if is_wildcard names
    then serialize_import_all c range from level (import_flags s is_lazy)
    else serialize_import_names c range from names level (import_flags s is_lazy)
