-- ===== src/Serialize/Exprs/Strings.antt =====
-- src/serialize_ast.rs, `Ser` for `ast::Expr`: string literals, f-strings and t-strings.
use ast_serialize.Common.{
  ℕ, suc, ◌+◌, true, false, List, [], ◌∷◌, ◌++◌, Option, none, some, leb, if◌then◌else◌, Text,
  codes, length,
}
use ast_serialize.Options.{cv_unicode_surrogate}
use ast_serialize.Ast.Expr.{
  TextRange, StringLiteral, DebugText, ConversionFlag, no_conversion, str_conversion,
  ascii_conversion, repr_conversion, FStringParts, no_parts, literal_part, f_string_part, TStrings,
  no_t_strings, t_string_part, Elements, no_elements, literal_element, interpolation, OptSpec,
  no_spec,
}
use ast_serialize.Wire.{write_usize, write_bool, write_bytes, tag_literal_str}
use ast_serialize.Serialize.{
  Context, Action, ◌>>◌, skip, panic, reading, append, write_tag, append_location, utf8, write_text,
  text_at, check_surrogate, reset_surrogates,
}

-- The flag behind a literal, and the parts of a literal.
unfoldable pub write_surrogates : Context → Action
unfolding reading append write_bool skip
write_surrogates c =
    if leb cv_unicode_surrogate c.options.cache_version
    then (reading λ s. append (write_bool s.has_surrogates))
    else skip

unfoldable pub string_len : List StringLiteral → ℕ
unfolding utf8
string_len [] = 0
string_len (part ∷ parts) = length (utf8 part.value) + string_len parts

unfoldable pub write_literal_parts : Context → List StringLiteral → Action
unfolding ◌>>◌ skip append utf8 check_surrogate
write_literal_parts c [] = skip
write_literal_parts c (part ∷ parts) = do
  append (utf8 part.value)
  check_surrogate c part.value part.range
  write_literal_parts c parts

unfoldable pub write_string : Context → List StringLiteral → Action
unfolding ◌>>◌ write_tag append write_usize string_len reset_surrogates write_literal_parts
    write_surrogates
write_string c parts = do
  write_tag tag_literal_str
  append (write_usize (string_len parts))
  reset_surrogates
  write_literal_parts c parts
  write_surrogates c

-- A literal piece of an f-string or a t-string.
unfoldable pub write_piece : Context → Text → TextRange → Action
unfolding ◌>>◌ write_text check_surrogate append_location
write_piece c value range = do
  write_text value
  check_surrogate c value range
  append_location c range

unfoldable pub parts_len : FStringParts → ℕ
parts_len no_parts = 0
parts_len (literal_part _ rest) = suc (parts_len rest)
parts_len (f_string_part _ rest) = suc (parts_len rest)

unfoldable pub elements_len : Elements → ℕ
elements_len no_elements = 0
elements_len (literal_element _ _ rest) = suc (elements_len rest)
elements_len (interpolation _ _ _ _ rest) = suc (elements_len rest)

-- `extra`: a debug item is two elements.
unfoldable pub debug_items : Elements → ℕ
debug_items no_elements = 0
debug_items (literal_element _ _ rest) = debug_items rest
debug_items (interpolation _ none _ _ rest) = debug_items rest
debug_items (interpolation _ (some _) _ _ rest) = suc (debug_items rest)

unfoldable pub t_elements_len : TStrings → ℕ
unfolding elements_len
t_elements_len no_t_strings = 0
t_elements_len (t_string_part elements rest) = elements_len elements + t_elements_len rest

-- Text of the source between two given texts.
unfoldable pub write_source : Text → Option (List ℕ) → Text → Action
unfolding panic append write_bytes utf8
write_source leading none trailing = panic
write_source leading (some text) trailing =
    append (write_bytes (utf8 leading ++ (text ++ utf8 trailing)))

unfoldable pub write_debug : Context → Option DebugText → TextRange → Action
unfolding ◌>>◌ skip write_source text_at append_location
write_debug c none range = skip
write_debug c (some debug) range = do
  write_source debug.leading (text_at c.source range) debug.trailing
  append_location c range

-- A debug item without a conversion and a format has the conversion `!r`.
abbrev pub conversion_of : Option DebugText → ConversionFlag → OptSpec → ConversionFlag
conversion_of (some _) no_conversion no_spec = repr_conversion
conversion_of _ flag _ = flag

unfoldable pub write_conversion : (prefix : Text) → ConversionFlag → Action
unfolding ◌>>◌ append write_bool write_bytes
write_conversion prefix no_conversion = append (write_bool false)
write_conversion prefix str_conversion = do
  append (write_bool true)
  append (write_bytes (prefix ++ codes "s"))
write_conversion prefix repr_conversion = do
  append (write_bool true)
  append (write_bytes (prefix ++ codes "r"))
write_conversion prefix ascii_conversion = do
  append (write_bool true)
  append (write_bytes (prefix ++ codes "a"))

unfoldable pub use_template_strings : Action
use_template_strings s = some (record s { uses_template_strings = true })
