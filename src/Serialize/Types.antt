-- ===== src/Serialize/Types.antt =====
-- src/serialize_ast.rs: the serialization of type annotations.
pub mod Unbound
pub mod Annotation
pub mod Writes
pub mod Append
pub mod Fuel
use ast_serialize.Common.{
  ℕ, zero, suc, Bool, true, false, List, [], ◌∷◌, ◌++◌, Option, none, some, leb, ◌==◌,
  if◌then◌else◌, Text, codes, length,
}
use ast_serialize.Common.Int.{ℤ, pos}
use ast_serialize.Options.{cv_raw_expression_type_notes}
use ast_serialize.Ast.Expr.{
  TextRange, Identifier, StringLiteral, Number, int, float, complex, Operator, bit_or, UnaryOp,
  u_add, u_sub, Expr, Exprs, nil, cons, OptExpr, absent, present, DictItems, no_items, item,
  Keywords, no_keywords, keyword, name, attribute, subscript, none_literal, boolean_literal,
  number_literal, bin_op, list_display, tuple, dict, call, ellipsis_literal, starred, unary_op,
  string_literal, bytes_literal, to_list,
}
use ast_serialize.Ast.Ranges.{expr_range}
use ast_serialize.Wire.{
  write_int, write_tagged_int, write_usize, write_bool, write_bytes, tag_literal_none,
  tag_literal_str, tag_list_gen,
}
use ast_serialize.Escape.{serialize_bytes_to_escaped_string}
use ast_serialize.Serialize.{
  Context, Serializer, Action, ◌>>◌, skip, panic, reading, append, write_tag, write_end_tag,
  append_location, utf8, write_text, unevaluated,
}
use ast_serialize.Serialize.Tags.{
  tag_raw_expression_type, tag_unbound_type, tag_union_type, tag_list_type, tag_tuple_type,
  tag_typed_dict_type, tag_call_type, tag_unpack_type, tag_ellipsis_type,
}
use ast_serialize.Serialize.Names.{
  get_qualified_type_name, extract_int_literal_value, is_typed_dict,
}
use ast_serialize.Serialize.Types.Unbound.{
  write_optional, write_original, write_invalid_note, write_raw_fallback, serialize_invalid_type,
  invalid_type, serialize_simple_unbound_type, serialize_attribute_type, serialize_subscript_type,
}

-- `serialize_union_type`, given its recursive calls.
unfoldable pub serialize_union_type :
    Context
    → (left right : Action) → TextRange
    → (original_str_expr original_str_fallback : Option (List ℕ)) → Action
unfolding ◌>>◌ write_tag append write_int write_bool write_original reading append_location
    write_end_tag
serialize_union_type c left right range expr fallback = do
  write_tag tag_union_type
  write_tag tag_list_gen
  append (write_int (pos 2))
  left
  right
  append (write_bool true)
  write_original expr fallback
  reading λ s. append (write_bool s.is_evaluated)
  append_location c range
  write_end_tag

-- An integer literal as a type, or an invalid type.
unfoldable pub serialize_int_type : Context → Option ℤ → Action
unfolding ◌>>◌ write_tag append write_bytes write_tagged_int invalid_type
serialize_int_type c (some int_val) = do
  write_tag tag_raw_expression_type
  append (write_bytes (codes "builtins.int"))
  append (write_tagged_int int_val)
serialize_int_type c none = invalid_type c

-- The note for a call in a type.
unfoldable pub call_note : Expr → Keywords → Option (List ℕ)
unfolding get_qualified_type_name
call_note func no_keywords =
    let (n, is_name) = get_qualified_type_name [] func in
    if is_name
    then some
        (codes "Suggestion: use " ++ (n ++ (codes "[...] instead of " ++ (n ++ codes "(...)"))))
    else none
call_note func (keyword _ _ _) =
    let (n, is_name) = get_qualified_type_name [] func in
    if is_name then some (codes "Cannot use a function call in a type annotation") else none

-- The concatenated parts of a string literal.
unfoldable pub string_value : List StringLiteral → Text
string_value [] = []
string_value (part ∷ parts) = part.value ++ string_value parts

-- The string literal as an untagged sequence of parts behind their length.
unfoldable pub write_string_parts : List StringLiteral → Action
unfolding append write_bytes utf8 string_value
write_string_parts parts = append (write_bytes (utf8 (string_value parts)))

unfoldable pub write_key : OptExpr → Action
unfolding write_string_parts write_tag
write_key (present (string_literal _ parts)) = write_string_parts parts
write_key _ = write_tag tag_literal_none

unfoldable pub write_keys : DictItems → Action
unfolding ◌>>◌ write_key skip
write_keys no_items = skip
write_keys (item key _ rest) = do write_key key; write_keys rest

unfoldable pub items_len : DictItems → ℕ
items_len no_items = 0
items_len (item _ _ rest) = suc (items_len rest)

unfoldable pub keywords_len : Keywords → ℕ
keywords_len no_keywords = 0
keywords_len (keyword _ _ rest) = suc (keywords_len rest)

unfoldable pub exprs_len : Exprs → ℕ
exprs_len nil = 0
exprs_len (cons _ rest) = suc (exprs_len rest)

abbrev pub identifier_bytes : Option Identifier → Option (List ℕ)
identifier_bytes none = none
identifier_bytes (some i) = some (utf8 i.id)

-- The location and the end that most branches of `serialize_type` share.
unfoldable pub close : Context → TextRange → Action → Action
unfolding ◌>>◌ append_location write_end_tag
close c range body = do body; append_location c range; write_end_tag

-- The two branches of the match on the slice in `serialize_subscript_type`, given the types.
unfoldable pub slice_many : (n : ℕ) → (types : Action) → Action
unfolding ◌>>◌ append write_usize write_bool
slice_many n types = do append (write_usize n); types; append (write_bool (n == 0))

unfoldable pub slice_one : Action → Action
unfolding ◌>>◌ append write_int write_bool
slice_one type = do append (write_int (pos 1)); type; append (write_bool false)

-- A tagged list of types, given the types.
unfoldable pub typed_list : (n : ℕ) → (types : Action) → Action
unfolding ◌>>◌ write_tag append write_int
typed_list n types = do write_tag tag_list_gen; append (write_int (pos n)); types

unfoldable pub serialize_dict_type : Context → DictItems → (values : Action) → Action
unfolding ◌>>◌ is_typed_dict write_tag typed_list items_len write_keys invalid_type
serialize_dict_type c items values =
    if is_typed_dict items
    then (do
      write_tag tag_typed_dict_type
      typed_list (items_len items) (write_keys items)
      typed_list (items_len items) values)
    else invalid_type c

-- Branches of `serialize_type`, given their recursive calls.
unfoldable pub list_type : (n : ℕ) → (types : Action) → Action
unfolding ◌>>◌ write_tag typed_list
list_type n types = do write_tag tag_list_type; typed_list n types

unfoldable pub tuple_type : (n : ℕ) → (types : Action) → Action
unfolding ◌>>◌ write_tag typed_list append write_bool
tuple_type n types = do write_tag tag_tuple_type; typed_list n types; append (write_bool true)

unfoldable pub unpack_type : Action → Action
unfolding ◌>>◌ write_tag append write_bool
unpack_type value = do write_tag tag_unpack_type; value; append (write_bool true)

-- A call in a list, given its recursive calls.
unfoldable pub call_type : (func : Action) → (n : ℕ) → (args : Action) → (m : ℕ) → Action → Action
unfolding ◌>>◌ write_tag typed_list
call_type func n args m keywords = do
  write_tag tag_call_type
  func
  typed_list n args
  typed_list m keywords
