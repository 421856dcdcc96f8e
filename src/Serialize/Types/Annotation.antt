-- ===== src/Serialize/Types/Annotation.antt =====
-- src/serialize_ast.rs: `serialize_type`, and the types in quotes, which are parsed first.
use ast_serialize.Common.{ℕ, zero, suc, ◌++◌, Option, none, some, Text, codes, length}
use ast_serialize.Ast.Expr.{
  TextRange, bit_or, u_add, u_sub, Expr, Exprs, nil, cons, DictItems, no_items, item, Keywords,
  no_keywords, keyword, name, attribute, subscript, none_literal, boolean_literal, number_literal,
  bin_op, list_display, tuple, dict, call, ellipsis_literal, starred, unary_op, string_literal,
  bytes_literal,
}
use ast_serialize.Ast.Ranges.{expr_range}
use ast_serialize.Wire.{write_bool, write_bytes}
use ast_serialize.Escape.{serialize_bytes_to_escaped_string}
use ast_serialize.Serialize.{
  Context, Action, ◌>>◌, skip, panic, append, write_tag, utf8, write_text, unevaluated,
}
use ast_serialize.Serialize.Tags.{tag_raw_expression_type, tag_ellipsis_type}
use ast_serialize.Serialize.Names.{extract_int_literal_value}
use ast_serialize.Serialize.Types.{
  serialize_union_type, serialize_int_type, call_note, string_value, keywords_len, exprs_len,
  identifier_bytes, close, slice_many, slice_one, serialize_dict_type, list_type, tuple_type,
  unpack_type, call_type,
}
use ast_serialize.Serialize.Types.Unbound.{
  write_optional, serialize_invalid_type, invalid_type, serialize_simple_unbound_type,
  serialize_attribute_type, serialize_subscript_type,
}

module _ (c : Context) (string_type : Text → TextRange → Action) where
  unfoldable mutual
    unfolding ◌>>◌ skip write_tag append close unevaluated serialize_simple_unbound_type slice_many
        slice_one serialize_attribute_type serialize_subscript_type serialize_union_type
        serialize_int_type invalid_type serialize_invalid_type call_note serialize_dict_type
        list_type tuple_type unpack_type call_type string_value extract_int_literal_value exprs_len
        keywords_len write_optional

    -- `serialize_type`, given what it does with the text of a string literal.
    pub serialize_type_by : Expr → Action
    serialize_type_by (name range id _) =
        close c range (serialize_simple_unbound_type (utf8 id) none none)
    serialize_type_by (attribute range value attr ctx) =
        close c range (serialize_attribute_type c (attribute range value attr ctx) none none)
    serialize_type_by (subscript range value (tuple _ elts _ _) _) = close c range (
        serialize_subscript_type c value (slice_many (exprs_len elts) (serialize_types elts)) none
          none)
    serialize_type_by (subscript range value index _) =
        close c range
          (serialize_subscript_type c value (slice_one (serialize_type_by index)) none none)
    serialize_type_by (none_literal range) =
        close c range (serialize_simple_unbound_type (codes "None") none none)
    serialize_type_by (boolean_literal range b) = close c range do
      write_tag tag_raw_expression_type
      append (write_bytes (codes "builtins.bool"))
      append (write_bool b)
    serialize_type_by (number_literal range value) =
        close c range
          (serialize_int_type c (extract_int_literal_value (number_literal range value)))
    serialize_type_by (bin_op range left bit_or right) =
        serialize_union_type c (serialize_type_by left) (serialize_type_by right) range none none
    serialize_type_by (list_display range elts _) =
        close c range (list_type (exprs_len elts) (serialize_types_in_list elts))
    serialize_type_by (tuple range elts _ _) =
        close c range (tuple_type (exprs_len elts) (serialize_types elts))
    serialize_type_by (dict range items) =
        close c range (serialize_dict_type c items (serialize_value_types items))
    serialize_type_by (call range func _ keywords) =
        close c range (serialize_invalid_type c (call_note func keywords) none none)
    serialize_type_by (ellipsis_literal range) = close c range (write_tag tag_ellipsis_type)
    serialize_type_by (starred range value _) =
        close c range (unpack_type (serialize_type_by value))
    serialize_type_by (unary_op range u_sub operand) =
        close c range
          (serialize_int_type c (extract_int_literal_value (unary_op range u_sub operand)))
    serialize_type_by (unary_op range u_add operand) =
        close c range (serialize_int_type c (extract_int_literal_value operand))
    serialize_type_by (string_literal range parts) =
        unevaluated (string_type (string_value parts) range)
    serialize_type_by (bytes_literal range parts) = close c range do
      write_tag tag_raw_expression_type
      append (write_bytes (codes "builtins.bytes"))
      append (write_bytes (serialize_bytes_to_escaped_string parts))
    serialize_type_by e = close c (expr_range e) (invalid_type c)

    pub serialize_types : Exprs → Action
    serialize_types nil = skip
    serialize_types (cons e rest) = do serialize_type_by e; serialize_types rest

    pub serialize_value_types : DictItems → Action
    serialize_value_types no_items = skip
    serialize_value_types (item _ value rest) = do
      serialize_type_by value
      serialize_value_types rest

    pub serialize_keyword_types : Keywords → Action
    serialize_keyword_types no_keywords = skip
    serialize_keyword_types (keyword arg value rest) = do
      write_optional (identifier_bytes arg)
      serialize_type_by value
      serialize_keyword_types rest

    -- The loop over a list, with `serialize_type_in_list` in it.
    pub serialize_types_in_list : Exprs → Action
    serialize_types_in_list nil = skip
    serialize_types_in_list (cons (call range func args keywords) rest) = do
      close c range (
          call_type (serialize_type_by func) (exprs_len args) (serialize_types args)
            (keywords_len keywords) (serialize_keyword_types keywords))
      serialize_types_in_list rest
    serialize_types_in_list (cons e rest) = do serialize_type_by e; serialize_types_in_list rest

unfoldable pub builtins_str : Text
builtins_str = codes "builtins.str"

-- A string literal that is no type.
unfoldable pub serialize_raw_string : Context → Text → TextRange → Action
unfolding ◌>>◌ write_tag append write_bytes write_text close builtins_str
serialize_raw_string c value range =
    close c range
      do write_tag tag_raw_expression_type; append (write_bytes builtins_str); write_text value

-- `format!("({})", string_value)`
abbrev pub wrapped : Text → Text
wrapped value = codes "(" ++ (value ++ codes ")")

-- `serialize_string_type` on the parsed expression, given what is done with the text of a string
-- literal in it.
module _ (c : Context) (string_type : Text → TextRange → Action) where
  -- The match on the slice in `serialize_subscript_type`.
  unfoldable pub serialize_slice : Expr → Action
  unfolding slice_many slice_one exprs_len serialize_types serialize_type_by
  serialize_slice (tuple _ elts _ _) =
      slice_many (exprs_len elts) (serialize_types c string_type elts)
  serialize_slice e = slice_one (serialize_type_by c string_type e)

  unfoldable pub serialize_parsed : Text → TextRange → Option Expr → Action
  unfolding close serialize_simple_unbound_type serialize_attribute_type serialize_subscript_type
      serialize_union_type serialize_raw_string serialize_type_by serialize_slice builtins_str
  serialize_parsed value range (some (name _ id _)) =
      close c range
        (serialize_simple_unbound_type (utf8 id) (some (utf8 value)) (some builtins_str))
  serialize_parsed value range (some (attribute r e attr ctx)) =
      close c range (
        serialize_attribute_type c (attribute r e attr ctx) (some (utf8 value)) (some builtins_str))
  serialize_parsed value range (some (subscript _ e index _)) = close c range (
      serialize_subscript_type c e (serialize_slice (c.relocate_expr index range))
        (some (utf8 value)) (some builtins_str))
  serialize_parsed value range (some (bin_op _ left bit_or right)) =
      serialize_union_type c (serialize_type_by c string_type (c.relocate_expr left range))
        (serialize_type_by c string_type (c.relocate_expr right range)) range (some (utf8 value))
        (some builtins_str)
  serialize_parsed value range (some (none_literal _)) =
      close c range
        (serialize_simple_unbound_type (codes "None") (some (utf8 value)) (some builtins_str))
  serialize_parsed value range _ = serialize_raw_string c value range

-- The fuel bounds how deep quoted types stand inside one another.
unfoldable pub string_type : Context → (fuel : ℕ) → Text → TextRange → Action
unfolding panic serialize_parsed
string_type c zero value range = panic
string_type c (suc fuel) value range =
    serialize_parsed c (string_type c fuel) value range (c.parse_expression (wrapped value))

unfoldable pub serialize_string_type : Context → Text → TextRange → Action
unfolding string_type
serialize_string_type c value range = string_type c (suc (length value)) value range

unfoldable pub serialize_type : Context → Expr → Action
unfolding serialize_type_by serialize_string_type
serialize_type c = serialize_type_by c (serialize_string_type c)
