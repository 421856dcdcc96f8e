-- ===== src/Serialize/Types/Unbound.antt =====
-- src/serialize_ast.rs: types that are a name with arguments, and what is no type.
use ast_serialize.Common.{ℕ, false, List, [], Option, none, some, leb, if◌then◌else◌, codes}
use ast_serialize.Common.Int.{pos}
use ast_serialize.Options.{cv_raw_expression_type_notes}
use ast_serialize.Ast.Expr.{Expr}
use ast_serialize.Wire.{write_int, write_bool, write_bytes, tag_literal_none, tag_list_gen}
use ast_serialize.Serialize.{Context, Action, ◌>>◌, skip, panic, append, write_tag}
use ast_serialize.Serialize.Tags.{tag_raw_expression_type, tag_unbound_type}
use ast_serialize.Serialize.Names.{get_qualified_type_name}

-- Text that may be missing.
unfoldable pub write_optional : Option (List ℕ) → Action
unfolding append write_bytes write_tag
write_optional (some s) = append (write_bytes s)
write_optional none = write_tag tag_literal_none

-- The original text of a type in quotes, and the type that is its fallback.
unfoldable pub write_original : (original_str_expr original_str_fallback : Option (List ℕ)) → Action
unfolding ◌>>◌ write_optional
write_original expr fallback = do write_optional expr; write_optional fallback

unfoldable pub write_invalid_note : Context → Option (List ℕ) → Action
unfolding write_optional skip
write_invalid_note c remark =
    if leb cv_raw_expression_type_notes c.options.cache_version then write_optional remark else skip

unfoldable pub write_raw_fallback : Option (List ℕ) → Action
unfolding append write_bytes panic
write_raw_fallback (some fallback) = append (write_bytes fallback)
write_raw_fallback none = panic

unfoldable pub serialize_invalid_type :
    Context → (remark original_str_expr original_str_fallback : Option (List ℕ)) → Action
unfolding ◌>>◌ write_tag append write_bytes write_raw_fallback write_invalid_note
serialize_invalid_type c remark (some expr) fallback = do
  write_tag tag_raw_expression_type
  write_raw_fallback fallback
  append (write_bytes expr)
serialize_invalid_type c remark none fallback = do
  write_tag tag_raw_expression_type
  append (write_bytes (codes "typing.Any"))
  write_tag tag_literal_none
  write_invalid_note c remark

unfoldable pub invalid_type : Context → Action
unfolding serialize_invalid_type
invalid_type c = serialize_invalid_type c none none none

unfoldable pub serialize_simple_unbound_type :
    List ℕ → (original_str_expr original_str_fallback : Option (List ℕ)) → Action
unfolding ◌>>◌ write_tag append write_bytes write_int write_bool write_original
serialize_simple_unbound_type n expr fallback = do
  write_tag tag_unbound_type
  append (write_bytes n)
  write_tag tag_list_gen
  append (write_int (pos 0))
  append (write_bool false)
  write_original expr fallback

-- A type by its qualified name, which may be none.
unfoldable pub serialize_attribute_type :
    Context → Expr → (original_str_expr original_str_fallback : Option (List ℕ)) → Action
unfolding get_qualified_type_name serialize_invalid_type serialize_simple_unbound_type
serialize_attribute_type c e expr fallback =
    let (v, is_name) = get_qualified_type_name [] e in
    if is_name
    then serialize_simple_unbound_type v expr fallback
    else serialize_invalid_type c none expr fallback

-- `serialize_subscript_type`, given the action for the match on the slice.
unfoldable pub serialize_subscript_type :
    Context
    → (value : Expr) → (slice : Action)
    → (original_str_expr original_str_fallback : Option (List ℕ)) → Action
unfolding get_qualified_type_name serialize_invalid_type ◌>>◌ write_tag append write_bytes
    write_original
serialize_subscript_type c value slice expr fallback =
    let (v, is_name) = get_qualified_type_name [] value in
    if is_name
    then (do
      write_tag tag_unbound_type
      append (write_bytes v)
      write_tag tag_list_gen
      slice
      write_original expr fallback)
    else serialize_invalid_type c none expr fallback
