-- ===== src/Serialize/Types/Append.antt =====
-- The serialization of a type: the part of the state that it changes.
use ast_serialize.Common.{ℕ, zero, suc, Option, none, some, Text}
use ast_serialize.Ast.Expr.{
  TextRange, bit_or, u_add, u_sub, Expr, Exprs, nil, cons, DictItems, no_items, item, Keywords,
  no_keywords, keyword, subscript, bin_op, list_display, tuple, dict, call, starred, unary_op,
  string_literal,
}
use ast_serialize.Serialize.{Context, Action}
use ast_serialize.Serialize.Keeps.{Keeps, Keeps-then}
use ast_serialize.Serialize.Writes.{Writes, Writes-IsPreorder, writes_rules}
use ast_serialize.Serialize.Types.Annotation.{
  serialize_type_by, serialize_types, serialize_value_types, serialize_keyword_types,
  serialize_types_in_list, serialize_raw_string, serialize_slice, serialize_parsed, string_type,
  serialize_string_type, serialize_type, wrapped,
}
use ast_serialize.Serialize.Types.Writes.{
  serialize_subscript_type-Writes, close-Writes, slice_many-Writes, slice_one-Writes, type_rules,
}

module _ (c : Context) (string_type : Text → TextRange → Action)
    (k : (t : Text) (r : TextRange) → Keeps Writes (string_type t r)) where
  mutual
    unfolding serialize_type_by serialize_types serialize_value_types serialize_keyword_types
        serialize_types_in_list

    pub serialize_type_by-Writes : (e : Expr) → Keeps Writes (serialize_type_by c string_type e)
    serialize_type_by-Writes (subscript range value (tuple _ elts _ _) _) =
        let k = serialize_types-Writes elts in search type_rules depth 8
    serialize_type_by-Writes (subscript range value index _) = close-Writes c range _ (
        serialize_subscript_type-Writes c value _ none none
          (slice_one-Writes _ (serialize_type_by-Writes index)))
    serialize_type_by-Writes (bin_op range left bit_or right) =
        let k = serialize_type_by-Writes left in
        let l = serialize_type_by-Writes right in search type_rules depth 8
    serialize_type_by-Writes (list_display range elts _) =
        let k = serialize_types_in_list-Writes elts in search type_rules depth 8
    serialize_type_by-Writes (tuple range elts _ _) =
        let k = serialize_types-Writes elts in search type_rules depth 8
    serialize_type_by-Writes (dict range items) =
        let k = serialize_value_types-Writes items in search type_rules depth 8
    serialize_type_by-Writes (starred range value _) =
        let k = serialize_type_by-Writes value in search type_rules depth 8
    serialize_type_by-Writes (unary_op _ u_sub _) = search type_rules depth 8
    serialize_type_by-Writes (unary_op _ u_add _) = search type_rules depth 8
    serialize_type_by-Writes (string_literal range ps) = search (type_rules, k) depth 8
    serialize_type_by-Writes _ = search type_rules depth 8

    serialize_types-Writes : (es : Exprs) → Keeps Writes (serialize_types c string_type es)
    serialize_types-Writes nil = search type_rules
    serialize_types-Writes (cons e rest) =
        let k = serialize_type_by-Writes e in
        let l = serialize_types-Writes rest in search type_rules

    serialize_value_types-Writes :
        (items : DictItems) → Keeps Writes (serialize_value_types c string_type items)
    serialize_value_types-Writes no_items = search type_rules
    serialize_value_types-Writes (item _ value rest) =
        let k = serialize_type_by-Writes value in
        let l = serialize_value_types-Writes rest in search type_rules

    serialize_keyword_types-Writes :
        (kws : Keywords) → Keeps Writes (serialize_keyword_types c string_type kws)
    serialize_keyword_types-Writes no_keywords = search type_rules
    serialize_keyword_types-Writes (keyword arg value rest) =
        let k = serialize_type_by-Writes value in
        let l = serialize_keyword_types-Writes rest in search type_rules

    serialize_types_in_list-Writes :
        (es : Exprs) → Keeps Writes (serialize_types_in_list c string_type es)
    serialize_types_in_list-Writes nil = search type_rules
    serialize_types_in_list-Writes (cons (call range func args keywords) rest) =
        let k = serialize_type_by-Writes func in
        let l = serialize_types-Writes args in
        let m = serialize_keyword_types-Writes keywords in
        let n = serialize_types_in_list-Writes rest in search type_rules depth 10
    serialize_types_in_list-Writes (cons e rest) =
        Keeps-then _ _ Writes-IsPreorder (serialize_type_by-Writes e)
          (serialize_types_in_list-Writes rest)

  serialize_slice-Writes : (e : Expr) → Keeps Writes (serialize_slice c string_type e)
  unfolding serialize_slice
  serialize_slice-Writes (tuple _ elts _ _) = search (slice_many-Writes, serialize_types-Writes)
  serialize_slice-Writes _ = search (slice_one-Writes, serialize_type_by-Writes)

  serialize_raw_string-Writes :
      (value : Text) (range : TextRange) → Keeps Writes (serialize_raw_string c value range)
  unfolding serialize_raw_string
  serialize_raw_string-Writes value range = search type_rules depth 8

  serialize_parsed-Writes :
      (value : Text) (range : TextRange) (parsed : Option Expr)
      → Keeps Writes (serialize_parsed c string_type value range parsed)
  unfolding serialize_parsed
  serialize_parsed-Writes value range (some (subscript _ e index _)) =
      search (type_rules, serialize_slice-Writes) depth 8
  serialize_parsed-Writes value range (some (bin_op _ left bit_or right)) =
      search (type_rules, serialize_type_by-Writes) depth 8
  serialize_parsed-Writes value range _ = search (type_rules, serialize_raw_string-Writes) depth 8

string_type-Writes :
    (c : Context) (fuel : ℕ) (value : Text) (range : TextRange)
    → Keeps Writes (string_type c fuel value range)
unfolding string_type
string_type-Writes c zero value range = search writes_rules
string_type-Writes c (suc fuel) value range =
    serialize_parsed-Writes c (string_type c fuel) (string_type-Writes c fuel) value range
      (c.parse_expression (wrapped value))

-- Where the serialization of a type returns, it has appended bytes and left everything else in the
-- state as it was: the context flags, whether types are evaluated, the imports and the errors.
pub serialize_type-Writes : (c : Context) (e : Expr) → Keeps Writes (serialize_type c e)
unfolding serialize_type serialize_string_type
serialize_type-Writes c =
    serialize_type_by-Writes c (serialize_string_type c)
      (λ value. string_type-Writes c (suc _) value)
