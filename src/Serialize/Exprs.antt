-- ===== src/Serialize/Exprs.antt =====
-- src/serialize_ast.rs, `Ser` for `ast::Expr`: what the branches write beside their sub-expressions.
pub mod Strings
pub mod Operators
pub mod Arguments
pub mod Nodes
pub mod Parts
pub mod Grow
pub mod Resets
use ast_serialize.Common.{
  ℕ, zero, suc, ◌+◌, Bool, true, false, ◌&&◌, List, [], ◌∷◌, ◌++◌, Option, none, some, leb,
  if◌then◌else◌, Text, codes, length,
}
use ast_serialize.Common.Int.{ℤ, pos}
use ast_serialize.Options.{cv_unicode_surrogate}
use ast_serialize.Ast.Expr.{
  TextRange, Identifier, StringLiteral, DebugText, BoolOp, and_op, or_op, UnaryOp, invert_op,
  not_op, u_add, u_sub, CmpOp, eq, not_eq, lt, lt_e, gt, gt_e, is_op, is_not, in_op, not_in,
  Operator, add, sub, mult, mat_mult, div, mod_op, pow, l_shift, r_shift, bit_or, bit_xor, bit_and,
  floor_div, ExprContext, load, store, del, invalid, Number, int, float, complex, ConversionFlag,
  no_conversion, str_conversion, ascii_conversion, repr_conversion, Expr, Exprs, nil, cons, starred,
  OptExpr, absent, present, Keywords, no_keywords, keyword, Comprehensions, no_comprehensions,
  comprehension, Parameter, parameter, OptParameter, no_parameter, one_parameter,
  ParametersWithDefault, no_more, with_default, Parameters, parameters, FStringParts, no_parts,
  literal_part, f_string_part, TStrings, no_t_strings, t_string_part, Elements, no_elements,
  literal_element, interpolation, OptSpec, no_spec, some_spec,
}
use ast_serialize.Wire.{
  le_bytes, write_int, write_tagged_int, write_usize, write_bool, write_bytes, tag_literal_none,
  tag_literal_str, tag_list_gen,
}
use ast_serialize.Serialize.{
  Context, Serializer, Action, ◌>>◌, skip, panic, reading, append, write_tag, write_end_tag,
  append_location, utf8, write_text, unevaluated, add_error, text_at, check_surrogate,
  reset_surrogates,
}
use ast_serialize.Serialize.Tags.{
  tag_literal_float, tag_float_expr, tag_complex_expr, tag_int_expr, tag_big_int_expr, tag_list_int,
  tag_tuple_expr, tag_list_expr, tag_name_expr, arg_pos, arg_star, arg_named, arg_star2,
}
use ast_serialize.Serialize.Names.{as_i64}
use ast_serialize.Serialize.Types.{exprs_len, keywords_len}
use ast_serialize.Serialize.Types.Annotation.{serialize_type}
use ast_serialize.Serialize.Exprs.Operators.{
  operator_code, unary_code, bool_code, cmp_code, write_cmp_ops, list_tag, write_int_literal,
  write_float, write_number, write_name, bool_name,
}
use ast_serialize.Serialize.Exprs.Strings.{
  write_surrogates, string_len, write_literal_parts, write_string, write_piece, parts_len,
  elements_len, debug_items, t_elements_len, write_source, write_debug, conversion_of,
  write_conversion, use_template_strings,
}

-- The kinds and the names of the arguments of a call.
unfoldable pub arg_kinds : Exprs → List ℕ
unfolding write_int
arg_kinds nil = []
arg_kinds (cons (starred _ _ _) rest) = write_int (pos arg_star) ++ arg_kinds rest
arg_kinds (cons _ rest) = write_int (pos arg_pos) ++ arg_kinds rest

unfoldable pub keyword_kinds : Keywords → List ℕ
unfolding write_int
keyword_kinds no_keywords = []
keyword_kinds (keyword none _ rest) = write_int (pos arg_star2) ++ keyword_kinds rest
keyword_kinds (keyword (some _) _ rest) = write_int (pos arg_named) ++ keyword_kinds rest

unfoldable pub arg_names : Exprs → List ℕ
arg_names nil = []
arg_names (cons _ rest) = tag_literal_none ∷ arg_names rest

unfoldable pub keyword_names : Keywords → List ℕ
unfolding write_bytes utf8
keyword_names no_keywords = []
keyword_names (keyword none _ rest) = tag_literal_none ∷ keyword_names rest
keyword_names (keyword (some arg) _ rest) = write_bytes (utf8 arg.id) ++ keyword_names rest

unfoldable pub write_call_kinds : Exprs → Keywords → Action
unfolding ◌>>◌ write_tag append write_int exprs_len keywords_len arg_kinds keyword_kinds
write_call_kinds args keywords = do
  write_tag tag_list_int
  append (write_int (pos (exprs_len args + keywords_len keywords)))
  append (arg_kinds args ++ keyword_kinds keywords)

unfoldable pub write_call_names : Exprs → Keywords → Action
unfolding ◌>>◌ write_tag append write_int exprs_len keywords_len arg_names keyword_names
write_call_names args keywords = do
  write_tag tag_list_gen
  append (write_int (pos (exprs_len args + keywords_len keywords)))
  append (arg_names args ++ keyword_names keywords)

unfoldable pub comprehensions_len : Comprehensions → ℕ
comprehensions_len no_comprehensions = 0
comprehensions_len (comprehension _ _ _ _ rest) = suc (comprehensions_len rest)

unfoldable pub async_flags : Comprehensions → List ℕ
unfolding write_bool
async_flags no_comprehensions = []
async_flags (comprehension _ _ _ is_async rest) = write_bool is_async ++ async_flags rest

-- `serialize_comprehension` behind the element, given what the three loops write.
unfoldable pub serialize_generators : Comprehensions → (targets iters condlists : Action) → Action
unfolding ◌>>◌ append write_tagged_int comprehensions_len async_flags
serialize_generators generators targets iters condlists = do
  append (write_tagged_int (pos (comprehensions_len generators)))
  targets
  iters
  condlists
  append (async_flags generators)
