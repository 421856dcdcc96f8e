-- ===== src/Serialize/Tags.antt =====
-- src/serialize_ast.rs: the tags of expressions and types, and the kinds of parameters.
use ast_serialize.Common.{ℕ}

abbrev pub tag_literal_float : ℕ
tag_literal_float = 6

abbrev pub tag_list_int : ℕ
tag_list_int = 21

abbrev pub tag_call_expr : ℕ
tag_call_expr = 161

abbrev pub tag_name_expr : ℕ
tag_name_expr = 162

abbrev pub tag_str_expr : ℕ
tag_str_expr = 163

abbrev pub tag_member_expr : ℕ
tag_member_expr = 165

abbrev pub tag_op_expr : ℕ
tag_op_expr = 166

abbrev pub tag_int_expr : ℕ
tag_int_expr = 167

abbrev pub tag_tuple_expr : ℕ
tag_tuple_expr = 170

abbrev pub tag_block : ℕ
tag_block = 171

abbrev pub tag_index : ℕ
tag_index = 172

abbrev pub tag_list_expr : ℕ
tag_list_expr = 173

abbrev pub tag_set_expr : ℕ
tag_set_expr = 174

abbrev pub tag_return : ℕ
tag_return = 175

abbrev pub tag_comparison_expr : ℕ
tag_comparison_expr = 177

abbrev pub tag_bool_op_expr : ℕ
tag_bool_op_expr = 178

abbrev pub tag_float_expr : ℕ
tag_float_expr = 181

abbrev pub tag_unary_expr : ℕ
tag_unary_expr = 182

abbrev pub tag_dict_expr : ℕ
tag_dict_expr = 183

abbrev pub tag_complex_expr : ℕ
tag_complex_expr = 184

abbrev pub tag_slice_expr : ℕ
tag_slice_expr = 185

abbrev pub tag_generator_expr : ℕ
tag_generator_expr = 190

abbrev pub tag_yield_expr : ℕ
tag_yield_expr = 191

abbrev pub tag_yield_from_expr : ℕ
tag_yield_from_expr = 192

abbrev pub tag_list_comprehension : ℕ
tag_list_comprehension = 193

abbrev pub tag_set_comprehension : ℕ
tag_set_comprehension = 194

abbrev pub tag_dict_comprehension : ℕ
tag_dict_comprehension = 195

abbrev pub tag_ellipsis_expr : ℕ
tag_ellipsis_expr = 202

abbrev pub tag_conditional_expr : ℕ
tag_conditional_expr = 203

abbrev pub tag_fstring_expr : ℕ
tag_fstring_expr = 205

abbrev pub tag_fstring_interpolation : ℕ
tag_fstring_interpolation = 206

abbrev pub tag_lambda_expr : ℕ
tag_lambda_expr = 207

abbrev pub tag_assignment_expr : ℕ
tag_assignment_expr = 208

abbrev pub tag_star_expr : ℕ
tag_star_expr = 209

abbrev pub tag_bytes_expr : ℕ
tag_bytes_expr = 210

abbrev pub tag_await_expr : ℕ
tag_await_expr = 213

abbrev pub tag_big_int_expr : ℕ
tag_big_int_expr = 214

abbrev pub tag_tstring_expr : ℕ
tag_tstring_expr = 229

abbrev pub tag_unbound_type : ℕ
tag_unbound_type = 104

abbrev pub tag_tuple_type : ℕ
tag_tuple_type = 112

abbrev pub tag_typed_dict_type : ℕ
tag_typed_dict_type = 113

abbrev pub tag_union_type : ℕ
tag_union_type = 115

abbrev pub tag_list_type : ℕ
tag_list_type = 118

abbrev pub tag_ellipsis_type : ℕ
tag_ellipsis_type = 119

abbrev pub tag_raw_expression_type : ℕ
tag_raw_expression_type = 120

abbrev pub tag_call_type : ℕ
tag_call_type = 121

abbrev pub tag_unpack_type : ℕ
tag_unpack_type = 105

abbrev pub arg_pos : ℕ
arg_pos = 0

abbrev pub arg_opt : ℕ
arg_opt = 1

abbrev pub arg_star : ℕ
arg_star = 2

abbrev pub arg_named : ℕ
arg_named = 3

abbrev pub arg_star2 : ℕ
arg_star2 = 4

abbrev pub arg_named_opt : ℕ
arg_named_opt = 5

abbrev pub type_var_kind : ℕ
type_var_kind = 0

abbrev pub param_spec_kind : ℕ
param_spec_kind = 1

abbrev pub type_var_tuple_kind : ℕ
type_var_tuple_kind = 2
