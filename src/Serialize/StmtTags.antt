-- ===== src/Serialize/StmtTags.antt =====
-- src/serialize_ast.rs: the tags of statements and patterns.
use ast_serialize.Common.{ℕ}

abbrev pub tag_dict_str_gen : ℕ
tag_dict_str_gen = 30

abbrev pub tag_decorator : ℕ
tag_decorator = 53

abbrev pub tag_class_def : ℕ
tag_class_def = 60

abbrev pub tag_expr_stmt : ℕ
tag_expr_stmt = 160

abbrev pub tag_import : ℕ
tag_import = 164

abbrev pub tag_if : ℕ
tag_if = 168

abbrev pub tag_assign : ℕ
tag_assign = 169

abbrev pub tag_while : ℕ
tag_while = 176

abbrev pub tag_func_def : ℕ
tag_func_def = 179

abbrev pub tag_pass_stmt : ℕ
tag_pass_stmt = 180

abbrev pub tag_temp_node : ℕ
tag_temp_node = 186

abbrev pub tag_raise_stmt : ℕ
tag_raise_stmt = 187

abbrev pub tag_break_stmt : ℕ
tag_break_stmt = 188

abbrev pub tag_continue_stmt : ℕ
tag_continue_stmt = 189

abbrev pub tag_import_from : ℕ
tag_import_from = 196

abbrev pub tag_assert_stmt : ℕ
tag_assert_stmt = 197

abbrev pub tag_for_stmt : ℕ
tag_for_stmt = 198

abbrev pub tag_with_stmt : ℕ
tag_with_stmt = 199

abbrev pub tag_operator_assignment_stmt : ℕ
tag_operator_assignment_stmt = 200

abbrev pub tag_try_stmt : ℕ
tag_try_stmt = 201

abbrev pub tag_del_stmt : ℕ
tag_del_stmt = 204

abbrev pub tag_global_decl : ℕ
tag_global_decl = 211

abbrev pub tag_nonlocal_decl : ℕ
tag_nonlocal_decl = 212

abbrev pub tag_import_all : ℕ
tag_import_all = 215

abbrev pub tag_match_stmt : ℕ
tag_match_stmt = 216

abbrev pub tag_as_pattern : ℕ
tag_as_pattern = 217

abbrev pub tag_or_pattern : ℕ
tag_or_pattern = 218

abbrev pub tag_value_pattern : ℕ
tag_value_pattern = 219

abbrev pub tag_singleton_pattern : ℕ
tag_singleton_pattern = 220

abbrev pub tag_sequence_pattern : ℕ
tag_sequence_pattern = 221

abbrev pub tag_starred_pattern : ℕ
tag_starred_pattern = 222

abbrev pub tag_mapping_pattern : ℕ
tag_mapping_pattern = 223

abbrev pub tag_class_pattern : ℕ
tag_class_pattern = 224

abbrev pub tag_type_alias_stmt : ℕ
tag_type_alias_stmt = 225
