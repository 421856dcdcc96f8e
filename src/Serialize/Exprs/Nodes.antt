-- ===== src/Serialize/Exprs/Nodes.antt =====
-- src/serialize_ast.rs, `Ser` for `ast::Expr`.
use ast_serialize.Common.{
  ℕ, suc, ◌+◌, Bool, true, false, List, [], Option, leb, get_elem?, if◌then◌else◌, Text, codes,
  length,
}
use ast_serialize.Common.Int.{pos}
use ast_serialize.Options.{cv_dict_key_opt}
use ast_serialize.Ast.Expr.{
  TextRange, Expr, Exprs, nil, cons, OptExpr, absent, present, Comprehensions, no_comprehensions,
  comprehension, DictItems, no_items, item, Keywords, no_keywords, keyword, FStringParts, no_parts,
  literal_part, f_string_part, TStrings, no_t_strings, t_string_part, Elements, no_elements,
  literal_element, interpolation, OptSpec, no_spec, some_spec, ParametersWithDefault, no_more,
  with_default, Parameters, parameters, OptParameters, no_parameters, some_parameters, bool_op,
  named, bin_op, unary_op, lambda, if_expr, dict, set_display, list_comp, set_comp, dict_comp,
  generator, await, yield_expr, yield_from, compare, call, f_string, t_string, string_literal,
  bytes_literal, number_literal, boolean_literal, none_literal, ellipsis_literal, attribute,
  subscript, starred, name, list_display, tuple, slice, ipy_escape_command,
}
use ast_serialize.Ast.Ranges.{expr_range}
use ast_serialize.Wire.{
  write_int, write_tagged_int, write_usize, write_bool, write_bytes, tag_list_gen,
}
use ast_serialize.Escape.{serialize_bytes_to_escaped_string}
use ast_serialize.Serialize.{
  Context, Action, ◌>>◌, skip, panic, reading, append, write_tag, write_end_tag, append_location,
  write_text, add_error, reset_surrogates, text_at,
}
use ast_serialize.Serialize.Tags.{
  arg_named, arg_named_opt, arg_opt, arg_pos, arg_star, arg_star2, tag_assignment_expr,
  tag_await_expr, tag_block, tag_bool_op_expr, tag_bytes_expr, tag_call_expr, tag_comparison_expr,
  tag_conditional_expr, tag_dict_comprehension, tag_dict_expr, tag_ellipsis_expr, tag_fstring_expr,
  tag_fstring_interpolation, tag_generator_expr, tag_index, tag_lambda_expr, tag_list_comprehension,
  tag_list_int, tag_member_expr, tag_name_expr, tag_op_expr, tag_return, tag_set_comprehension,
  tag_set_expr, tag_slice_expr, tag_star_expr, tag_str_expr, tag_tstring_expr, tag_tuple_expr,
  tag_unary_expr, tag_yield_expr, tag_yield_from_expr,
}
use ast_serialize.Serialize.Names.{argument_elide_name}
use ast_serialize.Serialize.Types.{exprs_len, keywords_len, items_len, close, typed_list}
use ast_serialize.Serialize.Exprs.{write_call_kinds, write_call_names, serialize_generators}
use ast_serialize.Serialize.Exprs.Strings.{
  write_surrogates, write_string, write_piece, parts_len, elements_len, debug_items, t_elements_len,
  write_source, write_debug, conversion_of, write_conversion, use_template_strings,
}
use ast_serialize.Serialize.Exprs.Operators.{
  operator_code, unary_code, bool_code, write_cmp_ops, list_tag, write_number, write_name,
  bool_name,
}
use ast_serialize.Serialize.Exprs.Arguments.{
  defaults_len, parameters_len, no_comments, kind_of, serialize_argument, serialize_variadic,
  parameter_id, opt_len,
}

module _ (c : Context) where
  unfoldable mutual
    unfolding ◌>>◌ skip panic reading append write_tag write_end_tag append_location write_text
        add_error reset_surrogates exprs_len keywords_len items_len close typed_list write_cmp_ops
        write_number write_name write_surrogates write_string write_piece write_call_kinds
        write_call_names serialize_generators parts_len elements_len debug_items t_elements_len
        write_source write_debug write_conversion use_template_strings parameters_len no_comments
        serialize_argument serialize_variadic argument_elide_name

    pub serialize_expr : Expr → Action
    serialize_expr (name range id _) = close c range do write_tag tag_name_expr; write_text id
    serialize_expr (attribute range value attr _) =
        close c range do write_tag tag_member_expr; serialize_expr value; write_text attr.id
    serialize_expr (string_literal range parts) =
        close c range do write_tag tag_str_expr; write_string c parts
    serialize_expr (call range func args keywords) = close c range do
      write_tag tag_call_expr
      serialize_expr func
      write_tag tag_list_gen
      append (write_int (pos (exprs_len args + keywords_len keywords)))
      serialize_args args
      serialize_keywords keywords
      write_call_kinds args keywords
      write_call_names args keywords
    serialize_expr (bin_op _ left op right) = do
      write_tag tag_op_expr
      append (write_tagged_int (pos (operator_code op)))
      serialize_expr left
      serialize_expr right
      write_end_tag
    serialize_expr (number_literal range value) = close c range (write_number c range value)
    serialize_expr (subscript range value index _) =
        close c range do write_tag tag_index; serialize_expr value; serialize_expr index
    serialize_expr (list_display range elts ctx) =
        close c range
          do write_tag (list_tag ctx); typed_list (exprs_len elts) (serialize_exprs elts)
    serialize_expr (tuple range elts _ _) =
        close c range
          do write_tag tag_tuple_expr; typed_list (exprs_len elts) (serialize_exprs elts)
    serialize_expr (set_display range elts) =
        close c range do write_tag tag_set_expr; typed_list (exprs_len elts) (serialize_exprs elts)
    serialize_expr (generator range elt generators) = close c range do
      write_tag tag_generator_expr
      serialize_expr elt
      serialize_generators generators (serialize_targets generators) (serialize_iters generators)
          (serialize_condlists generators)
    serialize_expr (list_comp range elt generators) = close c range do
      write_tag tag_list_comprehension
      serialize_expr elt
      serialize_generators generators (serialize_targets generators) (serialize_iters generators)
          (serialize_condlists generators)
    serialize_expr (set_comp range elt generators) = close c range do
      write_tag tag_set_comprehension
      serialize_expr elt
      serialize_generators generators (serialize_targets generators) (serialize_iters generators)
          (serialize_condlists generators)
    serialize_expr (dict_comp range key value generators) = close c range do
      write_tag tag_dict_comprehension
      serialize_comp_key range key
      serialize_expr value
      serialize_generators generators (serialize_targets generators) (serialize_iters generators)
          (serialize_condlists generators)
    serialize_expr (yield_expr range value) =
        close c range do write_tag tag_yield_expr; serialize_opt value
    serialize_expr (yield_from range value) =
        close c range do write_tag tag_yield_from_expr; serialize_expr value
    serialize_expr (bool_op range op values) = close c range do
      write_tag tag_bool_op_expr
      append (write_tagged_int (pos (bool_code op)))
      typed_list (exprs_len values) (serialize_exprs values)
    serialize_expr (compare range left ops comparators) = close c range do
      write_tag tag_comparison_expr
      serialize_expr left
      write_tag tag_list_int
      append (write_usize (length ops))
      append (write_cmp_ops ops)
      typed_list (exprs_len comparators) (serialize_exprs comparators)
    serialize_expr (boolean_literal range value) =
        close c range do write_tag tag_name_expr; append (write_bytes (bool_name value))
    serialize_expr (none_literal range) =
        close c range do write_tag tag_name_expr; append (write_bytes (codes "None"))
    serialize_expr (ellipsis_literal range) = close c range (write_tag tag_ellipsis_expr)
    serialize_expr (if_expr range test body orelse) = close c range do
      write_tag tag_conditional_expr
      serialize_expr body
      serialize_expr test
      serialize_expr orelse
    serialize_expr (unary_op range op operand) = close c range do
      write_tag tag_unary_expr
      append (write_tagged_int (pos (unary_code op)))
      serialize_expr operand
    serialize_expr (dict range items) = close c range do
      write_tag tag_dict_expr
      typed_list (items_len items) (serialize_keys items)
      typed_list (items_len items) (serialize_values items)
    serialize_expr (slice range lower upper step) =
        close c range
          do write_tag tag_slice_expr; serialize_opt lower; serialize_opt upper; serialize_opt step
    serialize_expr (f_string range parts) = close c range do
      write_tag tag_fstring_expr
      append (write_tagged_int (pos (parts_len parts)))
      reset_surrogates
      serialize_parts parts
      write_surrogates c
    serialize_expr (lambda range params body) = close c range do
      write_tag tag_lambda_expr
      serialize_opt_parameters params
      write_tag tag_block
      write_tag tag_list_gen
      append (write_int (pos 1))
      reading λ s. append (write_bool s.current_unreachable)
      write_tag tag_return
      append (write_bool true)
      serialize_expr body
      append_location c (expr_range body)
      write_end_tag
      write_end_tag
    serialize_expr (named range target value) =
        close c range do write_tag tag_assignment_expr; serialize_expr target; serialize_expr value
    serialize_expr (starred range value _) =
        close c range do write_tag tag_star_expr; serialize_expr value
    serialize_expr (bytes_literal range parts) =
        close c range do
          write_tag tag_bytes_expr
          append (write_bytes (serialize_bytes_to_escaped_string parts))
    serialize_expr (await range value) =
        close c range do write_tag tag_await_expr; serialize_expr value
    serialize_expr (t_string range strings) = close c range do
      use_template_strings
      write_tag tag_tstring_expr
      append (write_tagged_int (pos (t_elements_len strings)))
      reset_surrogates
      serialize_t_strings strings
      write_surrogates c
    serialize_expr (ipy_escape_command _) = panic

    pub serialize_exprs : Exprs → Action
    serialize_exprs nil = skip
    serialize_exprs (cons e rest) = do serialize_expr e; serialize_exprs rest

    -- `Ser` for an optional expression.
    pub serialize_opt : OptExpr → Action
    serialize_opt absent = append (write_bool false)
    serialize_opt (present e) = do append (write_bool true); serialize_expr e

    -- The positional arguments of a call, a starred one without its star.
    pub serialize_args : Exprs → Action
    serialize_args nil = skip
    serialize_args (cons (starred _ value _) rest) = do serialize_expr value; serialize_args rest
    serialize_args (cons e rest) = do serialize_expr e; serialize_args rest

    pub serialize_keywords : Keywords → Action
    serialize_keywords no_keywords = skip
    serialize_keywords (keyword _ value rest) = do serialize_expr value; serialize_keywords rest

    pub serialize_targets : Comprehensions → Action
    serialize_targets no_comprehensions = skip
    serialize_targets (comprehension target _ _ _ rest) = do
      serialize_expr target
      serialize_targets rest

    pub serialize_iters : Comprehensions → Action
    serialize_iters no_comprehensions = skip
    serialize_iters (comprehension _ iter _ _ rest) = do serialize_expr iter; serialize_iters rest

    pub serialize_condlists : Comprehensions → Action
    serialize_condlists no_comprehensions = skip
    serialize_condlists (comprehension _ _ ifs _ rest) = do
      typed_list (exprs_len ifs) (serialize_exprs ifs)
      serialize_condlists rest

    pub serialize_comp_key : TextRange → OptExpr → Action
    serialize_comp_key range absent =
        if leb cv_dict_key_opt c.options.cache_version then append (write_bool false) else (do
          add_error c (codes "PEP 798 is not supported yet") range true
          write_name c range (codes "None"))
    serialize_comp_key range (present key) =
        let serialize_key = serialize_expr key in
        if leb cv_dict_key_opt c.options.cache_version
        then (do append (write_bool true); serialize_key)
        else serialize_key

    pub serialize_keys : DictItems → Action
    serialize_keys no_items = skip
    serialize_keys (item key _ rest) = do serialize_opt key; serialize_keys rest

    pub serialize_values : DictItems → Action
    serialize_values no_items = skip
    serialize_values (item _ value rest) = do serialize_expr value; serialize_values rest

    pub serialize_parts : FStringParts → Action
    serialize_parts no_parts = skip
    serialize_parts (f_string_part elements rest) = do
      append (write_bool true)
      append (write_tagged_int (pos (elements_len elements + debug_items elements)))
      serialize_elements elements
      serialize_parts rest
    serialize_parts (literal_part literal rest) = do
      append (write_bool false)
      write_piece c literal.value literal.range
      serialize_parts rest

    -- The loop of `serialize_fstring_elements`.
    pub serialize_elements : Elements → Action
    serialize_elements no_elements = skip
    serialize_elements (literal_element value range rest) = do
      write_piece c value range
      serialize_elements rest
    serialize_elements (interpolation expression debug flag format_spec rest) = do
      write_debug c debug (expr_range expression)
      write_tag tag_fstring_interpolation
      serialize_expr expression
      write_conversion (codes "!") (conversion_of debug flag format_spec)
      serialize_spec format_spec
      write_end_tag
      serialize_elements rest

    pub serialize_spec : OptSpec → Action
    serialize_spec no_spec = append (write_bool false)
    serialize_spec (some_spec range elements) = do
      append (write_bool true)
      append (write_tagged_int (pos (elements_len elements + debug_items elements)))
      serialize_elements elements
      append_location c range

    pub serialize_t_strings : TStrings → Action
    serialize_t_strings no_t_strings = skip
    serialize_t_strings (t_string_part elements rest) = do
      serialize_t_elements elements
      serialize_t_strings rest

    pub serialize_t_elements : Elements → Action
    serialize_t_elements no_elements = skip
    serialize_t_elements (literal_element value range rest) = do
      append (write_bool false)
      write_piece c value range
      serialize_t_elements rest
    serialize_t_elements (interpolation expression _ flag format_spec rest) = do
      append (write_bool true)
      serialize_expr expression
      write_source [] (text_at c.source (expr_range expression)) []
      write_conversion [] flag
      serialize_spec format_spec
      serialize_t_elements rest

    pub serialize_opt_parameters : OptParameters → Action
    serialize_opt_parameters no_parameters = typed_list 0 skip
    serialize_opt_parameters (some_parameters params) =
        serialize_parameters (no_comments (parameters_len params)) params

    pub serialize_parameters : List (Option Expr) → Parameters → Action
    serialize_parameters arg_comments (parameters posonlyargs args vararg kwonlyargs kwarg) =
        let args_idx = defaults_len posonlyargs in
        let vararg_idx = args_idx + defaults_len args in
        typed_list (parameters_len (parameters posonlyargs args vararg kwonlyargs kwarg)) do
          serialize_with_defaults arg_comments 0 (λ _. true) arg_pos arg_opt posonlyargs
          serialize_with_defaults arg_comments args_idx argument_elide_name arg_pos arg_opt args
          serialize_variadic c arg_comments vararg_idx arg_star vararg
          serialize_with_defaults arg_comments (vararg_idx + opt_len vararg) (λ _. false) arg_named
              arg_named_opt kwonlyargs
          serialize_variadic c arg_comments (vararg_idx + opt_len vararg + defaults_len kwonlyargs)
              arg_star2 kwarg

    -- The loops over the parameters that may have a default, from the index `idx` on.
    pub serialize_with_defaults :
        List (Option Expr)
        → (idx : ℕ) → (pos_only : Text → Bool) → (kind_no_default kind_with_default : ℕ)
        → ParametersWithDefault
        → Action
    serialize_with_defaults arg_comments idx pos_only no_default has_default no_more = skip
    serialize_with_defaults arg_comments idx pos_only no_default has_default
          (with_default param value rest) =
        do
          serialize_argument c param (get_elem? arg_comments idx) (serialize_opt value)
              (kind_of value no_default has_default) (pos_only (parameter_id param).id)
          serialize_with_defaults arg_comments (suc idx) pos_only no_default has_default rest
