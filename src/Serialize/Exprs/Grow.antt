-- ===== src/Serialize/Exprs/Grow.antt =====
-- The serialization of an expression: the part of the state that it changes.
use ast_serialize.Common.{ℕ, suc, ◌+◌, Bool, true, false, List, Option, Text}
use ast_serialize.Ast.Expr.{
  TextRange, Expr, Exprs, nil, cons, OptExpr, absent, present, Comprehensions, no_comprehensions,
  comprehension, DictItems, no_items, item, Keywords, no_keywords, keyword, FStringParts, no_parts,
  literal_part, f_string_part, TStrings, no_t_strings, t_string_part, Elements, no_elements,
  literal_element, interpolation, OptSpec, no_spec, some_spec, ParametersWithDefault, no_more,
  with_default, Parameters, parameters, OptParameters, no_parameters, some_parameters, bool_op,
  named, bin_op, unary_op, lambda, if_expr, dict, set_display, list_comp, set_comp, dict_comp,
  generator, await, yield_expr, yield_from, compare, call, f_string, t_string, string_literal,
  bytes_literal, number_literal, boolean_literal, none_literal, ellipsis_literal, attribute,
  subscript, starred, name, list_display, tuple, slice, ipy_escape_command,
}
use ast_serialize.Serialize.{Context}
use ast_serialize.Serialize.Tags.{arg_named, arg_named_opt, arg_opt, arg_pos}
use ast_serialize.Serialize.Names.{argument_elide_name}
use ast_serialize.Serialize.Exprs.Arguments.{defaults_len, parameters_len, no_comments, opt_len}
use ast_serialize.Serialize.Keeps.{Keeps, Keeps-then}
use ast_serialize.Serialize.Grows.{Grows, Grows-IsPreorder}
use ast_serialize.Serialize.Exprs.Parts.{expr_rules}
use ast_serialize.Serialize.Exprs.Nodes.{
  serialize_expr, serialize_exprs, serialize_opt, serialize_args, serialize_keywords,
  serialize_targets, serialize_iters, serialize_condlists, serialize_comp_key, serialize_keys,
  serialize_values, serialize_parts, serialize_elements, serialize_spec, serialize_t_strings,
  serialize_t_elements, serialize_opt_parameters, serialize_parameters, serialize_with_defaults,
}

module _ (c : Context) where
  mutual
    unfolding serialize_expr serialize_exprs serialize_opt serialize_args serialize_keywords
        serialize_targets serialize_iters serialize_condlists serialize_comp_key serialize_keys
        serialize_values serialize_parts serialize_elements serialize_spec serialize_t_strings
        serialize_t_elements serialize_opt_parameters serialize_parameters serialize_with_defaults

    expr-Grows : (node : Expr) → Keeps Grows (serialize_expr c node)
    expr-Grows (name range id _) = search expr_rules depth 20
    expr-Grows (attribute range value attr _) =
        let h0 = expr-Grows value in search expr_rules depth 20
    expr-Grows (string_literal range parts) = search expr_rules depth 20
    expr-Grows (call range func args keywords) =
        let h0 = expr-Grows func in
        let h1 = serialize_args-Grows args in
        let h2 = serialize_keywords-Grows keywords in search expr_rules depth 20
    expr-Grows (bin_op _ left op right) =
        let h0 = expr-Grows left in let h1 = expr-Grows right in search expr_rules depth 20
    expr-Grows (number_literal range value) = search expr_rules depth 20
    expr-Grows (subscript range value index _) =
        let h0 = expr-Grows value in let h1 = expr-Grows index in search expr_rules depth 20
    expr-Grows (list_display range elts ctx) =
        let h0 = serialize_exprs-Grows elts in search expr_rules depth 20
    expr-Grows (tuple range elts _ _) =
        let h0 = serialize_exprs-Grows elts in search expr_rules depth 20
    expr-Grows (set_display range elts) =
        let h0 = serialize_exprs-Grows elts in search expr_rules depth 20
    expr-Grows (generator range elt generators) =
        let h0 = expr-Grows elt in
        let h1 = serialize_targets-Grows generators in
        let h2 = serialize_iters-Grows generators in
        let h3 = serialize_condlists-Grows generators in search expr_rules depth 20
    expr-Grows (list_comp range elt generators) =
        let h0 = expr-Grows elt in
        let h1 = serialize_targets-Grows generators in
        let h2 = serialize_iters-Grows generators in
        let h3 = serialize_condlists-Grows generators in search expr_rules depth 20
    expr-Grows (set_comp range elt generators) =
        let h0 = expr-Grows elt in
        let h1 = serialize_targets-Grows generators in
        let h2 = serialize_iters-Grows generators in
        let h3 = serialize_condlists-Grows generators in search expr_rules depth 20
    expr-Grows (dict_comp range key value generators) =
        let h0 = expr-Grows value in
        let h1 = serialize_targets-Grows generators in
        let h2 = serialize_iters-Grows generators in
        let h3 = serialize_condlists-Grows generators in
        let h4 = serialize_comp_key-Grows range key in search expr_rules depth 20
    expr-Grows (yield_expr range value) =
        let h0 = serialize_opt-Grows value in search expr_rules depth 20
    expr-Grows (yield_from range value) = let h0 = expr-Grows value in search expr_rules depth 20
    expr-Grows (bool_op range op values) =
        let h0 = serialize_exprs-Grows values in search expr_rules depth 20
    expr-Grows (compare range left ops comparators) =
        let h0 = expr-Grows left in
        let h1 = serialize_exprs-Grows comparators in search expr_rules depth 20
    expr-Grows (boolean_literal range value) = search expr_rules depth 20
    expr-Grows (none_literal range) = search expr_rules depth 20
    expr-Grows (ellipsis_literal range) = search expr_rules depth 20
    expr-Grows (if_expr range test body orelse) =
        let h0 = expr-Grows body in
        let h1 = expr-Grows test in let h2 = expr-Grows orelse in search expr_rules depth 20
    expr-Grows (unary_op range op operand) =
        let h0 = expr-Grows operand in search expr_rules depth 20
    expr-Grows (dict range items) =
        let h0 = serialize_keys-Grows items in
        let h1 = serialize_values-Grows items in search expr_rules depth 20
    expr-Grows (slice range lower upper step) =
        let h0 = serialize_opt-Grows lower in
        let h1 = serialize_opt-Grows upper in
        let h2 = serialize_opt-Grows step in search expr_rules depth 20
    expr-Grows (f_string range parts) =
        let h0 = serialize_parts-Grows parts in search expr_rules depth 20
    expr-Grows (lambda range params body) =
        let h0 = expr-Grows body in
        let h1 = serialize_opt_parameters-Grows params in search expr_rules depth 20
    expr-Grows (named range target value) =
        let h0 = expr-Grows target in let h1 = expr-Grows value in search expr_rules depth 20
    expr-Grows (starred range value _) = let h0 = expr-Grows value in search expr_rules depth 20
    expr-Grows (bytes_literal range parts) = search expr_rules depth 20
    expr-Grows (await range value) = let h0 = expr-Grows value in search expr_rules depth 20
    expr-Grows (t_string range strings) =
        let h0 = serialize_t_strings-Grows strings in search expr_rules depth 20
    expr-Grows (ipy_escape_command _) = search expr_rules depth 20

    pub serialize_exprs-Grows : (node : Exprs) → Keeps Grows (serialize_exprs c node)
    serialize_exprs-Grows nil = search expr_rules depth 20
    serialize_exprs-Grows (cons e rest) =
        let h0 = expr-Grows e in let h1 = serialize_exprs-Grows rest in search expr_rules depth 20

    pub serialize_opt-Grows : (node : OptExpr) → Keeps Grows (serialize_opt c node)
    serialize_opt-Grows absent = search expr_rules depth 20
    serialize_opt-Grows (present e) = let h0 = expr-Grows e in search expr_rules depth 20

    pub serialize_args-Grows : (node : Exprs) → Keeps Grows (serialize_args c node)
    serialize_args-Grows nil = search expr_rules depth 20
    serialize_args-Grows (cons (starred _ value _) rest) =
        let h0 = expr-Grows value in
        let h1 = serialize_args-Grows rest in search expr_rules depth 20
    serialize_args-Grows (cons e rest) =
        Keeps-then (serialize_expr c e) (serialize_args c rest) Grows-IsPreorder (expr-Grows e)
          (serialize_args-Grows rest)

    pub serialize_keywords-Grows : (node : Keywords) → Keeps Grows (serialize_keywords c node)
    serialize_keywords-Grows no_keywords = search expr_rules depth 20
    serialize_keywords-Grows (keyword _ value rest) =
        let h0 = expr-Grows value in
        let h1 = serialize_keywords-Grows rest in search expr_rules depth 20

    pub serialize_targets-Grows : (node : Comprehensions) → Keeps Grows (serialize_targets c node)
    serialize_targets-Grows no_comprehensions = search expr_rules depth 20
    serialize_targets-Grows (comprehension target _ _ _ rest) =
        let h0 = expr-Grows target in
        let h1 = serialize_targets-Grows rest in search expr_rules depth 20

    pub serialize_iters-Grows : (node : Comprehensions) → Keeps Grows (serialize_iters c node)
    serialize_iters-Grows no_comprehensions = search expr_rules depth 20
    serialize_iters-Grows (comprehension _ iter _ _ rest) =
        let h0 = expr-Grows iter in
        let h1 = serialize_iters-Grows rest in search expr_rules depth 20

    pub serialize_condlists-Grows :
        (node : Comprehensions) → Keeps Grows (serialize_condlists c node)
    serialize_condlists-Grows no_comprehensions = search expr_rules depth 20
    serialize_condlists-Grows (comprehension _ _ ifs _ rest) =
        let h0 = serialize_exprs-Grows ifs in
        let h1 = serialize_condlists-Grows rest in search expr_rules depth 20

    pub serialize_comp_key-Grows :
        (node : TextRange) (more : OptExpr) → Keeps Grows (serialize_comp_key c node more)
    serialize_comp_key-Grows range absent = search expr_rules depth 20
    serialize_comp_key-Grows range (present key) =
        let h0 = expr-Grows key in search expr_rules depth 20

    pub serialize_keys-Grows : (node : DictItems) → Keeps Grows (serialize_keys c node)
    serialize_keys-Grows no_items = search expr_rules depth 20
    serialize_keys-Grows (item key _ rest) =
        let h0 = serialize_opt-Grows key in
        let h1 = serialize_keys-Grows rest in search expr_rules depth 20

    pub serialize_values-Grows : (node : DictItems) → Keeps Grows (serialize_values c node)
    serialize_values-Grows no_items = search expr_rules depth 20
    serialize_values-Grows (item _ value rest) =
        let h0 = expr-Grows value in
        let h1 = serialize_values-Grows rest in search expr_rules depth 20

    pub serialize_parts-Grows : (node : FStringParts) → Keeps Grows (serialize_parts c node)
    serialize_parts-Grows no_parts = search expr_rules depth 20
    serialize_parts-Grows (f_string_part elements rest) =
        let h0 = serialize_parts-Grows rest in
        let h1 = serialize_elements-Grows elements in search expr_rules depth 20
    serialize_parts-Grows (literal_part literal rest) =
        let h0 = serialize_parts-Grows rest in search expr_rules depth 20

    pub serialize_elements-Grows : (node : Elements) → Keeps Grows (serialize_elements c node)
    serialize_elements-Grows no_elements = search expr_rules depth 20
    serialize_elements-Grows (literal_element value range rest) =
        let h0 = serialize_elements-Grows rest in search expr_rules depth 20
    serialize_elements-Grows (interpolation expression debug flag format_spec rest) =
        let h0 = expr-Grows expression in
        let h1 = serialize_elements-Grows rest in
        let h2 = serialize_spec-Grows format_spec in search expr_rules depth 20

    pub serialize_spec-Grows : (node : OptSpec) → Keeps Grows (serialize_spec c node)
    serialize_spec-Grows no_spec = search expr_rules depth 20
    serialize_spec-Grows (some_spec range elements) =
        let h0 = serialize_elements-Grows elements in search expr_rules depth 20

    pub serialize_t_strings-Grows : (node : TStrings) → Keeps Grows (serialize_t_strings c node)
    serialize_t_strings-Grows no_t_strings = search expr_rules depth 20
    serialize_t_strings-Grows (t_string_part elements rest) =
        let h0 = serialize_t_strings-Grows rest in
        let h1 = serialize_t_elements-Grows elements in search expr_rules depth 20

    pub serialize_t_elements-Grows : (node : Elements) → Keeps Grows (serialize_t_elements c node)
    serialize_t_elements-Grows no_elements = search expr_rules depth 20
    serialize_t_elements-Grows (literal_element value range rest) =
        let h0 = serialize_t_elements-Grows rest in search expr_rules depth 20
    serialize_t_elements-Grows (interpolation expression _ flag format_spec rest) =
        let h0 = expr-Grows expression in
        let h1 = serialize_spec-Grows format_spec in
        let h2 = serialize_t_elements-Grows rest in search expr_rules depth 20

    pub serialize_opt_parameters-Grows :
        (node : OptParameters) → Keeps Grows (serialize_opt_parameters c node)
    serialize_opt_parameters-Grows no_parameters = search expr_rules depth 20
    serialize_opt_parameters-Grows (some_parameters params) =
        let h0 = serialize_parameters-Grows (no_comments (parameters_len params)) params in
        search expr_rules depth 20

    pub serialize_parameters-Grows :
        (node : List (Option Expr)) (more : Parameters)
        → Keeps Grows (serialize_parameters c node more)
    serialize_parameters-Grows arg_comments (parameters posonlyargs args vararg kwonlyargs kwarg) =
        let h0 =
          serialize_with_defaults-Grows arg_comments 0 (λ _. true) arg_pos arg_opt posonlyargs in
        let h1 =
          serialize_with_defaults-Grows arg_comments (defaults_len posonlyargs) argument_elide_name
            arg_pos arg_opt args in
        let h2 =
          serialize_with_defaults-Grows arg_comments
            (defaults_len posonlyargs + defaults_len args + opt_len vararg) (λ _. false) arg_named
            arg_named_opt kwonlyargs in
        search expr_rules depth 20

    pub serialize_with_defaults-Grows :
        (node : List (Option Expr)) (more : ℕ) (x2 : Text → Bool) (x3 : ℕ) (x4 : ℕ)
        (x5 : ParametersWithDefault)
        → Keeps Grows (serialize_with_defaults c node more x2 x3 x4 x5)
    serialize_with_defaults-Grows arg_comments idx pos_only no_default has_default no_more =
        search expr_rules depth 20
    serialize_with_defaults-Grows arg_comments idx pos_only no_default has_default
          (with_default param value rest) =
        let h0 = serialize_opt-Grows value in
        let h1 =
          serialize_with_defaults-Grows arg_comments (suc idx) pos_only no_default has_default
            rest in
        search expr_rules depth 20

-- Where the serialization of an expression returns, it has appended bytes, errors at most behind the
-- earlier ones, and has left the imports, the skipped lines and the flags of the surroundings.
pub serialize_expr-Grows : (c : Context) (e : Expr) → Keeps Grows (serialize_expr c e)
serialize_expr-Grows = expr-Grows
