-- ===== src/Effects/Visible.antt =====
-- What the scope of a function body holds: its statements and expressions, but not what stands
-- inside nested functions, classes, lambdas and yields. A description that keeps no state.
use ast_serialize.Common.{Bool, true, false, List, [], ◌∷◌, ◌++◌, Option, none, some, Text}
use ast_serialize.Ast.Expr.{
  Expr, Exprs, nil, cons, OptExpr, absent, present, Comprehensions, no_comprehensions,
  comprehension, DictItems, no_items, item, Keywords, no_keywords, keyword, FStringParts, no_parts,
  literal_part, f_string_part, TStrings, no_t_strings, t_string_part, Elements, no_elements,
  literal_element, interpolation, OptSpec, no_spec, some_spec, bool_op, named, bin_op, unary_op,
  lambda, if_expr, dict, set_display, list_comp, set_comp, dict_comp, generator, await, yield_expr,
  yield_from, compare, call, f_string, t_string, attribute, subscript, starred, name, list_display,
  tuple, slice, string_literal, bytes_literal, number_literal, boolean_literal, none_literal,
  ellipsis_literal, ipy_escape_command,
}
use ast_serialize.Ast.Pattern.{
  Pattern, Patterns, OptPattern, no_pattern, some_pattern, PatternKeywords, no_pattern_keywords,
  pattern_keyword, match_value, match_sequence, match_mapping, match_class, match_as, match_or,
  match_singleton, match_star,
}
use ast_serialize.Ast.Stmt.{
  TypeParam, type_var, param_spec, type_var_tuple, WithItem, Stmt, Stmts, Clauses, no_clauses,
  clause, MatchCases, no_cases, match_case, Handlers, no_handlers, except_handler, function_def,
  class_def, return, delete, type_alias, assign, aug_assign, ann_assign, for_stmt, while_stmt,
  if_stmt, with_stmt, match_stmt, raise, try_stmt, assert, expr_stmt, import, import_from, global,
  nonlocal, pass, break_stmt, continue_stmt, ipy_escape_stmt,
}
use ast_serialize.Effects.Detector.{
  contains_param_attribute, any_param_attribute, with_param_attribute,
}

pub data Node : Type 0 where
  expr_node : Expr → Node
  stmt_node : Stmt → Node

unfoldable mutual
  pub visible_expr : Expr → List Node
  visible_expr (bool_op r op vs) = expr_node (bool_op r op vs) ∷ visible_exprs vs
  visible_expr (named r x y) = expr_node (named r x y) ∷ (visible_expr y ++ visible_expr x)
  visible_expr (bin_op r x op y) = expr_node (bin_op r x op y) ∷ (visible_expr x ++ visible_expr y)
  visible_expr (unary_op r op x) = expr_node (unary_op r op x) ∷ visible_expr x
  visible_expr (if_expr r x y z) =
      expr_node (if_expr r x y z) ∷ (visible_expr x ++ (visible_expr y ++ visible_expr z))
  visible_expr (dict r xs) = expr_node (dict r xs) ∷ visible_items xs
  visible_expr (set_display r xs) = expr_node (set_display r xs) ∷ visible_exprs xs
  visible_expr (list_comp r x gs) =
      expr_node (list_comp r x gs) ∷ (visible_comprehensions gs ++ visible_expr x)
  visible_expr (set_comp r x gs) =
      expr_node (set_comp r x gs) ∷ (visible_comprehensions gs ++ visible_expr x)
  visible_expr (dict_comp r x y gs) =
      expr_node (dict_comp r x y gs)
      ∷ (visible_comprehensions gs ++ (visible_opt x ++ visible_expr y))
  visible_expr (generator r x gs) =
      expr_node (generator r x gs) ∷ (visible_comprehensions gs ++ visible_expr x)
  visible_expr (await r x) = expr_node (await r x) ∷ visible_expr x
  visible_expr (compare r x ops ys) =
      expr_node (compare r x ops ys) ∷ (visible_expr x ++ visible_exprs ys)
  visible_expr (call r x ys ks) =
      expr_node (call r x ys ks) ∷ (visible_expr x ++ (visible_exprs ys ++ visible_keywords ks))
  visible_expr (f_string r xs) = expr_node (f_string r xs) ∷ visible_f_parts xs
  visible_expr (t_string r xs) = expr_node (t_string r xs) ∷ visible_t_strings xs
  visible_expr (attribute r x a c) = expr_node (attribute r x a c) ∷ visible_expr x
  visible_expr (subscript r x y c) =
      expr_node (subscript r x y c) ∷ (visible_expr x ++ visible_expr y)
  visible_expr (starred r x c) = expr_node (starred r x c) ∷ visible_expr x
  visible_expr (list_display r xs c) = expr_node (list_display r xs c) ∷ visible_exprs xs
  visible_expr (tuple r xs c p) = expr_node (tuple r xs c p) ∷ visible_exprs xs
  visible_expr (slice r x y z) =
      expr_node (slice r x y z) ∷ (visible_opt x ++ (visible_opt y ++ visible_opt z))
  visible_expr (yield_expr r x) = expr_node (yield_expr r x) ∷ []
  visible_expr (yield_from r x) = expr_node (yield_from r x) ∷ []
  visible_expr (string_literal r v) = expr_node (string_literal r v) ∷ []
  visible_expr (bytes_literal r v) = expr_node (bytes_literal r v) ∷ []
  visible_expr (number_literal r v) = expr_node (number_literal r v) ∷ []
  visible_expr (boolean_literal r v) = expr_node (boolean_literal r v) ∷ []
  visible_expr (none_literal r) = expr_node (none_literal r) ∷ []
  visible_expr (ellipsis_literal r) = expr_node (ellipsis_literal r) ∷ []
  visible_expr (name r v c) = expr_node (name r v c) ∷ []
  visible_expr (ipy_escape_command r) = expr_node (ipy_escape_command r) ∷ []
  visible_expr (lambda r v x) = expr_node (lambda r v x) ∷ []

  pub visible_exprs : Exprs → List Node
  visible_exprs nil = []
  visible_exprs (cons x xs) = visible_expr x ++ visible_exprs xs

  pub visible_opt : OptExpr → List Node
  visible_opt absent = []
  visible_opt (present x) = visible_expr x

  pub visible_comprehensions : Comprehensions → List Node
  visible_comprehensions no_comprehensions = []
  visible_comprehensions (comprehension x y zs _ rest) =
      visible_expr y ++ (visible_expr x ++ (visible_exprs zs ++ visible_comprehensions rest))

  pub visible_items : DictItems → List Node
  visible_items no_items = []
  visible_items (item x y rest) = visible_opt x ++ (visible_expr y ++ visible_items rest)

  pub visible_keywords : Keywords → List Node
  visible_keywords no_keywords = []
  visible_keywords (keyword _ x rest) = visible_expr x ++ visible_keywords rest

  pub visible_f_parts : FStringParts → List Node
  visible_f_parts no_parts = []
  visible_f_parts (literal_part _ rest) = visible_f_parts rest
  visible_f_parts (f_string_part xs rest) = visible_elements xs ++ visible_f_parts rest

  pub visible_t_strings : TStrings → List Node
  visible_t_strings no_t_strings = []
  visible_t_strings (t_string_part xs rest) = visible_elements xs ++ visible_t_strings rest

  pub visible_elements : Elements → List Node
  visible_elements no_elements = []
  visible_elements (literal_element _ _ rest) = visible_elements rest
  visible_elements (interpolation x _ _ s rest) =
      visible_expr x ++ (visible_spec s ++ visible_elements rest)

  pub visible_spec : OptSpec → List Node
  visible_spec no_spec = []
  visible_spec (some_spec _ xs) = visible_elements xs

unfoldable mutual
  unfolding visible_expr

  pub visible_pattern : Pattern → List Node
  visible_pattern (match_value _ x) = visible_expr x
  visible_pattern (match_singleton _ _) = []
  visible_pattern (match_sequence _ xs) = visible_patterns xs
  visible_pattern (match_mapping _ xs ys _) = visible_exprs xs ++ visible_patterns ys
  visible_pattern (match_class _ x ys zs) =
      visible_expr x ++ (visible_patterns ys ++ visible_pattern_keywords zs)
  visible_pattern (match_star _ _) = []
  visible_pattern (match_as _ x _) = visible_opt_pattern x
  visible_pattern (match_or _ xs) = visible_patterns xs

  pub visible_patterns : Patterns → List Node
  visible_patterns Patterns.nil = []
  visible_patterns (Patterns.cons x xs) = visible_pattern x ++ visible_patterns xs

  pub visible_opt_pattern : OptPattern → List Node
  visible_opt_pattern no_pattern = []
  visible_opt_pattern (some_pattern x) = visible_pattern x

  pub visible_pattern_keywords : PatternKeywords → List Node
  visible_pattern_keywords no_pattern_keywords = []
  visible_pattern_keywords (pattern_keyword _ x rest) =
      visible_pattern x ++ visible_pattern_keywords rest

unfoldable pub visible_type_params : List TypeParam → List Node
unfolding visible_expr
visible_type_params [] = []
visible_type_params (type_var _ bound default ∷ rest) =
    visible_opt bound ++ (visible_opt default ++ visible_type_params rest)
visible_type_params (param_spec _ default ∷ rest) = visible_opt default ++ visible_type_params rest
visible_type_params (type_var_tuple _ default ∷ rest) =
    visible_opt default ++ visible_type_params rest

unfoldable pub visible_opt_type_params : Option (List TypeParam) → List Node
unfolding visible_type_params
visible_opt_type_params none = []
visible_opt_type_params (some params) = visible_type_params params

unfoldable pub visible_with_items : List WithItem → List Node
unfolding visible_expr
visible_with_items [] = []
visible_with_items (w ∷ ws) =
    visible_expr w.context_expr ++ (visible_opt w.optional_vars ++ visible_with_items ws)

unfoldable mutual
  unfolding visible_expr visible_pattern visible_opt_type_params visible_with_items

  pub visible_stmt : Stmt → List Node
  visible_stmt (function_def r a b c d e f g) = stmt_node (function_def r a b c d e f g) ∷ []
  visible_stmt (class_def r a b c d e) = stmt_node (class_def r a b c d e) ∷ []
  visible_stmt (assign r xs y) = stmt_node (assign r xs y) ∷ (visible_expr y ++ visible_exprs xs)
  visible_stmt (aug_assign r x a y) =
      stmt_node (aug_assign r x a y) ∷ (visible_expr y ++ visible_expr x)
  visible_stmt (ann_assign r x y z) =
      stmt_node (ann_assign r x y z) ∷ (visible_opt z ++ (visible_expr y ++ visible_expr x))
  visible_stmt (with_stmt r a ws b) =
      stmt_node (with_stmt r a ws b) ∷ (visible_with_items ws ++ visible_body b)
  visible_stmt (for_stmt r a x y b c) =
      stmt_node (for_stmt r a x y b c)
      ∷ (visible_expr y ++ (visible_expr x ++ (visible_body b ++ visible_body c)))
  visible_stmt (return r x) = stmt_node (return r x) ∷ visible_opt x
  visible_stmt (delete r xs) = stmt_node (delete r xs) ∷ visible_exprs xs
  visible_stmt (type_alias r x ts y) =
      stmt_node (type_alias r x ts y)
      ∷ (visible_expr y ++ (visible_opt_type_params ts ++ visible_expr x))
  visible_stmt (while_stmt r x b c) =
      stmt_node (while_stmt r x b c) ∷ (visible_expr x ++ (visible_body b ++ visible_body c))
  visible_stmt (if_stmt r x b cs) =
      stmt_node (if_stmt r x b cs) ∷ (visible_expr x ++ (visible_body b ++ visible_clauses cs))
  visible_stmt (match_stmt r x cs) =
      stmt_node (match_stmt r x cs) ∷ (visible_expr x ++ visible_cases cs)
  visible_stmt (raise r x y) = stmt_node (raise r x y) ∷ (visible_opt x ++ visible_opt y)
  visible_stmt (try_stmt r b hs c f a) =
      stmt_node (try_stmt r b hs c f a)
      ∷ (visible_body b ++ (visible_handlers hs ++ (visible_body c ++ visible_body f)))
  visible_stmt (assert r x y) = stmt_node (assert r x y) ∷ (visible_expr x ++ visible_opt y)
  visible_stmt (expr_stmt r x) = stmt_node (expr_stmt r x) ∷ visible_expr x
  visible_stmt (import r a b) = stmt_node (import r a b) ∷ []
  visible_stmt (import_from r a b c d) = stmt_node (import_from r a b c d) ∷ []
  visible_stmt (global r a) = stmt_node (global r a) ∷ []
  visible_stmt (nonlocal r a) = stmt_node (nonlocal r a) ∷ []
  visible_stmt (pass r) = stmt_node (pass r) ∷ []
  visible_stmt (break_stmt r) = stmt_node (break_stmt r) ∷ []
  visible_stmt (continue_stmt r) = stmt_node (continue_stmt r) ∷ []
  visible_stmt (ipy_escape_stmt r) = stmt_node (ipy_escape_stmt r) ∷ []

  pub visible_body : Stmts → List Node
  visible_body Stmts.nil = []
  visible_body (Stmts.cons x xs) = visible_stmt x ++ visible_body xs

  pub visible_clauses : Clauses → List Node
  visible_clauses no_clauses = []
  visible_clauses (clause _ x b rest) = visible_opt x ++ (visible_body b ++ visible_clauses rest)

  pub visible_cases : MatchCases → List Node
  visible_cases no_cases = []
  visible_cases (match_case _ p x b rest) =
      visible_pattern p ++ (visible_opt x ++ (visible_body b ++ visible_cases rest))

  pub visible_handlers : Handlers → List Node
  visible_handlers no_handlers = []
  visible_handlers (except_handler _ x _ b rest) =
      visible_opt x ++ (visible_body b ++ visible_handlers rest)

-- A yield, and an assignment to an attribute of the parameter.
unfoldable pub is_effect : Text → Node → Bool
unfolding contains_param_attribute with_param_attribute
is_effect param (expr_node (yield_expr _ _)) = true
is_effect param (expr_node (yield_from _ _)) = true
is_effect param (stmt_node (assign _ targets _)) = any_param_attribute param targets
is_effect param (stmt_node (aug_assign _ target _ _)) = contains_param_attribute param target
is_effect param (stmt_node (ann_assign _ target _ _)) = contains_param_attribute param target
is_effect param (stmt_node (with_stmt _ _ items _)) = with_param_attribute param items
is_effect param (stmt_node (for_stmt _ _ target _ _ _)) = contains_param_attribute param target
is_effect param _ = false
