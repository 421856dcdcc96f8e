-- ===== src/Ast/Ranges.antt =====
-- crates/ruff_python_ast/src/generated.rs, `Ranged`: the range of a node.
use ast_serialize.Ast.Expr.{
  TextRange, Expr, bool_op, named, bin_op, unary_op, lambda, if_expr, dict, set_display, list_comp,
  set_comp, dict_comp, generator, await, yield_expr, yield_from, compare, call, f_string, t_string,
  string_literal, bytes_literal, number_literal, boolean_literal, none_literal, ellipsis_literal,
  attribute, subscript, starred, name, list_display, tuple, slice, ipy_escape_command,
}
use ast_serialize.Ast.Stmt.{
  Stmt, function_def, class_def, return, delete, type_alias, assign, aug_assign, ann_assign,
  for_stmt, while_stmt, if_stmt, with_stmt, match_stmt, raise, try_stmt, assert, import,
  import_from, global, nonlocal, expr_stmt, pass, break_stmt, continue_stmt, ipy_escape_stmt,
}

abbrev pub expr_range : Expr → TextRange
expr_range (bool_op range _ _) = range
expr_range (named range _ _) = range
expr_range (bin_op range _ _ _) = range
expr_range (unary_op range _ _) = range
expr_range (lambda range _ _) = range
expr_range (if_expr range _ _ _) = range
expr_range (dict range _) = range
expr_range (set_display range _) = range
expr_range (list_comp range _ _) = range
expr_range (set_comp range _ _) = range
expr_range (dict_comp range _ _ _) = range
expr_range (generator range _ _) = range
expr_range (await range _) = range
expr_range (yield_expr range _) = range
expr_range (yield_from range _) = range
expr_range (compare range _ _ _) = range
expr_range (call range _ _ _) = range
expr_range (f_string range _) = range
expr_range (t_string range _) = range
expr_range (string_literal range _) = range
expr_range (bytes_literal range _) = range
expr_range (number_literal range _) = range
expr_range (boolean_literal range _) = range
expr_range (none_literal range) = range
expr_range (ellipsis_literal range) = range
expr_range (attribute range _ _ _) = range
expr_range (subscript range _ _ _) = range
expr_range (starred range _ _) = range
expr_range (name range _ _) = range
expr_range (list_display range _ _) = range
expr_range (tuple range _ _ _) = range
expr_range (slice range _ _ _) = range
expr_range (ipy_escape_command range) = range

abbrev pub stmt_range : Stmt → TextRange
stmt_range (function_def range _ _ _ _ _ _ _) = range
stmt_range (class_def range _ _ _ _ _) = range
stmt_range (return range _) = range
stmt_range (delete range _) = range
stmt_range (type_alias range _ _ _) = range
stmt_range (assign range _ _) = range
stmt_range (aug_assign range _ _ _) = range
stmt_range (ann_assign range _ _ _) = range
stmt_range (for_stmt range _ _ _ _ _) = range
stmt_range (while_stmt range _ _ _) = range
stmt_range (if_stmt range _ _ _) = range
stmt_range (with_stmt range _ _ _) = range
stmt_range (match_stmt range _ _) = range
stmt_range (raise range _ _) = range
stmt_range (try_stmt range _ _ _ _ _) = range
stmt_range (assert range _ _) = range
stmt_range (import range _ _) = range
stmt_range (import_from range _ _ _ _) = range
stmt_range (global range _) = range
stmt_range (nonlocal range _) = range
stmt_range (expr_stmt range _) = range
stmt_range (pass range) = range
stmt_range (break_stmt range) = range
stmt_range (continue_stmt range) = range
stmt_range (ipy_escape_stmt range) = range
