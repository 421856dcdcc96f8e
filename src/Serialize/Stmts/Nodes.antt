-- ===== src/Serialize/Stmts/Nodes.antt =====
-- src/serialize_ast.rs, `Ser` for `ast::Stmt`.
use ast_serialize.Common.{ℕ, suc, true, false, List, [], ◌∷◌, Option, none, some, length}
use ast_serialize.Common.Int.{pos}
use ast_serialize.Ast.Expr.{TextRange, absent, present}
use ast_serialize.Ast.Stmt.{
  Stmt, Stmts, nil, cons, Clauses, no_clauses, clause, MatchCases, no_cases, match_case, Handlers,
  no_handlers, except_handler, function_def, class_def, return, delete, type_alias, assign,
  aug_assign, ann_assign, for_stmt, while_stmt, if_stmt, with_stmt, match_stmt, raise, try_stmt,
  assert, import, import_from, global, nonlocal, expr_stmt, pass, break_stmt, continue_stmt,
  ipy_escape_stmt,
}
use ast_serialize.Wire.{write_tagged_int, write_bool}
use ast_serialize.Branches.{Flags, new, if_flags, case_flags}
use ast_serialize.Serialize.{
  Context, Action, ◌>>◌, skip, panic, reading, append, write_tag, write_end_tag, append_location,
  write_text,
}
use ast_serialize.Serialize.StmtTags.{
  tag_expr_stmt, tag_assign, tag_while, tag_pass_stmt, tag_raise_stmt, tag_break_stmt,
  tag_continue_stmt, tag_assert_stmt, tag_for_stmt, tag_with_stmt, tag_operator_assignment_stmt,
  tag_try_stmt, tag_del_stmt, tag_global_decl, tag_nonlocal_decl, tag_match_stmt,
  tag_type_alias_stmt,
}
use ast_serialize.Serialize.Tags.{tag_return}
use ast_serialize.Serialize.Types.{exprs_len, close, typed_list}
use ast_serialize.Serialize.Types.Annotation.{serialize_type}
use ast_serialize.Serialize.Exprs.Nodes.{serialize_expr, serialize_exprs, serialize_opt}
use ast_serialize.Serialize.Patterns.{serialize_pattern}
use ast_serialize.Serialize.Signatures.{FuncComment, find_func_type_comment}
use ast_serialize.Serialize.Blocks.{serialize_block, with_branch_flags, serialize_if_stmt}
use ast_serialize.Serialize.ImportStmts.{serialize_import, serialize_import_from}
use ast_serialize.Serialize.Stmts.{
  operator_str, assign_comment, serialize_assign_type, serialize_value_or_temp, serialize_items,
  write_identifiers, serialize_targets_of_del, serialize_handler_types, write_handler_names,
  handlers_len, serialize_optional_block, serialize_alias_type_params,
}
use ast_serialize.Serialize.Stmts.Definitions.{serialize_function, serialize_class}

-- An action that needs what may be a panic to compute.
unfoldable pub with_found : Option FuncComment → (FuncComment → Action) → Action
unfolding panic
with_found none f = panic
with_found (some found) f = f found

unfoldable pub cases_len : MatchCases → ℕ
cases_len no_cases = 0
cases_len (match_case _ _ _ _ rest) = suc (cases_len rest)

-- `match`, given the actions for the subject and the cases.
unfoldable pub serialize_match :
    Context
    → TextRange
    → (n : ℕ) → Option (List Flags)
    → (subject : Action) → (cases : List Flags → Action) → Action
unfolding ◌>>◌ panic write_tag append write_tagged_int append_location write_end_tag
serialize_match c range n none subject cases = panic
serialize_match c range n (some flags) subject cases = do
  write_tag tag_match_stmt
  subject
  append (write_tagged_int (pos n))
  cases flags
  append_location c range
  write_end_tag

module _ (c : Context) where
  unfoldable mutual
    unfolding ◌>>◌ skip panic reading append write_tag write_end_tag append_location write_text
        close typed_list exprs_len serialize_type serialize_expr serialize_exprs serialize_opt
        serialize_pattern find_func_type_comment serialize_block with_branch_flags serialize_if_stmt
        if_flags case_flags serialize_import serialize_import_from assign_comment
        serialize_assign_type serialize_value_or_temp serialize_items write_identifiers
        serialize_targets_of_del serialize_handler_types write_handler_names handlers_len
        serialize_optional_block serialize_alias_type_params serialize_function serialize_class
        with_found cases_len serialize_match

    pub serialize_stmt : Stmt → Action
    serialize_stmt (function_def range is_async decorators n type_params params returns body) =
        let stmts = serialize_stmts body in
        reading λ s. with_found (find_func_type_comment c s.in_class params body) λ found.
          serialize_function c range is_async decorators n type_params params returns body found
            stmts
    serialize_stmt (expr_stmt _ value) = do
      write_tag tag_expr_stmt
      serialize_expr c value
      write_end_tag
    serialize_stmt (assign range targets value) = close c range do
      write_tag tag_assign
      typed_list (exprs_len targets) (serialize_exprs c targets)
      serialize_expr c value
      serialize_assign_type c range (assign_comment c range)
      append (write_bool false)
    serialize_stmt (ann_assign range target annotation value) = close c range do
      write_tag tag_assign
      typed_list 1 (serialize_expr c target)
      serialize_value_or_temp c value
      append (write_bool true)
      serialize_type c annotation
      append (write_bool true)
    serialize_stmt (aug_assign range target op value) = close c range do
      write_tag tag_operator_assignment_stmt
      write_text (operator_str op)
      serialize_expr c target
      serialize_expr c value
    serialize_stmt (import range names is_lazy) = do
      serialize_import c range names is_lazy
      write_end_tag
    serialize_stmt (import_from range from names level is_lazy) = do
      serialize_import_from c range from names level is_lazy
      write_end_tag
    serialize_stmt (return range value) =
        close c range do write_tag tag_return; serialize_opt c value
    serialize_stmt (raise range exc cause) =
        close c range do write_tag tag_raise_stmt; serialize_opt c exc; serialize_opt c cause
    serialize_stmt (assert range test msg) =
        close c range do write_tag tag_assert_stmt; serialize_expr c test; serialize_opt c msg
    serialize_stmt (if_stmt range test body branches) = do
      serialize_if_stmt c range branches (if_flags c.options test branches) (serialize_expr c test)
          (serialize_block c body (some range) (serialize_stmts body)) (serialize_clauses branches)
      write_end_tag
    serialize_stmt (while_stmt range test body orelse) = close c range do
      write_tag tag_while
      serialize_expr c test
      serialize_block c body (some range) (serialize_stmts body)
      serialize_block c orelse none (serialize_stmts orelse)
    serialize_stmt (for_stmt range is_async target iter body orelse) = close c range do
      write_tag tag_for_stmt
      serialize_expr c target
      serialize_expr c iter
      serialize_block c body (some range) (serialize_stmts body)
      serialize_block c orelse none (serialize_stmts orelse)
      append (write_bool is_async)
    serialize_stmt (with_stmt range is_async items body) = close c range do
      write_tag tag_with_stmt
      append (write_tagged_int (pos (length items)))
      serialize_items c items
      serialize_block c body (some range) (serialize_stmts body)
      append (write_bool is_async)
    serialize_stmt (pass range) = close c range (write_tag tag_pass_stmt)
    serialize_stmt (break_stmt range) = close c range (write_tag tag_break_stmt)
    serialize_stmt (continue_stmt range) = close c range (write_tag tag_continue_stmt)
    serialize_stmt (class_def range decorators n type_params arguments body) =
        serialize_class c range decorators n type_params arguments body (serialize_stmts body)
    serialize_stmt (try_stmt range body handlers orelse finalbody is_star) = close c range do
      write_tag tag_try_stmt
      serialize_block c body (some range) (serialize_stmts body)
      append (write_tagged_int (pos (handlers_len handlers)))
      serialize_handler_types c handlers
      write_handler_names c handlers
      serialize_handler_bodies handlers
      serialize_optional_block orelse
          (serialize_block c orelse (some range) (serialize_stmts orelse))
      serialize_optional_block finalbody
          (serialize_block c finalbody (some range) (serialize_stmts finalbody))
      append (write_bool is_star)
    serialize_stmt (delete range targets) =
        close c range do write_tag tag_del_stmt; serialize_targets_of_del c range targets
    serialize_stmt (global range names) = close c range do
      write_tag tag_global_decl
      append (write_tagged_int (pos (length names)))
      write_identifiers names
    serialize_stmt (nonlocal range names) = close c range do
      write_tag tag_nonlocal_decl
      append (write_tagged_int (pos (length names)))
      write_identifiers names
    serialize_stmt (match_stmt range subject cases) =
        serialize_match c range (cases_len cases) (case_flags c.options new cases)
          (serialize_expr c subject) (serialize_cases cases)
    serialize_stmt (type_alias range n type_params value) = close c range do
      write_tag tag_type_alias_stmt
      serialize_expr c n
      serialize_alias_type_params c type_params
      serialize_expr c value
    serialize_stmt (ipy_escape_stmt _) = panic

    pub serialize_stmts : Stmts → Action
    serialize_stmts nil = skip
    serialize_stmts (cons s rest) = do serialize_stmt s; serialize_stmts rest

    -- The loop of `serialize_if_stmt` over the clauses, with their flags.
    pub serialize_clauses : Clauses → List Flags → Action
    serialize_clauses no_clauses flags = skip
    serialize_clauses (clause _ _ _ _) [] = skip
    serialize_clauses (clause range (present test) body rest) (branch ∷ flags) = do
      serialize_expr c test
      with_branch_flags branch (serialize_block c body (some range) (serialize_stmts body))
      serialize_clauses rest flags
    serialize_clauses (clause range absent body rest) (branch ∷ flags) = do
      append (write_bool true)
      with_branch_flags branch (serialize_block c body (some range) (serialize_stmts body))
      serialize_clauses rest flags

    pub serialize_cases : MatchCases → List Flags → Action
    serialize_cases no_cases flags = skip
    serialize_cases (match_case _ _ _ _ _) [] = skip
    serialize_cases (match_case range pattern guard body rest) (branch ∷ flags) = do
      serialize_pattern c pattern
      serialize_opt c guard
      with_branch_flags branch (serialize_block c body (some range) (serialize_stmts body))
      serialize_cases rest flags

    pub serialize_handler_bodies : Handlers → Action
    serialize_handler_bodies no_handlers = skip
    serialize_handler_bodies (except_handler range _ _ body rest) = do
      serialize_block c body (some range) (serialize_stmts body)
      serialize_handler_bodies rest
