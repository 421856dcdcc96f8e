-- ===== src/Serialize/Stmts/Extend.antt =====
-- The serialization of a statement: the part of the state that it changes.
use ast_serialize.Common.{List, [], ◌∷◌, some}
use ast_serialize.Ast.Expr.{absent, present}
use ast_serialize.Ast.Stmt.{
  Stmt, Stmts, nil, cons, Clauses, no_clauses, clause, MatchCases, no_cases, match_case, Handlers,
  no_handlers, except_handler, function_def, class_def, return, delete, type_alias, assign,
  aug_assign, ann_assign, for_stmt, while_stmt, if_stmt, with_stmt, match_stmt, raise, try_stmt,
  assert, import, import_from, global, nonlocal, expr_stmt, pass, break_stmt, continue_stmt,
  ipy_escape_stmt,
}
use ast_serialize.Branches.{Flags, new, if_flags, case_flags}
use ast_serialize.Serialize.{Context, write_end_tag}
use ast_serialize.Serialize.Exprs.Nodes.{serialize_expr}
use ast_serialize.Serialize.Signatures.{find_func_type_comment}
use ast_serialize.Serialize.Blocks.{serialize_block, serialize_if_stmt}
use ast_serialize.Serialize.Keeps.{Keeps, Keeps-panic, Keeps-reading}
use ast_serialize.Serialize.Extends.{Extends, extend}
use ast_serialize.Serialize.Surroundings.{with_branch_flags-Extends}
use ast_serialize.Serialize.Types.Append.{serialize_type-Writes}
use ast_serialize.Serialize.Exprs.Parts.{expr_rules}
use ast_serialize.Serialize.Exprs.Grow.{
  serialize_expr-Grows, serialize_exprs-Grows, serialize_opt-Grows,
}
use ast_serialize.Serialize.Patterns.Grow.{serialize_pattern-Grows}
use ast_serialize.Serialize.ImportStmts.Flagged.{
  serialize_import-Extends, serialize_import_from-Extends,
}
use ast_serialize.Serialize.Stmts.Parts.{
  serialize_assign_type-Grows, serialize_value_or_temp-Grows, serialize_items-Grows,
  write_identifiers-Writes, serialize_targets_of_del-Grows, serialize_handler_types-Grows,
  write_handler_names-Writes, serialize_alias_type_params-Writes,
}
use ast_serialize.Serialize.Stmts.Bodies.{
  then-Extends, body_rules, write_end_tag-Extends, append-Extends, serialize_block-Extends,
  serialize_if_stmt-Extends, close-Extends, serialize_optional_block-Extends,
  serialize_function-Extends, serialize_class-Extends, with_found-Extends, serialize_match-Extends,
}
use ast_serialize.Serialize.Stmts.Nodes.{
  cases_len, serialize_stmt, serialize_stmts, serialize_clauses, serialize_cases,
  serialize_handler_bodies,
}

ruleset plain_rules = (
  expr_rules, serialize_type-Writes, serialize_expr-Grows, serialize_exprs-Grows,
  serialize_opt-Grows, serialize_assign_type-Grows, serialize_value_or_temp-Grows,
  write_identifiers-Writes, serialize_targets_of_del-Grows, serialize_alias_type_params-Writes,
)

ruleset stmt_rules = (
  body_rules, append-Extends, Keeps-panic, close-Extends, serialize_block-Extends,
  serialize_optional_block-Extends, serialize_class-Extends, with_branch_flags-Extends,
  serialize_import-Extends, serialize_import_from-Extends, serialize_expr-Grows,
  serialize_opt-Grows, serialize_pattern-Grows, serialize_items-Grows,
  serialize_handler_types-Grows, write_handler_names-Writes,
)

module _ (c : Context) where
  mutual
    unfolding serialize_stmt serialize_stmts serialize_clauses serialize_cases
        serialize_handler_bodies

    stmt-Extends : (node : Stmt) → Keeps Extends (serialize_stmt c node)
    stmt-Extends (function_def range is_async decorators n type_params params returns body) =
        let k = serialize_stmts-Extends body in
        Keeps-reading _ λ s.
          with_found-Extends (find_func_type_comment c s.in_class params body) _ λ found.
            serialize_function-Extends c range is_async decorators n type_params params returns body
              found (serialize_stmts c body) k
    stmt-Extends (expr_stmt x value) =
        extend (serialize_stmt c (expr_stmt x value)) (search plain_rules depth 20)
    stmt-Extends (assign range targets value) =
        extend (serialize_stmt c (assign range targets value)) (search plain_rules depth 20)
    stmt-Extends (ann_assign range target annotation value) =
        extend (serialize_stmt c (ann_assign range target annotation value))
          (search plain_rules depth 20)
    stmt-Extends (aug_assign range target op value) =
        extend (serialize_stmt c (aug_assign range target op value)) (search plain_rules depth 20)
    stmt-Extends (import range names is_lazy) = search stmt_rules depth 20
    stmt-Extends (import_from range from names level is_lazy) = search stmt_rules depth 20
    stmt-Extends (return range value) =
        extend (serialize_stmt c (return range value)) (search plain_rules depth 20)
    stmt-Extends (raise range exc cause) =
        extend (serialize_stmt c (raise range exc cause)) (search plain_rules depth 20)
    stmt-Extends (assert range test msg) =
        extend (serialize_stmt c (assert range test msg)) (search plain_rules depth 20)
    stmt-Extends (if_stmt range test body branches) =
        then-Extends
          (serialize_if_stmt c range branches (if_flags c.options test branches)
            (serialize_expr c test) (serialize_block c body (some range) (serialize_stmts c body))
            (serialize_clauses c branches))
          write_end_tag
          (serialize_if_stmt-Extends c range branches _ _ _ _
            (extend (serialize_expr c test) (serialize_expr-Grows c test))
            (serialize_block-Extends c body (some range) _ (serialize_stmts-Extends body))
            (λ flags. serialize_clauses-Extends branches flags))
          write_end_tag-Extends
    stmt-Extends (while_stmt range test body orelse) =
        let h0 = serialize_stmts-Extends body in
        let h1 = serialize_stmts-Extends orelse in search stmt_rules depth 20
    stmt-Extends (for_stmt range is_async target iter body orelse) =
        let h0 = serialize_stmts-Extends body in
        let h1 = serialize_stmts-Extends orelse in search stmt_rules depth 20
    stmt-Extends (with_stmt range is_async items body) =
        let h0 = serialize_stmts-Extends body in search stmt_rules depth 20
    stmt-Extends (pass range) = extend (serialize_stmt c (pass range)) (search plain_rules depth 20)
    stmt-Extends (break_stmt range) =
        extend (serialize_stmt c (break_stmt range)) (search plain_rules depth 20)
    stmt-Extends (continue_stmt range) =
        extend (serialize_stmt c (continue_stmt range)) (search plain_rules depth 20)
    stmt-Extends (class_def range decorators n type_params arguments body) =
        let h0 = serialize_stmts-Extends body in search stmt_rules depth 20
    stmt-Extends (try_stmt range body handlers orelse finalbody is_star) =
        let h0 = serialize_stmts-Extends body in
        let h1 = serialize_stmts-Extends orelse in
        let h2 = serialize_stmts-Extends finalbody in
        let h3 = serialize_handler_bodies-Extends handlers in search stmt_rules depth 20
    stmt-Extends (delete range targets) =
        extend (serialize_stmt c (delete range targets)) (search plain_rules depth 20)
    stmt-Extends (global range names) =
        extend (serialize_stmt c (global range names)) (search plain_rules depth 20)
    stmt-Extends (nonlocal range names) =
        extend (serialize_stmt c (nonlocal range names)) (search plain_rules depth 20)
    stmt-Extends (match_stmt range subject cases) =
        serialize_match-Extends c range (cases_len cases) (case_flags c.options new cases)
          (serialize_expr c subject) (serialize_cases c cases) (serialize_expr-Grows c subject)
          (λ flags. serialize_cases-Extends cases flags)
    stmt-Extends (type_alias range n type_params value) =
        extend (serialize_stmt c (type_alias range n type_params value))
          (search plain_rules depth 20)
    stmt-Extends (ipy_escape_stmt _) = search stmt_rules depth 20

    pub serialize_stmts-Extends : (node : Stmts) → Keeps Extends (serialize_stmts c node)
    serialize_stmts-Extends nil = search stmt_rules depth 20
    serialize_stmts-Extends (cons s rest) =
        let h0 = stmt-Extends s in
        let h1 = serialize_stmts-Extends rest in search stmt_rules depth 20

    pub serialize_clauses-Extends :
        (node : Clauses) (more : List Flags) → Keeps Extends (serialize_clauses c node more)
    serialize_clauses-Extends no_clauses flags = search stmt_rules depth 20
    serialize_clauses-Extends (clause _ _ _ _) [] = search stmt_rules depth 20
    serialize_clauses-Extends (clause range (present test) body rest) (branch ∷ flags) =
        let h0 = serialize_stmts-Extends body in
        let h1 = serialize_clauses-Extends rest flags in search stmt_rules depth 20
    serialize_clauses-Extends (clause range absent body rest) (branch ∷ flags) =
        let h0 = serialize_stmts-Extends body in
        let h1 = serialize_clauses-Extends rest flags in search stmt_rules depth 20

    pub serialize_cases-Extends :
        (node : MatchCases) (more : List Flags) → Keeps Extends (serialize_cases c node more)
    serialize_cases-Extends no_cases flags = search stmt_rules depth 20
    serialize_cases-Extends (match_case _ _ _ _ _) [] = search stmt_rules depth 20
    serialize_cases-Extends (match_case range pattern guard body rest) (branch ∷ flags) =
        let h0 = serialize_stmts-Extends body in
        let h1 = serialize_cases-Extends rest flags in search stmt_rules depth 20

    pub serialize_handler_bodies-Extends :
        (node : Handlers) → Keeps Extends (serialize_handler_bodies c node)
    serialize_handler_bodies-Extends no_handlers = search stmt_rules depth 20
    serialize_handler_bodies-Extends (except_handler range _ _ body rest) =
        let h0 = serialize_stmts-Extends body in
        let h1 = serialize_handler_bodies-Extends rest in search stmt_rules depth 20

-- Where the serialization of a statement returns, bytes, errors, imports and skipped lines are only
-- added behind the earlier ones, each added import carries the flags of the surroundings, and the
-- flags of the surroundings are as they were.
pub serialize_stmt-Extends : (c : Context) (stmt : Stmt) → Keeps Extends (serialize_stmt c stmt)
serialize_stmt-Extends = stmt-Extends
