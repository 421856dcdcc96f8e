-- ===== src/Ast/Stmt.antt =====
-- crates/ruff_python_ast/src/generated.rs and nodes.rs: the statements.
use ast_serialize.Common.{ℕ, Bool, List, Option}
use ast_serialize.Ast.Expr.{
  TextRange, Identifier, Operator, Expr, Exprs, OptExpr, Keywords, Parameters,
}
use ast_serialize.Ast.Pattern.{Pattern}

pub record Decorator : Type 0 where
  pub expression : Expr
  pub range : TextRange

pub record Alias : Type 0 where
  pub name : Identifier
  pub asname : Option Identifier
  pub range : TextRange

pub record WithItem : Type 0 where
  pub context_expr : Expr
  pub optional_vars : OptExpr

pub record Arguments : Type 0 where
  pub args : Exprs
  pub keywords : Keywords

pub data TypeParam : Type 0 where
  type_var : Identifier → (bound default : OptExpr) → TypeParam
  param_spec : Identifier → (default : OptExpr) → TypeParam
  type_var_tuple : Identifier → (default : OptExpr) → TypeParam

mutual
  pub data Stmt : Type 0 where
    function_def :
        TextRange
        → (is_async : Bool) → List Decorator
        → (name : Identifier) → Option (List TypeParam)
        → Parameters
        → (returns : OptExpr) → (body : Stmts) → Stmt
    class_def :
        TextRange
        → List Decorator
        → (name : Identifier) → Option (List TypeParam)
        → Option Arguments
        → (body : Stmts) → Stmt
    return : TextRange → (value : OptExpr) → Stmt
    delete : TextRange → (targets : Exprs) → Stmt
    type_alias : TextRange → (name : Expr) → Option (List TypeParam) → (value : Expr) → Stmt
    assign : TextRange → (targets : Exprs) → (value : Expr) → Stmt
    aug_assign : TextRange → (target : Expr) → Operator → (value : Expr) → Stmt
    ann_assign : TextRange → (target annotation : Expr) → (value : OptExpr) → Stmt
    for_stmt : TextRange → (is_async : Bool) → (target iter : Expr) → (body orelse : Stmts) → Stmt
    while_stmt : TextRange → (test : Expr) → (body orelse : Stmts) → Stmt
    if_stmt : TextRange → (test : Expr) → (body : Stmts) → (elif_else_clauses : Clauses) → Stmt
    with_stmt : TextRange → (is_async : Bool) → List WithItem → (body : Stmts) → Stmt
    match_stmt : TextRange → (subject : Expr) → (cases : MatchCases) → Stmt
    raise : TextRange → (exc cause : OptExpr) → Stmt
    try_stmt :
        TextRange
        → (body : Stmts) → (handlers : Handlers) → (orelse finalbody : Stmts) → (is_star : Bool)
        → Stmt
    assert : TextRange → (test : Expr) → (msg : OptExpr) → Stmt
    import : TextRange → List Alias → (is_lazy : Bool) → Stmt
    import_from :
        TextRange → (from : Option Identifier) → List Alias → (level : ℕ) → (is_lazy : Bool) → Stmt
    global : TextRange → List Identifier → Stmt
    nonlocal : TextRange → List Identifier → Stmt
    expr_stmt : TextRange → (value : Expr) → Stmt
    pass : TextRange → Stmt
    break_stmt : TextRange → Stmt
    continue_stmt : TextRange → Stmt
    ipy_escape_stmt : TextRange → Stmt

  pub data Stmts : Type 0 where
    nil : Stmts
    cons : Stmt → Stmts → Stmts

  -- `test` is missing for `else`.
  pub data Clauses : Type 0 where
    no_clauses : Clauses
    clause : TextRange → (test : OptExpr) → (body : Stmts) → Clauses → Clauses

  pub data MatchCases : Type 0 where
    no_cases : MatchCases
    match_case : TextRange → Pattern → (guard : OptExpr) → (body : Stmts) → MatchCases → MatchCases

  pub data Handlers : Type 0 where
    no_handlers : Handlers
    except_handler :
        TextRange
        → (type : OptExpr) → (name : Option Identifier) → (body : Stmts) → Handlers
        → Handlers
