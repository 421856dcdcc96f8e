-- ===== src/Examples/Data.antt =====
-- The inputs: an `if` chain, a `match`, a function body, and a file of two lines.
use ast_serialize.Common.{ℕ, true, false, [], ◌∷◌, none, Text, codes}
use ast_serialize.Ast.Expr.{
  TextRange, Expr, nil, cons, absent, present, number_literal, int, tuple, load, store, name,
  attribute, compare, CmpOp, gt_e, lt, unary_op, not_op, bool_op, or_op, and_op, yield_expr,
  Parameters, parameters, no_more, with_default, parameter, no_parameter, lambda, no_parameters,
}
use ast_serialize.Ast.Pattern.{Patterns, match_as, match_or, match_value, no_pattern}
use ast_serialize.Ast.Stmt.{
  Stmts, Clauses, no_clauses, clause, MatchCases, no_cases, match_case, pass, assign, expr_stmt,
}
use ast_serialize.Location.{Source}

abbrev pub r : TextRange
r = record { start = 0; end = 0 }

abbrev pub named : ℕ → Text → Expr
named n id = name (record { start = n; end = n }) id load

abbrev pub type_checking : Expr
type_checking = named 0 (codes "TYPE_CHECKING")

abbrev pub debug : Expr
debug = named 0 (codes "debug")

abbrev pub version_info : Expr
version_info =
    attribute r (name r (codes "sys") load) (record { id = codes "version_info"; range = r }) load

abbrev pub pair : ℕ → ℕ → Expr
pair a b = tuple r (cons (number_literal r (int a)) (cons (number_literal r (int b)) nil)) load true

-- `sys.version_info op (3, n)`
abbrev pub version_check : CmpOp → ℕ → Expr
version_check op n = compare r version_info (op ∷ []) (cons (pair 3 n) nil)

-- `not (debug or sys.version_info < (3, 8)) and TYPE_CHECKING`
abbrev pub condition : Expr
condition = bool_op r and_op (
    cons (unary_op r not_op (bool_op r or_op (cons debug (cons (version_check lt 8) nil))))
      (cons type_checking nil))

-- `elif sys.version_info >= (3, 8): pass`, then `else: pass`
abbrev pub chain : Clauses
chain =
    clause r (present (version_check gt_e 8)) (Stmts.cons (pass r) Stmts.nil)
      (clause r absent (Stmts.cons (pass r) Stmts.nil) no_clauses)

-- `case 1 | x if debug:`, then `case _:`
abbrev pub cases : MatchCases
cases =
    match_case r
      (match_or r (
        Patterns.cons (match_value r (number_literal r (int 1)))
          (Patterns.cons (match_as r no_pattern none) Patterns.nil)))
      (present debug) (Stmts.cons (pass r) Stmts.nil)
      (match_case r (match_as r no_pattern none) absent (Stmts.cons (pass r) Stmts.nil) no_cases)

-- `(self)`
abbrev pub self_parameters : Parameters
self_parameters =
    parameters no_more
      (with_default (parameter r (record { id = codes "self"; range = r }) absent) absent no_more)
      no_parameter no_more no_parameter

-- `lambda: (yield)`, then `self.x = debug`
abbrev pub method_body : Stmts
method_body = Stmts.cons (expr_stmt r (lambda r no_parameters (yield_expr r absent))) (
    Stmts.cons
      (assign r
        (cons
          (attribute r (name r (codes "self") load) (record { id = codes "x"; range = r }) store)
          nil)
        debug)
      Stmts.nil)

-- A file of one line, `é = 1`, whose first character takes two bytes.
abbrev pub accented : Source
accented = record {
  line_index = record { line_column = λ offset. (1, 1); line_start = λ line. 0 };
  text = 195 ∷ 169 ∷ 32 ∷ 61 ∷ 32 ∷ 49 ∷ [];
  is_all_ascii = false;
  lines_with_non_ascii = true ∷ [];
  location_override = none;
}
