-- ===== src/Effects/Body.antt =====
-- src/func_effect_visitor.rs: trivial bodies, and the entry point.
use ast_serialize.Common.{Bool, true, false, ◌||◌, if◌then◌else◌, Text, []}
use ast_serialize.Ast.Expr.{
  string_literal, ellipsis_literal, Parameter, parameter, ParametersWithDefault, no_more,
  with_default, Parameters, parameters,
}
use ast_serialize.Ast.Stmt.{Stmt, Stmts, nil, cons, pass, raise, expr_stmt}
use ast_serialize.Effects.Detector.{visit_body}

unfoldable pub is_docstring : Stmt → Bool
is_docstring (expr_stmt _ (string_literal _ _)) = true
is_docstring _ = false

-- `pass`, `raise` or `...`
unfoldable pub is_stub : Stmt → Bool
is_stub (pass _) = true
is_stub (raise _ _ _) = true
is_stub (expr_stmt _ (ellipsis_literal _)) = true
is_stub _ = false

-- The body from index `i` on, behind the docstring.
unfoldable pub is_trivial_rest : Stmts → Bool
unfolding is_stub
is_trivial_rest nil = true
is_trivial_rest (cons s nil) = is_stub s
is_trivial_rest (cons _ (cons _ _)) = false

unfoldable pub is_trivial_body : Stmts → Bool
unfolding is_docstring is_trivial_rest
is_trivial_body nil = false
is_trivial_body (cons s rest) = is_trivial_rest (if is_docstring s then rest else cons s rest)

abbrev pub parameter_name : Parameter → Text
parameter_name (parameter _ n _) = n.id

-- The first parameter's name: `posonlyargs.first().or(args.first())`, or the empty string.
unfoldable pub first_parameter : ParametersWithDefault → ParametersWithDefault → Text
first_parameter (with_default p _ _) args = parameter_name p
first_parameter no_more (with_default p _ _) = parameter_name p
first_parameter no_more no_more = []

unfoldable pub first_param_name : Parameters → Bool → Text
unfolding first_parameter
first_param_name (parameters posonlyargs args _ _ _) true = first_parameter posonlyargs args
first_param_name _ false = []

unfoldable pub has_externally_visible_effect : Stmts → Parameters → Bool → Bool
unfolding is_trivial_body first_param_name visit_body
has_externally_visible_effect body params check_attributes =
    let visitor =
      visit_body (first_param_name params check_attributes) body
        (record { defines_attributes = false; contains_yield = false }) in
    if is_trivial_body body then true else visitor.defines_attributes || visitor.contains_yield
