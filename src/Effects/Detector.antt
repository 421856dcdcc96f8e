-- ===== src/Effects/Detector.antt =====
-- src/func_effect_visitor.rs, `EffectDetector`, and the walks of the visitor that it inherits.
use ast_serialize.Common.{
  Bool, true, false, ◌&&◌, ◌||◌, if◌then◌else◌, List, [], ◌∷◌, Option, none, some, Text, text_eq,
}
use ast_serialize.Ast.Expr.{
  Expr, Exprs, nil, cons, OptExpr, absent, present, Comprehensions, no_comprehensions,
  comprehension, DictItems, no_items, item, Keywords, no_keywords, keyword, FStringParts, no_parts,
  literal_part, f_string_part, TStrings, no_t_strings, t_string_part, Elements, no_elements,
  literal_element, interpolation, OptSpec, no_spec, some_spec, bool_op, named, bin_op, unary_op,
  lambda, if_expr, dict, set_display, list_comp, set_comp, dict_comp, generator, await, yield_expr,
  yield_from, compare, call, f_string, t_string, attribute, subscript, starred, name, list_display,
  tuple, slice,
}
use ast_serialize.Ast.Pattern.{
  Pattern, Patterns, OptPattern, no_pattern, some_pattern, PatternKeywords, no_pattern_keywords,
  pattern_keyword, match_value, match_sequence, match_mapping, match_class, match_as, match_or,
}
use ast_serialize.Ast.Stmt.{
  TypeParam, type_var, param_spec, type_var_tuple, WithItem, Stmt, Stmts, Clauses, no_clauses,
  clause, MatchCases, no_cases, match_case, Handlers, no_handlers, except_handler, function_def,
  class_def, return, delete, type_alias, assign, aug_assign, ann_assign, for_stmt, while_stmt,
  if_stmt, with_stmt, match_stmt, raise, try_stmt, assert, expr_stmt,
}

-- `first_param_name` never changes, and is an argument here.
pub record Detector : Type 0 where
  pub defines_attributes : Bool
  pub contains_yield : Bool

-- Whether an assignment target holds an attribute of the first parameter.
unfoldable mutual
  unfolding text_eq

  pub contains_param_attribute : Text → Expr → Bool
  contains_param_attribute param (attribute _ (name _ id _) _ _) = text_eq id param
  contains_param_attribute param (tuple _ elts _ _) = any_param_attribute param elts
  contains_param_attribute param (list_display _ elts _) = any_param_attribute param elts
  contains_param_attribute param (starred _ value _) = contains_param_attribute param value
  contains_param_attribute param _ = false

  pub any_param_attribute : Text → Exprs → Bool
  any_param_attribute param nil = false
  any_param_attribute param (cons e es) =
      contains_param_attribute param e || any_param_attribute param es

-- The early exit at the head of `visit_stmt` and `visit_expr`.
abbrev pub unless_both : Detector → Detector → Detector
unless_both d visited = if d.defines_attributes && d.contains_yield then d else visited

unfoldable mutual
  pub visit_expr : Expr → Detector → Detector
  visit_expr (yield_expr _ _) d = unless_both d (record d { contains_yield = true })
  visit_expr (yield_from _ _) d = unless_both d (record d { contains_yield = true })
  visit_expr (lambda _ _ _) d = unless_both d d
  visit_expr (bool_op _ _ values) d = unless_both d (visit_exprs values d)
  visit_expr (named _ target value) d = unless_both d (visit_expr target (visit_expr value d))
  visit_expr (bin_op _ left _ right) d = unless_both d (visit_expr right (visit_expr left d))
  visit_expr (unary_op _ _ operand) d = unless_both d (visit_expr operand d)
  visit_expr (if_expr _ test body orelse) d =
      unless_both d (visit_expr orelse (visit_expr body (visit_expr test d)))
  visit_expr (dict _ items) d = unless_both d (visit_items items d)
  visit_expr (set_display _ elts) d = unless_both d (visit_exprs elts d)
  visit_expr (list_comp _ elt generators) d =
      unless_both d (visit_expr elt (visit_comprehensions generators d))
  visit_expr (set_comp _ elt generators) d =
      unless_both d (visit_expr elt (visit_comprehensions generators d))
  visit_expr (dict_comp _ key value generators) d =
      unless_both d (visit_expr value (visit_opt key (visit_comprehensions generators d)))
  visit_expr (generator _ elt generators) d =
      unless_both d (visit_expr elt (visit_comprehensions generators d))
  visit_expr (await _ value) d = unless_both d (visit_expr value d)
  visit_expr (compare _ left _ comparators) d =
      unless_both d (visit_exprs comparators (visit_expr left d))
  visit_expr (call _ func args keywords) d =
      unless_both d (visit_keywords keywords (visit_exprs args (visit_expr func d)))
  visit_expr (f_string _ parts) d = unless_both d (visit_f_parts parts d)
  visit_expr (t_string _ parts) d = unless_both d (visit_t_strings parts d)
  visit_expr (attribute _ value _ _) d = unless_both d (visit_expr value d)
  visit_expr (subscript _ value index _) d = unless_both d (visit_expr index (visit_expr value d))
  visit_expr (starred _ value _) d = unless_both d (visit_expr value d)
  visit_expr (list_display _ elts _) d = unless_both d (visit_exprs elts d)
  visit_expr (tuple _ elts _ _) d = unless_both d (visit_exprs elts d)
  visit_expr (slice _ lower upper step) d =
      unless_both d (visit_opt step (visit_opt upper (visit_opt lower d)))
  visit_expr _ d = unless_both d d

  pub visit_exprs : Exprs → Detector → Detector
  visit_exprs nil d = d
  visit_exprs (cons e es) d = visit_exprs es (visit_expr e d)

  pub visit_opt : OptExpr → Detector → Detector
  visit_opt absent d = d
  visit_opt (present e) d = visit_expr e d

  pub visit_comprehensions : Comprehensions → Detector → Detector
  visit_comprehensions no_comprehensions d = d
  visit_comprehensions (comprehension target iter ifs _ rest) d =
      visit_comprehensions rest (visit_exprs ifs (visit_expr target (visit_expr iter d)))

  pub visit_items : DictItems → Detector → Detector
  visit_items no_items d = d
  visit_items (item key value rest) d = visit_items rest (visit_expr value (visit_opt key d))

  pub visit_keywords : Keywords → Detector → Detector
  visit_keywords no_keywords d = d
  visit_keywords (keyword _ value rest) d = visit_keywords rest (visit_expr value d)

  pub visit_f_parts : FStringParts → Detector → Detector
  visit_f_parts no_parts d = d
  visit_f_parts (literal_part _ rest) d = visit_f_parts rest d
  visit_f_parts (f_string_part elements rest) d = visit_f_parts rest (visit_elements elements d)

  pub visit_t_strings : TStrings → Detector → Detector
  visit_t_strings no_t_strings d = d
  visit_t_strings (t_string_part elements rest) d = visit_t_strings rest (visit_elements elements d)

  pub visit_elements : Elements → Detector → Detector
  visit_elements no_elements d = d
  visit_elements (literal_element _ _ rest) d = visit_elements rest d
  visit_elements (interpolation e _ _ format_spec rest) d =
      visit_elements rest (visit_spec format_spec (visit_expr e d))

  pub visit_spec : OptSpec → Detector → Detector
  visit_spec no_spec d = d
  visit_spec (some_spec _ elements) d = visit_elements elements d

unfoldable mutual
  unfolding visit_expr

  pub visit_pattern : Pattern → Detector → Detector
  visit_pattern (match_value _ value) d = visit_expr value d
  visit_pattern (match_sequence _ ps) d = visit_patterns ps d
  visit_pattern (match_mapping _ keys ps _) d = visit_patterns ps (visit_exprs keys d)
  visit_pattern (match_class _ cls ps keywords) d =
      visit_pattern_keywords keywords (visit_patterns ps (visit_expr cls d))
  visit_pattern (match_as _ p _) d = visit_opt_pattern p d
  visit_pattern (match_or _ ps) d = visit_patterns ps d
  visit_pattern _ d = d

  pub visit_patterns : Patterns → Detector → Detector
  visit_patterns Patterns.nil d = d
  visit_patterns (Patterns.cons p ps) d = visit_patterns ps (visit_pattern p d)

  pub visit_opt_pattern : OptPattern → Detector → Detector
  visit_opt_pattern no_pattern d = d
  visit_opt_pattern (some_pattern p) d = visit_pattern p d

  pub visit_pattern_keywords : PatternKeywords → Detector → Detector
  visit_pattern_keywords no_pattern_keywords d = d
  visit_pattern_keywords (pattern_keyword _ p rest) d =
      visit_pattern_keywords rest (visit_pattern p d)

unfoldable pub visit_type_params : List TypeParam → Detector → Detector
unfolding visit_expr
visit_type_params [] d = d
visit_type_params (type_var _ bound default ∷ rest) d =
    visit_type_params rest (visit_opt default (visit_opt bound d))
visit_type_params (param_spec _ default ∷ rest) d = visit_type_params rest (visit_opt default d)
visit_type_params (type_var_tuple _ default ∷ rest) d = visit_type_params rest (visit_opt default d)

unfoldable pub visit_opt_type_params : Option (List TypeParam) → Detector → Detector
unfolding visit_type_params
visit_opt_type_params none d = d
visit_opt_type_params (some params) d = visit_type_params params d

unfoldable pub visit_with_items : List WithItem → Detector → Detector
unfolding visit_expr
visit_with_items [] d = d
visit_with_items (w ∷ ws) d =
    visit_with_items ws (visit_opt w.optional_vars (visit_expr w.context_expr d))

-- Whether an `as` target of a `with` statement holds an attribute of the first parameter.
unfoldable pub opt_param_attribute : Text → OptExpr → Bool
unfolding contains_param_attribute
opt_param_attribute param absent = false
opt_param_attribute param (present e) = contains_param_attribute param e

unfoldable pub with_param_attribute : Text → List WithItem → Bool
unfolding opt_param_attribute
with_param_attribute param [] = false
with_param_attribute param (w ∷ ws) =
    opt_param_attribute param w.optional_vars || with_param_attribute param ws

-- An assignment to an attribute of the parameter ends the visit of its statement.
abbrev pub or_attribute : Bool → Detector → Detector → Detector
or_attribute found d visited = if found then record d { defines_attributes = true } else visited

unfoldable mutual
  unfolding visit_expr visit_pattern visit_opt_type_params visit_with_items with_param_attribute

  pub visit_stmt : Text → Stmt → Detector → Detector
  visit_stmt param (function_def _ _ _ _ _ _ _ _) d = unless_both d d
  visit_stmt param (class_def _ _ _ _ _ _) d = unless_both d d
  visit_stmt param (assign _ targets value) d = unless_both d (
      or_attribute (any_param_attribute param targets) d (visit_exprs targets (visit_expr value d)))
  visit_stmt param (aug_assign _ target _ value) d = unless_both d (
      or_attribute (contains_param_attribute param target) d
        (visit_expr target (visit_expr value d)))
  visit_stmt param (ann_assign _ target annotation value) d = unless_both d (
      or_attribute (contains_param_attribute param target) d
        (visit_expr target (visit_expr annotation (visit_opt value d))))
  visit_stmt param (with_stmt _ _ items body) d = unless_both d (
      or_attribute (with_param_attribute param items) d
        (visit_body param body (visit_with_items items d)))
  visit_stmt param (for_stmt _ _ target iter body orelse) d = unless_both d (
      or_attribute (contains_param_attribute param target) d
        (visit_body param orelse (visit_body param body (visit_expr target (visit_expr iter d)))))
  visit_stmt param (return _ value) d = unless_both d (visit_opt value d)
  visit_stmt param (delete _ targets) d = unless_both d (visit_exprs targets d)
  visit_stmt param (type_alias _ n type_params value) d =
      unless_both d (visit_expr n (visit_opt_type_params type_params (visit_expr value d)))
  visit_stmt param (while_stmt _ test body orelse) d =
      unless_both d (visit_body param orelse (visit_body param body (visit_expr test d)))
  visit_stmt param (if_stmt _ test body clauses) d =
      unless_both d (visit_clauses param clauses (visit_body param body (visit_expr test d)))
  visit_stmt param (match_stmt _ subject cases) d =
      unless_both d (visit_cases param cases (visit_expr subject d))
  visit_stmt param (raise _ exc cause) d = unless_both d (visit_opt cause (visit_opt exc d))
  visit_stmt param (try_stmt _ body handlers orelse finalbody _) d = unless_both d (
      visit_body param finalbody
        (visit_body param orelse (visit_handlers param handlers (visit_body param body d))))
  visit_stmt param (assert _ test msg) d = unless_both d (visit_opt msg (visit_expr test d))
  visit_stmt param (expr_stmt _ value) d = unless_both d (visit_expr value d)
  visit_stmt param _ d = unless_both d d

  pub visit_body : Text → Stmts → Detector → Detector
  visit_body param Stmts.nil d = d
  visit_body param (Stmts.cons s ss) d = visit_body param ss (visit_stmt param s d)

  pub visit_clauses : Text → Clauses → Detector → Detector
  visit_clauses param no_clauses d = d
  visit_clauses param (clause _ test body rest) d =
      visit_clauses param rest (visit_body param body (visit_opt test d))

  pub visit_cases : Text → MatchCases → Detector → Detector
  visit_cases param no_cases d = d
  visit_cases param (match_case _ pattern guard body rest) d =
      visit_cases param rest (visit_body param body (visit_opt guard (visit_pattern pattern d)))

  pub visit_handlers : Text → Handlers → Detector → Detector
  visit_handlers param no_handlers d = d
  visit_handlers param (except_handler _ type _ body rest) d =
      visit_handlers param rest (visit_body param body (visit_opt type d))
