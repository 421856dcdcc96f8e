-- ===== src/Effects/Correct.antt =====
-- The detector against the description of a scope.
use ast_serialize.Common.{
  Bool, false, ◌||◌, List, [], ◌∷◌, Option, none, some, ◌≡◌, refl, arith, any, Text,
}
use ast_serialize.Ast.Expr.{Parameters}
use ast_serialize.Ast.Pattern.{
  Pattern, Patterns, OptPattern, no_pattern, some_pattern, PatternKeywords, no_pattern_keywords,
  pattern_keyword, match_value, match_sequence, match_mapping, match_class, match_as, match_or,
  match_singleton, match_star,
}
use ast_serialize.Ast.Stmt.{
  TypeParam, type_var, param_spec, type_var_tuple, WithItem, Stmt, Stmts, Clauses, no_clauses,
  clause, MatchCases, no_cases, match_case, Handlers, no_handlers, except_handler, function_def,
  class_def, return, delete, type_alias, assign, aug_assign, ann_assign, for_stmt, while_stmt,
  if_stmt, with_stmt, match_stmt, raise, try_stmt, assert, expr_stmt, import, import_from, global,
  nonlocal, pass, break_stmt, continue_stmt, ipy_escape_stmt,
}
use ast_serialize.Effects.Detector.{
  Detector, visit_pattern, visit_patterns, visit_opt_pattern, visit_pattern_keywords,
  visit_type_params, visit_opt_type_params, visit_with_items, visit_stmt, visit_body, visit_clauses,
  visit_cases, visit_handlers,
}
use ast_serialize.Effects.Body.{is_trivial_body, first_param_name, has_externally_visible_effect}
use ast_serialize.Effects.Visible.{
  visible_pattern, visible_patterns, visible_opt_pattern, visible_pattern_keywords,
  visible_type_params, visible_opt_type_params, visible_with_items, visible_stmt, visible_body,
  visible_clauses, visible_cases, visible_handlers, is_effect,
}
use ast_serialize.Effects.Adds.{
  Adds, skipped, seq, guarded, assigned, visit_expr-Adds, visit_exprs-Adds, visit_opt-Adds,
}

module _ (param : Text) where
  mutual
    unfolding visit_pattern visible_pattern

    visit_pattern-Adds :
        (x : Pattern) (d : Detector) → Adds param d (visit_pattern x d) (visible_pattern x)
    visit_pattern-Adds (match_value _ x) d = (visit_expr-Adds param x _)
    visit_pattern-Adds (match_singleton _ _) d = skipped
    visit_pattern-Adds (match_sequence _ xs) d = (visit_patterns-Adds xs _)
    visit_pattern-Adds (match_mapping _ xs ys _) d =
        (seq (visit_exprs-Adds param xs _) (visit_patterns-Adds ys _))
    visit_pattern-Adds (match_class _ x ys zs) d =
        (seq (visit_expr-Adds param x _)
          (seq (visit_patterns-Adds ys _) (visit_pattern_keywords-Adds zs _)))
    visit_pattern-Adds (match_star _ _) d = skipped
    visit_pattern-Adds (match_as _ x _) d = (visit_opt_pattern-Adds x _)
    visit_pattern-Adds (match_or _ xs) d = (visit_patterns-Adds xs _)

    visit_patterns-Adds :
        (x : Patterns) (d : Detector) → Adds param d (visit_patterns x d) (visible_patterns x)
    visit_patterns-Adds Patterns.nil d = skipped
    visit_patterns-Adds (Patterns.cons x xs) d =
        (seq (visit_pattern-Adds x _) (visit_patterns-Adds xs _))

    visit_opt_pattern-Adds :
        (x : OptPattern) (d : Detector)
        → Adds param d (visit_opt_pattern x d) (visible_opt_pattern x)
    visit_opt_pattern-Adds no_pattern d = skipped
    visit_opt_pattern-Adds (some_pattern x) d = (visit_pattern-Adds x _)

    visit_pattern_keywords-Adds :
        (x : PatternKeywords) (d : Detector)
        → Adds param d (visit_pattern_keywords x d) (visible_pattern_keywords x)
    visit_pattern_keywords-Adds no_pattern_keywords d = skipped
    visit_pattern_keywords-Adds (pattern_keyword _ x rest) d =
        (seq (visit_pattern-Adds x _) (visit_pattern_keywords-Adds rest _))

  visit_type_params-Adds :
      (x : List TypeParam) (d : Detector)
      → Adds param d (visit_type_params x d) (visible_type_params x)
  unfolding visit_type_params visible_type_params
  visit_type_params-Adds [] d = skipped
  visit_type_params-Adds (type_var _ x y ∷ rest) d =
      seq (visit_opt-Adds param x _)
        (seq (visit_opt-Adds param y _) (visit_type_params-Adds rest _))
  visit_type_params-Adds (param_spec _ x ∷ rest) d =
      seq (visit_opt-Adds param x _) (visit_type_params-Adds rest _)
  visit_type_params-Adds (type_var_tuple _ x ∷ rest) d =
      seq (visit_opt-Adds param x _) (visit_type_params-Adds rest _)

  visit_opt_type_params-Adds :
      (x : Option (List TypeParam)) (d : Detector)
      → Adds param d (visit_opt_type_params x d) (visible_opt_type_params x)
  unfolding visit_opt_type_params visible_opt_type_params
  visit_opt_type_params-Adds none d = skipped
  visit_opt_type_params-Adds (some params) d = visit_type_params-Adds params d

  visit_with_items-Adds :
      (x : List WithItem) (d : Detector)
      → Adds param d (visit_with_items x d) (visible_with_items x)
  unfolding visit_with_items visible_with_items
  visit_with_items-Adds [] d = skipped
  visit_with_items-Adds (w ∷ ws) d =
      seq (visit_expr-Adds param w.context_expr _)
        (seq (visit_opt-Adds param w.optional_vars _) (visit_with_items-Adds ws _))

  mutual
    unfolding visit_stmt visible_stmt is_effect

    visit_stmt-Adds :
        (x : Stmt) (d : Detector) → Adds param d (visit_stmt param x d) (visible_stmt x)
    visit_stmt-Adds (function_def _ _ _ _ _ _ _ _) d = guarded refl skipped
    visit_stmt-Adds (class_def _ _ _ _ _ _) d = guarded refl skipped
    visit_stmt-Adds (assign _ xs y) d =
        assigned _ refl (seq (visit_expr-Adds param y _) (visit_exprs-Adds param xs _))
    visit_stmt-Adds (aug_assign _ x _ y) d =
        assigned _ refl (seq (visit_expr-Adds param y _) (visit_expr-Adds param x _))
    visit_stmt-Adds (ann_assign _ x y z) d = assigned _ refl (
        seq (visit_opt-Adds param z _)
          (seq (visit_expr-Adds param y _) (visit_expr-Adds param x _)))
    visit_stmt-Adds (with_stmt _ _ ws b) d =
        assigned _ refl (seq (visit_with_items-Adds ws _) (visit_body-Adds b _))
    visit_stmt-Adds (for_stmt _ _ x y b c) d = assigned _ refl (
        seq (visit_expr-Adds param y _)
          (seq (visit_expr-Adds param x _) (seq (visit_body-Adds b _) (visit_body-Adds c _))))
    visit_stmt-Adds (return _ x) d = guarded refl (visit_opt-Adds param x _)
    visit_stmt-Adds (delete _ xs) d = guarded refl (visit_exprs-Adds param xs _)
    visit_stmt-Adds (type_alias _ x ts y) d = guarded refl (
        seq (visit_expr-Adds param y _)
          (seq (visit_opt_type_params-Adds ts _) (visit_expr-Adds param x _)))
    visit_stmt-Adds (while_stmt _ x b c) d =
        guarded refl
          (seq (visit_expr-Adds param x _) (seq (visit_body-Adds b _) (visit_body-Adds c _)))
    visit_stmt-Adds (if_stmt _ x b cs) d =
        guarded refl
          (seq (visit_expr-Adds param x _) (seq (visit_body-Adds b _) (visit_clauses-Adds cs _)))
    visit_stmt-Adds (match_stmt _ x cs) d =
        guarded refl (seq (visit_expr-Adds param x _) (visit_cases-Adds cs _))
    visit_stmt-Adds (raise _ x y) d =
        guarded refl (seq (visit_opt-Adds param x _) (visit_opt-Adds param y _))
    visit_stmt-Adds (try_stmt _ b hs c f _) d = guarded refl (
        seq (visit_body-Adds b _)
          (seq (visit_handlers-Adds hs _) (seq (visit_body-Adds c _) (visit_body-Adds f _))))
    visit_stmt-Adds (assert _ x y) d =
        guarded refl (seq (visit_expr-Adds param x _) (visit_opt-Adds param y _))
    visit_stmt-Adds (expr_stmt _ x) d = guarded refl (visit_expr-Adds param x _)
    visit_stmt-Adds (import _ _ _) d = guarded refl skipped
    visit_stmt-Adds (import_from _ _ _ _ _) d = guarded refl skipped
    visit_stmt-Adds (global _ _) d = guarded refl skipped
    visit_stmt-Adds (nonlocal _ _) d = guarded refl skipped
    visit_stmt-Adds (pass _) d = guarded refl skipped
    visit_stmt-Adds (break_stmt _) d = guarded refl skipped
    visit_stmt-Adds (continue_stmt _) d = guarded refl skipped
    visit_stmt-Adds (ipy_escape_stmt _) d = guarded refl skipped

    visit_body-Adds :
        (x : Stmts) (d : Detector) → Adds param d (visit_body param x d) (visible_body x)
    visit_body-Adds Stmts.nil d = skipped
    visit_body-Adds (Stmts.cons x xs) d = (seq (visit_stmt-Adds x _) (visit_body-Adds xs _))

    visit_clauses-Adds :
        (x : Clauses) (d : Detector) → Adds param d (visit_clauses param x d) (visible_clauses x)
    visit_clauses-Adds no_clauses d = skipped
    visit_clauses-Adds (clause _ x b rest) d =
        (seq (visit_opt-Adds param x _) (seq (visit_body-Adds b _) (visit_clauses-Adds rest _)))

    visit_cases-Adds :
        (x : MatchCases) (d : Detector) → Adds param d (visit_cases param x d) (visible_cases x)
    visit_cases-Adds no_cases d = skipped
    visit_cases-Adds (match_case _ p x b rest) d =
        (seq (visit_pattern-Adds p _)
          (seq (visit_opt-Adds param x _) (seq (visit_body-Adds b _) (visit_cases-Adds rest _))))

    visit_handlers-Adds :
        (x : Handlers) (d : Detector) → Adds param d (visit_handlers param x d) (visible_handlers x)
    visit_handlers-Adds no_handlers d = skipped
    visit_handlers-Adds (except_handler _ x _ b rest) d =
        (seq (visit_opt-Adds param x _) (seq (visit_body-Adds b _) (visit_handlers-Adds rest _)))

-- A body has an externally visible effect exactly when it is trivial, or its scope holds a yield or
-- an assignment to an attribute of the first parameter (of the parameter named "", where attributes
-- are not checked). Nested functions, classes and lambdas do not count.
pub has_externally_visible_effect_iff :
    (body : Stmts) (params : Parameters) (check_attributes : Bool)
    → has_externally_visible_effect body params check_attributes ≡ (
        is_trivial_body body
        || any (is_effect (first_param_name params check_attributes)) (visible_body body))
unfolding has_externally_visible_effect
has_externally_visible_effect_iff body params check_attributes =
    let start : Detector = record { defines_attributes = false; contains_yield = false } in
    let a = visit_body-Adds (first_param_name params check_attributes) body start in
    ground (arith, a.added)
