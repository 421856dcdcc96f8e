-- ===== src/Effects/Adds.antt =====
-- What the visit of an expression adds to what the detector has found.
use ast_serialize.Common.{
  Bool, true, false, ◌||◌, List, [], ◌∷◌, ◌++◌, ◌≡◌, refl, sym, arith, any, Text, or_assoc,
  or_false,
}
use ast_serialize.Ast.Expr.{
  Expr, Exprs, nil, cons, OptExpr, absent, present, Comprehensions, no_comprehensions,
  comprehension, DictItems, no_items, item, Keywords, no_keywords, keyword, FStringParts, no_parts,
  literal_part, f_string_part, TStrings, no_t_strings, t_string_part, Elements, no_elements,
  literal_element, interpolation, OptSpec, no_spec, some_spec, bool_op, named, bin_op, unary_op,
  lambda, if_expr, dict, set_display, list_comp, set_comp, dict_comp, generator, await, yield_expr,
  yield_from, compare, call, f_string, t_string, attribute, subscript, starred, name, list_display,
  tuple, slice, string_literal, bytes_literal, number_literal, boolean_literal, none_literal,
  ellipsis_literal, ipy_escape_command,
}
use ast_serialize.Effects.Detector.{
  Detector, unless_both, or_attribute, visit_expr, visit_exprs, visit_opt, visit_comprehensions,
  visit_items, visit_keywords, visit_f_parts, visit_t_strings, visit_elements, visit_spec,
}
use ast_serialize.Effects.Visible.{
  Node, visible_expr, visible_exprs, visible_opt, visible_comprehensions, visible_items,
  visible_keywords, visible_f_parts, visible_t_strings, visible_elements, visible_spec, is_effect,
}

-- The result of the detector: `defines_attributes || contains_yield`.
abbrev pub found : Detector → Bool
found d = d.defines_attributes || d.contains_yield

-- The detector at `d'` has found what it had at `d`, and the effects of the nodes.
pub record Adds (param : Text) (d d' : Detector) (nodes : List Node) : Type 0 where
  pub added : found d' ≡ (found d || any (is_effect param) nodes)

any-append {ℓ} :
    {A : Type ℓ} (p : A → Bool) (xs ys : List A) → any p (xs ++ ys) ≡ (any p xs || any p ys)
any-append p [] ys = refl
any-append p (x ∷ xs) ys = rw (any-append p xs ys) (sym (or_assoc (p x) (any p xs) (any p ys)))

module _ {param : Text} where
  pub skipped : {d : Detector} → Adds param d d []
  skipped {d} = record { added = sym (or_false (found d)) }

  pub seq :
      {d e f : Detector} {xs ys : List Node}
      → Adds param d e xs
      → Adds param e f ys
      → Adds param d f (xs ++ ys)
  seq {d} {e} {f} {xs} {ys} a b = record {
    added =
        rw (b.added, a.added, any-append (is_effect param) xs ys)
          (or_assoc (found d) (any (is_effect param) xs) (any (is_effect param) ys));
  }

  pub guarded :
      {d e : Detector} {n : Node} {xs : List Node}
      → is_effect param n ≡ false
      → Adds param d e xs
      → Adds param d (unless_both d e) (n ∷ xs)
  guarded {d} {e} {n} {xs} q a = record { added = ground (arith, a.added) }

  pub assigned :
      {d e : Detector} {n : Node} {xs : List Node} (b : Bool)
      → is_effect param n ≡ b
      → Adds param d e xs
      → Adds param d (unless_both d (or_attribute b d e)) (n ∷ xs)
  assigned {d} {e} {n} {xs} b q a = record { added = ground (arith, a.added) }

  pub yielded :
      {d : Detector} {n : Node}
      → is_effect param n ≡ true
      → Adds param d (unless_both d (record d { contains_yield = true })) (n ∷ [])
  yielded {d} {n} q = record { added = ground arith }

module _ (param : Text) where
  mutual
    unfolding visit_expr visible_expr is_effect

    pub visit_expr-Adds : (x : Expr) (d : Detector) → Adds param d (visit_expr x d) (visible_expr x)
    visit_expr-Adds (bool_op _ _ vs) d = guarded refl (visit_exprs-Adds vs _)
    visit_expr-Adds (named _ x y) d = guarded refl (seq (visit_expr-Adds y _) (visit_expr-Adds x _))
    visit_expr-Adds (bin_op _ x _ y) d =
        guarded refl (seq (visit_expr-Adds x _) (visit_expr-Adds y _))
    visit_expr-Adds (unary_op _ _ x) d = guarded refl (visit_expr-Adds x _)
    visit_expr-Adds (if_expr _ x y z) d =
        guarded refl (seq (visit_expr-Adds x _) (seq (visit_expr-Adds y _) (visit_expr-Adds z _)))
    visit_expr-Adds (dict _ xs) d = guarded refl (visit_items-Adds xs _)
    visit_expr-Adds (set_display _ xs) d = guarded refl (visit_exprs-Adds xs _)
    visit_expr-Adds (list_comp _ x gs) d =
        guarded refl (seq (visit_comprehensions-Adds gs _) (visit_expr-Adds x _))
    visit_expr-Adds (set_comp _ x gs) d =
        guarded refl (seq (visit_comprehensions-Adds gs _) (visit_expr-Adds x _))
    visit_expr-Adds (dict_comp _ x y gs) d =
        guarded refl
          (seq (visit_comprehensions-Adds gs _) (seq (visit_opt-Adds x _) (visit_expr-Adds y _)))
    visit_expr-Adds (generator _ x gs) d =
        guarded refl (seq (visit_comprehensions-Adds gs _) (visit_expr-Adds x _))
    visit_expr-Adds (await _ x) d = guarded refl (visit_expr-Adds x _)
    visit_expr-Adds (compare _ x _ ys) d =
        guarded refl (seq (visit_expr-Adds x _) (visit_exprs-Adds ys _))
    visit_expr-Adds (call _ x ys ks) d =
        guarded refl
          (seq (visit_expr-Adds x _) (seq (visit_exprs-Adds ys _) (visit_keywords-Adds ks _)))
    visit_expr-Adds (f_string _ xs) d = guarded refl (visit_f_parts-Adds xs _)
    visit_expr-Adds (t_string _ xs) d = guarded refl (visit_t_strings-Adds xs _)
    visit_expr-Adds (attribute _ x _ _) d = guarded refl (visit_expr-Adds x _)
    visit_expr-Adds (subscript _ x y _) d =
        guarded refl (seq (visit_expr-Adds x _) (visit_expr-Adds y _))
    visit_expr-Adds (starred _ x _) d = guarded refl (visit_expr-Adds x _)
    visit_expr-Adds (list_display _ xs _) d = guarded refl (visit_exprs-Adds xs _)
    visit_expr-Adds (tuple _ xs _ _) d = guarded refl (visit_exprs-Adds xs _)
    visit_expr-Adds (slice _ x y z) d =
        guarded refl (seq (visit_opt-Adds x _) (seq (visit_opt-Adds y _) (visit_opt-Adds z _)))
    visit_expr-Adds (yield_expr _ _) d = yielded refl
    visit_expr-Adds (yield_from _ _) d = yielded refl
    visit_expr-Adds (string_literal _ _) d = guarded refl skipped
    visit_expr-Adds (bytes_literal _ _) d = guarded refl skipped
    visit_expr-Adds (number_literal _ _) d = guarded refl skipped
    visit_expr-Adds (boolean_literal _ _) d = guarded refl skipped
    visit_expr-Adds (none_literal _) d = guarded refl skipped
    visit_expr-Adds (ellipsis_literal _) d = guarded refl skipped
    visit_expr-Adds (name _ _ _) d = guarded refl skipped
    visit_expr-Adds (ipy_escape_command _) d = guarded refl skipped
    visit_expr-Adds (lambda _ _ _) d = guarded refl skipped

    pub visit_exprs-Adds :
        (x : Exprs) (d : Detector) → Adds param d (visit_exprs x d) (visible_exprs x)
    visit_exprs-Adds nil d = skipped
    visit_exprs-Adds (cons x xs) d = (seq (visit_expr-Adds x _) (visit_exprs-Adds xs _))

    pub visit_opt-Adds : (x : OptExpr) (d : Detector) → Adds param d (visit_opt x d) (visible_opt x)
    visit_opt-Adds absent d = skipped
    visit_opt-Adds (present x) d = (visit_expr-Adds x _)

    pub visit_comprehensions-Adds :
        (x : Comprehensions) (d : Detector)
        → Adds param d (visit_comprehensions x d) (visible_comprehensions x)
    visit_comprehensions-Adds no_comprehensions d = skipped
    visit_comprehensions-Adds (comprehension x y zs _ rest) d =
        (seq (visit_expr-Adds y _) (
          seq (visit_expr-Adds x _)
            (seq (visit_exprs-Adds zs _) (visit_comprehensions-Adds rest _))))

    pub visit_items-Adds :
        (x : DictItems) (d : Detector) → Adds param d (visit_items x d) (visible_items x)
    visit_items-Adds no_items d = skipped
    visit_items-Adds (item x y rest) d =
        (seq (visit_opt-Adds x _) (seq (visit_expr-Adds y _) (visit_items-Adds rest _)))

    pub visit_keywords-Adds :
        (x : Keywords) (d : Detector) → Adds param d (visit_keywords x d) (visible_keywords x)
    visit_keywords-Adds no_keywords d = skipped
    visit_keywords-Adds (keyword _ x rest) d =
        (seq (visit_expr-Adds x _) (visit_keywords-Adds rest _))

    pub visit_f_parts-Adds :
        (x : FStringParts) (d : Detector) → Adds param d (visit_f_parts x d) (visible_f_parts x)
    visit_f_parts-Adds no_parts d = skipped
    visit_f_parts-Adds (literal_part _ rest) d = (visit_f_parts-Adds rest _)
    visit_f_parts-Adds (f_string_part xs rest) d =
        (seq (visit_elements-Adds xs _) (visit_f_parts-Adds rest _))

    pub visit_t_strings-Adds :
        (x : TStrings) (d : Detector) → Adds param d (visit_t_strings x d) (visible_t_strings x)
    visit_t_strings-Adds no_t_strings d = skipped
    visit_t_strings-Adds (t_string_part xs rest) d =
        (seq (visit_elements-Adds xs _) (visit_t_strings-Adds rest _))

    pub visit_elements-Adds :
        (x : Elements) (d : Detector) → Adds param d (visit_elements x d) (visible_elements x)
    visit_elements-Adds no_elements d = skipped
    visit_elements-Adds (literal_element _ _ rest) d = (visit_elements-Adds rest _)
    visit_elements-Adds (interpolation x _ _ s rest) d =
        (seq (visit_expr-Adds x _) (seq (visit_spec-Adds s _) (visit_elements-Adds rest _)))

    pub visit_spec-Adds :
        (x : OptSpec) (d : Detector) → Adds param d (visit_spec x d) (visible_spec x)
    visit_spec-Adds no_spec d = skipped
    visit_spec-Adds (some_spec _ xs) d = (visit_elements-Adds xs _)
