-- ===== src/Branches/Total.antt =====
-- Statements whose conditions are as the parser makes them.
use ast_serialize.Common.{
  Bool, true, ◌&&◌, [], ◌∷◌, Option, none, some, is_some, ◌≡◌, refl, and_true,
}
use ast_serialize.Options.{Options}
use ast_serialize.Ast.Expr.{Expr, OptExpr, absent, present}
use ast_serialize.Ast.Stmt.{Clauses, no_clauses, clause, MatchCases, no_cases, match_case}
use ast_serialize.Reachability.Total.{well_formed, infer_condition_value_total}
use ast_serialize.Reachability.Infer.{infer_condition_value, infer_pattern_value}
use ast_serialize.Reachability.Truth.{always_true}
use ast_serialize.Branches.{
  Analyzer, new, flags_of_truth, flags_of_case, condition_flags, else_flags, clause_flags, if_flags,
  guard_value, match_case_flags, case_flags,
}
use ast_serialize.Branches.Execution.{Conditions}

-- The answer of a computation that has one.
abbrev Answers {ℓ} : {A : Type ℓ} → Option A → Type ℓ
Answers {A} m = (a : A) × (m ≡ some a)

answer {ℓ} : {A : Type ℓ} (m : Option A) → is_some m ≡ true → Answers m
answer none h = cc
answer (some a) h = (a, refl)

abbrev pub guard_well_formed : OptExpr → Bool
guard_well_formed absent = true
guard_well_formed (present e) = well_formed e

abbrev pub guards_well_formed : MatchCases → Bool
guards_well_formed no_cases = true
guards_well_formed (match_case _ _ guard _ rest) =
    guard_well_formed guard && guards_well_formed rest

module _ (options : Options) where
  condition_flags-Answers :
      (a : Analyzer) (e : Expr) → well_formed e ≡ true → Answers (condition_flags options a e)
  unfolding condition_flags
  condition_flags-Answers a e h =
      let (v, known) =
        answer (infer_condition_value options e) (infer_condition_value_total options e h) in
      (flags_of_truth a v, rw known refl)

  clause_flags-Answers :
      (clauses : Clauses) (a : Analyzer)
      → Conditions (λ e. well_formed e ≡ true) clauses
      → Answers (clause_flags options a clauses)
  unfolding clause_flags
  clause_flags-Answers no_clauses a h = (([], a), refl)
  clause_flags-Answers (clause r (present e) body rest) a (h, hs) =
      let ((f, b), first) = condition_flags-Answers a e h in
      let ((fs, c), later) = clause_flags-Answers rest b hs in ((f ∷ fs, c), rw (first, later) refl)
  clause_flags-Answers (clause r absent body rest) a hs =
      let ((fs, c), later) = clause_flags-Answers rest a hs in
      ((else_flags a ∷ fs, c), rw later refl)

  -- The analysis of an `if` statement answers, if every comparison in its conditions has an operator
  -- and a right operand.
  pub if_flags_total :
      (test : Expr) (clauses : Clauses)
      → well_formed test ≡ true
      → Conditions (λ e. well_formed e ≡ true) clauses
      → is_some (if_flags options test clauses) ≡ true
  unfolding if_flags
  if_flags_total test clauses h hs =
      let ((f, a), first) = condition_flags-Answers new test h in
      let ((fs, b), later) = clause_flags-Answers clauses a hs in rw (first, later) refl

  guard_value-Answers :
      (guard : OptExpr) → guard_well_formed guard ≡ true → Answers (guard_value options guard)
  unfolding guard_value
  guard_value-Answers absent h = (always_true, refl)
  guard_value-Answers (present e) h = answer _ (infer_condition_value_total options e h)

  case_flags-Answers :
      (cases : MatchCases) (a : Analyzer)
      → guards_well_formed cases ≡ true
      → Answers (case_flags options a cases)
  unfolding case_flags match_case_flags
  case_flags-Answers no_cases a h = ([], refl)
  case_flags-Answers (match_case r pattern guard body rest) a h =
      let (hg, hs) = and_true (guard_well_formed guard) (guards_well_formed rest) h in
      let (g, known) = guard_value-Answers guard hg in
      let (f, b) = flags_of_case a (infer_pattern_value pattern) g in
      let (fs, later) = case_flags-Answers rest b hs in (f ∷ fs, rw (known, later) refl)

  -- The analysis of a `match` statement answers, if every comparison in its guards has an operator
  -- and a right operand.
  pub case_flags_total :
      (cases : MatchCases)
      → guards_well_formed cases ≡ true
      → is_some (case_flags options new cases) ≡ true
  case_flags_total cases h = let (fs, known) = case_flags-Answers cases new h in rw known refl
