-- ===== src/Branches/Execution.antt =====
-- Which blocks of an `if` statement run, given what each condition is worth.
use mathlib.Core.Path.{subst}
use mathlib.Core.Option.{some-injective}
use ast_serialize.Common.{
  Bool, true, false, not, ◌&&◌, ◌||◌, List, [], ◌∷◌, ◌≡◌, refl, Option, none, some, >>=-eq-some,
}
use ast_serialize.Options.{Options}
use ast_serialize.Ast.Expr.{Expr, absent, present}
use ast_serialize.Ast.Stmt.{Clauses, no_clauses, clause}
use ast_serialize.Branches.{
  Analyzer, new, Flags, IfFlags, condition_flags, else_flags, clause_flags, has_else, synthetic,
  if_flags,
}

-- `done` says that an earlier block has run. The second part says whether any block has run.
unfoldable pub clauses_run : (Expr → Bool) → Bool → Clauses → List Bool × Bool
clauses_run worth done no_clauses = ([], done)
clauses_run worth done (clause _ (present e) _ rest) =
    let (later, last) = clauses_run worth (done || worth e) rest in
    ((not done && worth e) ∷ later, last)
clauses_run worth done (clause _ absent _ rest) =
    let (later, last) = clauses_run worth true rest in (not done ∷ later, last)

-- Every pair of a block's run and its flags meets `P`.
abbrev pub Each : (Bool → Flags → Type 0) → List Bool → List Flags → Type 0
Each P [] [] = Unit
Each P (b ∷ bs) (f ∷ fs) = P b f × Each P bs fs
Each P _ _ = ⊥

abbrev pub EachElse : (Bool → Flags → Type 0) → Bool → Option Flags → Type 0
EachElse P b none = Unit
EachElse P b (some f) = P b f

-- `P` holds of the main block, of every clause, and of the `else` that is not written.
pub record EachBlock (P : Bool → Flags → Type 0) (worth : Expr → Bool) (test : Expr)
    (clauses : Clauses) (flags : IfFlags) : Type 0 where
  pub main : P (worth test) flags.main_flags
  pub clauses_each : Each P (clauses_run worth (worth test) clauses).0 flags.clause_flags
  pub synthetic_else :
      EachElse P (not (clauses_run worth (worth test) clauses).1) flags.synthetic_else_flags

-- Only the last clause can be an `else`, as in every parsed statement.
unfoldable pub else_is_last : Clauses → Bool
else_is_last no_clauses = true
else_is_last (clause _ (present _) _ rest) = else_is_last rest
else_is_last (clause _ absent _ no_clauses) = true
else_is_last (clause _ absent _ _) = false

-- Every condition of the clauses meets `Q`.
abbrev pub Conditions : (Expr → Type 0) → Clauses → Type 0
Conditions Q no_clauses = Unit
Conditions Q (clause _ (present e) _ rest) = Q e × Conditions Q rest
Conditions Q (clause _ absent _ rest) = Conditions Q rest

-- A property of all blocks by an invariant of the analyzer: one step for a condition, one for `else`.
module _ (options : Options) (worth : Expr → Bool) (Q : Expr → Type 0)
    (I : Bool → Analyzer → Type 0) (P : Bool → Flags → Type 0)
    (condition_step : (a : Analyzer) (e : Expr) (done : Bool) (f : Flags) (a' : Analyzer)
      → Q e
      → I done a
      → condition_flags options a e ≡ some (f, a')
      → P (not done && worth e) f × I (done || worth e) a')
    (else_step : (a : Analyzer) (done : Bool) → I done a → P (not done) (else_flags a)) where
  clause_flags-Each :
      (clauses : Clauses) (a : Analyzer) (done : Bool) (fs : List Flags) (a' : Analyzer)
      → else_is_last clauses ≡ true
      → Conditions Q clauses
      → I done a
      → clause_flags options a clauses ≡ some (fs, a')
      → Each P (clauses_run worth done clauses).0 fs
        × (has_else clauses ≡ false → I (clauses_run worth done clauses).1 a')
  unfolding clause_flags clauses_run has_else else_is_last
  clause_flags-Each no_clauses a done fs a' l q i h =
      subst (λ (p : List Flags × Analyzer). Each P [] p.0 × (false ≡ false → I done p.1))
        (some-injective _ _ h) (tt, λ _. i)
  clause_flags-Each (clause r (present e) body rest) a done fs a' l q i h =
      let ((f, b), first, more) = >>=-eq-some (condition_flags options a e) _ h in
      let ((gs, c), later, back) = >>=-eq-some (clause_flags options b rest) _ more in
      let (pf, ib) = condition_step a e done f b q.0 i first in
      let (each, ic) = clause_flags-Each rest b (done || worth e) gs c l q.1 ib later in
      subst
        (λ (p : List Flags × Analyzer).
          Each P (clauses_run worth done (clause r (present e) body rest)).0 p.0
          × (has_else (clause r (present e) body rest) ≡ false
              → I (clauses_run worth (done || worth e) rest).1 p.1))
        (some-injective _ _ back) ((pf, each), λ e. ic (has_else-rest rest e))
    where
      has_else-rest :
          (rest : Clauses)
          → has_else (clause r (present e) body rest) ≡ false
          → has_else rest ≡ false
      has_else-rest no_clauses k = refl
      has_else-rest (clause _ _ _ _) k = k
  clause_flags-Each (clause r absent body no_clauses) a done fs a' l q i h =
      subst
        (λ (p : List Flags × Analyzer). Each P (not done ∷ []) p.0 × (true ≡ false → I true p.1))
        (some-injective _ _ h) ((else_step a done i, tt), λ e. cc)
  clause_flags-Each (clause r absent body (clause _ _ _ _)) a done fs a' l q i h = cc

  synthetic-EachElse :
      (b done : Bool) (a : Analyzer)
      → (b ≡ false → I done a)
      → EachElse P (not done) (synthetic b a)
  synthetic-EachElse true done a i = tt
  synthetic-EachElse false done a i = else_step a done (i refl)

  pub if_flags-EachBlock :
      (test : Expr) (clauses : Clauses) (flags : IfFlags)
      → else_is_last clauses ≡ true
      → Q test
      → Conditions Q clauses
      → I false new
      → if_flags options test clauses ≡ some flags
      → EachBlock P worth test clauses flags
  unfolding if_flags
  if_flags-EachBlock test clauses flags l q qs i h =
      let ((main, a), first, more) = >>=-eq-some (condition_flags options new test) _ h in
      let ((later, last), rest, back) = >>=-eq-some (clause_flags options a clauses) _ more in
      let (pm, ia) = condition_step new test false main a q i first in
      let (each, il) = clause_flags-Each clauses a (worth test) later last l qs ia rest in
      subst (EachBlock P worth test clauses) (some-injective _ _ back) (record {
        main = pm;
        clauses_each = each;
        synthetic_else = synthetic-EachElse (has_else clauses) _ last il;
      })
