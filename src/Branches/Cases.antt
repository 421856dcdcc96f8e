-- ===== src/Branches/Cases.antt =====
-- The marks of `match` cases.
use mathlib.Core.Path.{subst}
use mathlib.Core.Option.{some-injective}
use ast_serialize.Common.{
  Bool, true, false, not, ◌&&◌, ◌||◌, List, [], ◌∷◌, ◌≡◌, refl, arith, Option, some, >>=-eq-some,
}
use ast_serialize.Options.{Options}
use ast_serialize.Ast.Expr.{Expr, OptExpr, absent, present, TextRange, Identifier}
use ast_serialize.Ast.Pattern.{Pattern, Patterns, match_as, match_or, no_pattern}
use ast_serialize.Ast.Stmt.{MatchCases, no_cases, match_case}
use ast_serialize.Reachability.Truth.{TruthValue, always_true}
use ast_serialize.Reachability.BoolOps.{Says}
use ast_serialize.Reachability.Soundness.{holds, Respects, infer_condition_value_sound}
use ast_serialize.Reachability.Infer.{infer_pattern_value, any_always_true, is_always_true}
use ast_serialize.Branches.{
  Analyzer, new, Flags, flags_of_case, guard_value, match_case_flags, case_flags,
}
use ast_serialize.Branches.Execution.{Each}
use ast_serialize.Branches.Sound.{RunsReachable}

-- Whether some pattern of a list matches.
abbrev pub any_matches : (Pattern → Bool) → Patterns → Bool
any_matches matches Patterns.nil = false
any_matches matches (Patterns.cons p ps) = matches p || any_matches matches ps

-- What a subject does: a bare name or `_` matches it, and an or-pattern matches it if a part does.
pub record MatchesAsPython (matches : Pattern → Bool) : Type 0 where
  pub as_name : (r : TextRange) (n : Option Identifier) → matches (match_as r no_pattern n) ≡ true
  pub or_parts : (r : TextRange) (ps : Patterns) → matches (match_or r ps) ≡ any_matches matches ps

or_sound :
    (v : TruthValue) (b c d : Bool)
    → Says v b
    → (c ≡ true → d ≡ true)
    → (is_always_true v || c) ≡ true
    → (b || d) ≡ true
or_sound always_true b c d s f h = ground arith
or_sound _ b c d s f h = ground arith

module _ {matches : Pattern → Bool} (m : MatchesAsPython matches) where
  mutual
    unfolding infer_pattern_value

    pattern_sound : (p : Pattern) → Says (infer_pattern_value p) (matches p)
    pattern_sound (match_as r no_pattern n) = m.as_name r n
    pattern_sound (match_or r ps) = ground (arith, m.or_parts r ps, patterns_sound ps)
    pattern_sound _ = tt

    patterns_sound : (ps : Patterns) → any_always_true ps ≡ true → any_matches matches ps ≡ true
    patterns_sound Patterns.nil h = cc
    patterns_sound (Patterns.cons p ps) h =
        or_sound (infer_pattern_value p) (matches p) (any_always_true ps) (any_matches matches ps)
          (pattern_sound p) (patterns_sound ps) h

abbrev pub guard_holds : (Expr → Bool) → OptExpr → Bool
guard_holds worth absent = true
guard_holds worth (present e) = worth e

-- Which cases run: the first whose pattern matches and whose guard holds.
unfoldable pub cases_run : (Pattern → Bool) → (Expr → Bool) → Bool → MatchCases → List Bool
cases_run matches worth done no_cases = []
cases_run matches worth done (match_case _ pattern guard _ rest) =
    let here = matches pattern && guard_holds worth guard in
    (not done && here) ∷ cases_run matches worth (done || here) rest

abbrev Open : Bool → Analyzer → Type 0
Open done a = done ≡ false → a.tail_unreachable ≡ false

flags_of_case-Open :
    (a : Analyzer) (p g : TruthValue) (done x y : Bool)
    → Open done a
    → Says p x
    → Says g y
    → RunsReachable (not done && (x && y)) (flags_of_case a p g).0
      × Open (done || (x && y)) (flags_of_case a p g).1
unfolding flags_of_case
flags_of_case-Open a always_true always_true done x y o s t = ground arith
flags_of_case-Open a _ _ done x y o s t = ground arith

module _ (options : Options) (state : Expr → Bool) (matches : Pattern → Bool)
    (s : Respects options state) (m : MatchesAsPython matches) where
  guard_sound :
      (guard : OptExpr) (v : TruthValue)
      → guard_value options guard ≡ some v
      → Says v (guard_holds (holds state) guard)
  unfolding guard_value
  guard_sound absent v h = subst (λ u. Says u true) (some-injective _ _ h) refl
  guard_sound (present e) v h = infer_condition_value_sound options state s e v h

  match_case_flags-Open :
      (a : Analyzer) (pattern : Pattern) (guard : OptExpr) (done : Bool) (f : Flags) (a' : Analyzer)
      → Open done a
      → match_case_flags options a pattern guard ≡ some (f, a')
      → RunsReachable (not done && (matches pattern && guard_holds (holds state) guard)) f
        × Open (done || (matches pattern && guard_holds (holds state) guard)) a'
  unfolding match_case_flags
  match_case_flags-Open a pattern guard done f a' o h =
      let (g, inferred, back) = >>=-eq-some (guard_value options guard) _ h in
      let here = matches pattern && guard_holds (holds state) guard in
      subst
        (λ (p : Flags × Analyzer). RunsReachable (not done && here) p.0 × Open (done || here) p.1)
        (some-injective _ _ back)
        (flags_of_case-Open a (infer_pattern_value pattern) g done (matches pattern) _ o
          (pattern_sound m pattern) (guard_sound guard g inferred))

  case_flags-Each :
      (cases : MatchCases) (a : Analyzer) (done : Bool) (fs : List Flags)
      → Open done a
      → case_flags options a cases ≡ some fs
      → Each RunsReachable (cases_run matches (holds state) done cases) fs
  unfolding case_flags cases_run
  case_flags-Each no_cases a done fs o h = subst (Each RunsReachable []) (some-injective _ _ h) tt
  case_flags-Each (match_case r pattern guard body rest) a done fs o h =
      let ((f, b), first, more) = >>=-eq-some (match_case_flags options a pattern guard) _ h in
      let (gs, later, back) = >>=-eq-some (case_flags options b rest) _ more in
      let (reachable, open_b) = match_case_flags-Open a pattern guard done f b o first in
      let here = matches pattern && guard_holds (holds state) guard in
      subst
        (Each RunsReachable
          (cases_run matches (holds state) done (match_case r pattern guard body rest)))
        (some-injective _ _ back) (reachable, case_flags-Each rest b (done || here) gs open_b later)

  -- The `match` case that runs, the first whose pattern matches and whose guard holds, is not marked
  -- unreachable, in every state that respects the options, where the analysis answers and patterns
  -- match as in Python: a bare name or `_` matches, and an or-pattern matches if a part does.
  pub case_flags_sound :
      (cases : MatchCases) (fs : List Flags)
      → case_flags options new cases ≡ some fs
      → Each RunsReachable (cases_run matches (holds state) false cases) fs
  case_flags_sound cases fs h = case_flags-Each cases new false fs (λ e. refl) h
