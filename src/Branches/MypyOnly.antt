-- ===== src/Branches/MypyOnly.antt =====
-- Blocks that mypy reads though they do not run. Here a condition is worth what it is at run time.
use mathlib.Core.Path.{subst}
use mathlib.Core.Option.{some-injective}
use ast_serialize.Common.{Bool, true, false, not, ◌&&◌, ◌||◌, ◌≡◌, arith, some, >>=-eq-some}
use ast_serialize.Options.{Options}
use ast_serialize.Ast.Expr.{Expr}
use ast_serialize.Ast.Stmt.{Clauses}
use ast_serialize.Reachability.Truth.{
  TruthValue, always_true, mypy_true, always_false, mypy_false, truth_value_unknown,
}
use ast_serialize.Reachability.Infer.{infer_condition_value}
use ast_serialize.Branches.{
  Analyzer, Flags, IfFlags, flags_of_truth, condition_flags, else_flags, if_flags,
}
use ast_serialize.Branches.Execution.{EachBlock, Conditions, else_is_last, if_flags-EachBlock}

-- What a truth value says of a run of the program, as the comments on `TruthValue` put it.
abbrev pub SaysAtRuntime : TruthValue → Bool → Type 0
SaysAtRuntime always_true b = b ≡ true
SaysAtRuntime mypy_true b = b ≡ false
SaysAtRuntime always_false b = b ≡ false
SaysAtRuntime mypy_false b = b ≡ true
SaysAtRuntime truth_value_unknown b = Unit

abbrev pub RightAtRuntime : Options → (Expr → Bool) → Expr → Type 0
RightAtRuntime options worth e =
    (v : TruthValue) → infer_condition_value options e ≡ some v → SaysAtRuntime v (worth e)

abbrev pub SkippedAtRuntime : Bool → Flags → Type 0
SkippedAtRuntime runs flags = (flags.mypy_only && (runs || flags.unreachable)) ≡ false

-- A condition that is false for mypy alone has been true at run time.
abbrev SeenFalse : Bool → Analyzer → Type 0
SeenFalse done a = a.seen_mypy_false ≡ true → done ≡ true

flags_of_truth-SeenFalse :
    (a : Analyzer) (truth : TruthValue) (done b : Bool)
    → SeenFalse done a
    → SaysAtRuntime truth b
    → SkippedAtRuntime (not done && b) (flags_of_truth a truth).0
      × SeenFalse (done || b) (flags_of_truth a truth).1
unfolding flags_of_truth
flags_of_truth-SeenFalse a always_true done b k s = ground arith
flags_of_truth-SeenFalse a _ done b k s = ground arith

else_flags-SeenFalse :
    (a : Analyzer) (done : Bool) → SeenFalse done a → SkippedAtRuntime (not done) (else_flags a)
unfolding else_flags
else_flags-SeenFalse a done k = ground arith

module _ (options : Options) (worth : Expr → Bool) where
  condition_flags-SeenFalse :
      (a : Analyzer) (e : Expr) (done : Bool) (f : Flags) (a' : Analyzer)
      → RightAtRuntime options worth e
      → SeenFalse done a
      → condition_flags options a e ≡ some (f, a')
      → SkippedAtRuntime (not done && worth e) f × SeenFalse (done || worth e) a'
  unfolding condition_flags
  condition_flags-SeenFalse a e done f a' right k h =
      let (truth, inferred, back) = >>=-eq-some (infer_condition_value options e) _ h in
      subst
        (λ (p : Flags × Analyzer).
          SkippedAtRuntime (not done && worth e) p.0 × SeenFalse (done || worth e) p.1)
        (some-injective _ _ back)
        (flags_of_truth-SeenFalse a truth done (worth e) k (right truth inferred))

  -- A block marked mypy-only is not marked unreachable, and does not run, if the value inferred of
  -- each condition is right about the run: MYPY_TRUE false, MYPY_FALSE true. The analysis answers,
  -- and only the last clause is an `else`.
  pub if_flags_mypy_only :
      (test : Expr) (clauses : Clauses) (flags : IfFlags)
      → else_is_last clauses ≡ true
      → RightAtRuntime options worth test
      → Conditions (RightAtRuntime options worth) clauses
      → if_flags options test clauses ≡ some flags
      → EachBlock SkippedAtRuntime worth test clauses flags
  if_flags_mypy_only test clauses flags l q qs h =
      if_flags-EachBlock options worth (RightAtRuntime options worth) SeenFalse SkippedAtRuntime
        condition_flags-SeenFalse else_flags-SeenFalse test clauses flags l q qs (λ e. cc) h
