-- ===== src/Branches/Sound.antt =====
-- The marks of the blocks that run.
use ast_serialize.Common.{Bool, true, false, not, ◌&&◌, ◌||◌, ◌≡◌, refl, arith, some, >>=-eq-some}
use mathlib.Core.Path.{subst}
use mathlib.Core.Option.{some-injective}
use ast_serialize.Options.{Options}
use ast_serialize.Ast.Expr.{Expr, absent, present}
use ast_serialize.Ast.Stmt.{Clauses, no_clauses, clause}
use ast_serialize.Reachability.Truth.{TruthValue, always_true}
use ast_serialize.Reachability.BoolOps.{Says}
use ast_serialize.Reachability.Infer.{infer_condition_value}
use ast_serialize.Branches.{
  Analyzer, Flags, IfFlags, flags_of_truth, condition_flags, else_flags, if_flags,
}
use ast_serialize.Branches.Execution.{EachBlock, Conditions, else_is_last, if_flags-EachBlock}
use ast_serialize.Reachability.Soundness.{holds, Respects, infer_condition_value_sound}

abbrev pub RunsReachable : Bool → Flags → Type 0
RunsReachable runs flags = (runs && flags.unreachable) ≡ false

-- While no block has run, no earlier condition was known to be true.
abbrev Open : Bool → Analyzer → Type 0
Open done a = done ≡ false → a.tail_unreachable ≡ false

flags_of_truth-Open :
    (a : Analyzer) (truth : TruthValue) (done b : Bool)
    → Open done a
    → Says truth b
    → RunsReachable (not done && b) (flags_of_truth a truth).0
      × Open (done || b) (flags_of_truth a truth).1
unfolding flags_of_truth
flags_of_truth-Open a always_true done b o s = ground arith
flags_of_truth-Open a _ done b o s = ground arith

else_flags-Open :
    (a : Analyzer) (done : Bool) → Open done a → RunsReachable (not done) (else_flags a)
unfolding else_flags
else_flags-Open a done o = ground arith

module _ (options : Options) (worth : Expr → Bool)
    (right : (e : Expr) (v : TruthValue)
      → infer_condition_value options e ≡ some v
      → Says v (worth e)) where
  condition_flags-Open :
      (a : Analyzer) (e : Expr) (done : Bool) (f : Flags) (a' : Analyzer)
      → Unit {0}
      → Open done a
      → condition_flags options a e ≡ some (f, a')
      → RunsReachable (not done && worth e) f × Open (done || worth e) a'
  unfolding condition_flags
  condition_flags-Open a e done f a' u o h =
      let (truth, inferred, back) = >>=-eq-some (infer_condition_value options e) _ h in
      subst
        (λ (p : Flags × Analyzer).
          RunsReachable (not done && worth e) p.0 × Open (done || worth e) p.1)
        (some-injective _ _ back)
        (flags_of_truth-Open a truth done (worth e) o (right e truth inferred))

Conditions-Unit : (clauses : Clauses) → Conditions (λ _. Unit) clauses
Conditions-Unit no_clauses = tt
Conditions-Unit (clause _ (present _) _ rest) = (tt, Conditions-Unit rest)
Conditions-Unit (clause _ absent _ rest) = Conditions-Unit rest

-- A block of an `if` statement that runs is not marked unreachable: neither the main block, nor an
-- `elif` or `else` block, nor the `else` that is not written. This holds in every state that
-- respects the options, where the analysis answers and only the last clause is an `else`.
pub if_flags_sound :
    (options : Options) (state : Expr → Bool) (test : Expr) (clauses : Clauses) (flags : IfFlags)
    → Respects options state
    → else_is_last clauses ≡ true
    → if_flags options test clauses ≡ some flags
    → EachBlock RunsReachable (holds state) test clauses flags
if_flags_sound options state test clauses flags s l h =
    if_flags-EachBlock options (holds state) (λ _. Unit) Open RunsReachable
      (condition_flags-Open options (holds state) (infer_condition_value_sound options state s))
      else_flags-Open test clauses flags l tt (Conditions-Unit clauses) (λ e. refl) h
