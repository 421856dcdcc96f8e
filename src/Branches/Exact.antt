-- ===== src/Branches/Exact.antt =====
-- The marks where every condition is known.
use mathlib.Core.Path.{subst}
use mathlib.Core.Option.{some-injective}
use ast_serialize.Common.{
  Bool, true, not, ◌&&◌, ◌||◌, ◌≡◌, ◌≢◌, refl, arith, ap, ◌∙◌, some, >>=-eq-some,
}
use ast_serialize.Options.{Options}
use ast_serialize.Ast.Expr.{Expr}
use ast_serialize.Ast.Stmt.{Clauses}
use ast_serialize.Reachability.Truth.{TruthValue, always_true, truth_value_unknown}
use ast_serialize.Reachability.BoolOps.{Says}
use ast_serialize.Reachability.Soundness.{holds, Respects, infer_condition_value_sound}
use ast_serialize.Reachability.Infer.{infer_condition_value}
use ast_serialize.Branches.{
  Analyzer, Flags, IfFlags, flags_of_truth, condition_flags, else_flags, if_flags,
}
use ast_serialize.Branches.Execution.{EachBlock, Conditions, else_is_last, if_flags-EachBlock}

abbrev pub RunsExactly : Bool → Flags → Type 0
RunsExactly runs flags = flags.unreachable ≡ not runs

abbrev Knows : Bool → Analyzer → Type 0
Knows done a = a.tail_unreachable ≡ done

flags_of_truth-Knows :
    (a : Analyzer) (truth : TruthValue) (done b : Bool)
    → Knows done a
    → truth ≢ truth_value_unknown
    → Says truth b
    → RunsExactly (not done && b) (flags_of_truth a truth).0
      × Knows (done || b) (flags_of_truth a truth).1
unfolding flags_of_truth
flags_of_truth-Knows a always_true done b k u s = ground arith
flags_of_truth-Knows a truth_value_unknown done b k u s = absurd (u refl)
flags_of_truth-Knows a _ done b k u s = ground arith

else_flags-Knows :
    (a : Analyzer) (done : Bool) → Knows done a → RunsExactly (not done) (else_flags a)
unfolding else_flags
else_flags-Knows a done k = ground arith

module _ (options : Options) (worth : Expr → Bool)
    (right : (e : Expr) (v : TruthValue)
      → infer_condition_value options e ≡ some v
      → Says v (worth e)) where
  condition_flags-Knows :
      (a : Analyzer) (e : Expr) (done : Bool) (f : Flags) (a' : Analyzer)
      → infer_condition_value options e ≢ some truth_value_unknown
      → Knows done a
      → condition_flags options a e ≡ some (f, a')
      → RunsExactly (not done && worth e) f × Knows (done || worth e) a'
  unfolding condition_flags
  condition_flags-Knows a e done f a' known k h =
      let (truth, inferred, back) = >>=-eq-some (infer_condition_value options e) _ h in
      subst
        (λ (p : Flags × Analyzer).
          RunsExactly (not done && worth e) p.0 × Knows (done || worth e) p.1)
        (some-injective _ _ back)
        (flags_of_truth-Knows a truth done (worth e) k (λ u. known (inferred ∙ ap some u))
          (right e truth inferred))

-- Where the value of every condition is known, a block of an `if` statement is marked unreachable
-- exactly when it does not run. This holds in every state that respects the options, where the
-- analysis answers and only the last clause is an `else`.
pub if_flags_exact :
    (options : Options) (state : Expr → Bool) (test : Expr) (clauses : Clauses) (flags : IfFlags)
    → Respects options state
    → else_is_last clauses ≡ true
    → infer_condition_value options test ≢ some truth_value_unknown
    → Conditions (λ e. infer_condition_value options e ≢ some truth_value_unknown) clauses
    → if_flags options test clauses ≡ some flags
    → EachBlock RunsExactly (holds state) test clauses flags
if_flags_exact options state test clauses flags s l q qs h =
    if_flags-EachBlock options (holds state)
      (λ e. infer_condition_value options e ≢ some truth_value_unknown) Knows RunsExactly
      (condition_flags-Knows options (holds state) (infer_condition_value_sound options state s))
      else_flags-Knows test clauses flags l q qs refl h
