-- ===== src/Branches.antt =====
-- src/serialize_ast.rs, `IfReachabilityAnalyzer` and its uses for `if` and `match`: which blocks of
-- a statement mypy skips, and which it reads though they do not run.
pub mod Execution
pub mod Sound
pub mod Exact
pub mod MypyOnly
pub mod Cases
pub mod Total
use ast_serialize.Common.{
  Bool, true, false, not, ◌&&◌, ◌||◌, List, [], ◌∷◌, Option, none, some, ◌>>=◌,
}
use ast_serialize.Options.{Options}
use ast_serialize.Ast.Expr.{Expr, OptExpr, absent, present}
use ast_serialize.Ast.Pattern.{Pattern}
use ast_serialize.Ast.Stmt.{Clauses, no_clauses, clause, MatchCases, no_cases, match_case}
use ast_serialize.Reachability.Truth.{TruthValue, always_true, mypy_true, mypy_false}
use ast_serialize.Reachability.Infer.{is_false, is_true, infer_condition_value, infer_pattern_value}

pub record Analyzer : Type 0 where
  pub tail_unreachable : Bool
  pub seen_mypy_true : Bool
  pub seen_mypy_false : Bool

-- `IfReachabilityAnalyzer::new`
abbrev pub new : Analyzer
new = record { tail_unreachable = false; seen_mypy_true = false; seen_mypy_false = false }

-- `(unreachable, mypy_only)` of a block.
pub record Flags : Type 0 where
  pub unreachable : Bool
  pub mypy_only : Bool

abbrev pub is_mypy_true : TruthValue → Bool
is_mypy_true mypy_true = true
is_mypy_true _ = false

abbrev pub is_mypy_false : TruthValue → Bool
is_mypy_false mypy_false = true
is_mypy_false _ = false

-- `condition_flags` on the inferred value.
unfoldable pub flags_of_truth : Analyzer → TruthValue → Flags × Analyzer
flags_of_truth a truth =
    let unreachable = a.tail_unreachable || is_false truth in
    (
      record {
        unreachable = unreachable;
        mypy_only = not unreachable && not a.seen_mypy_true && is_mypy_true truth;
      },
      record {
        tail_unreachable = a.tail_unreachable || is_true truth;
        seen_mypy_true = a.seen_mypy_true || is_mypy_true truth;
        seen_mypy_false = a.seen_mypy_false || is_mypy_false truth;
      },
    )

unfoldable pub condition_flags : Options → Analyzer → Expr → Option (Flags × Analyzer)
unfolding flags_of_truth infer_condition_value
condition_flags options a e = do
  truth ← infer_condition_value options e
  some (flags_of_truth a truth)

unfoldable pub else_flags : Analyzer → Flags
else_flags a = record {
  unreachable = a.tail_unreachable;
  mypy_only = not a.tail_unreachable && a.seen_mypy_false && not a.seen_mypy_true;
}

-- `match_case_flags` on the inferred values of pattern and guard.
unfoldable pub flags_of_case : Analyzer → TruthValue → TruthValue → Flags × Analyzer
flags_of_case a pattern_truth guard_truth =
    let unreachable = a.tail_unreachable || is_false pattern_truth || is_false guard_truth in
    (
      record {
        unreachable = unreachable;
        mypy_only =
            not unreachable
            && not a.seen_mypy_true
            && is_mypy_true guard_truth
            && is_true pattern_truth;
      },
      record a {
        tail_unreachable = a.tail_unreachable || (is_true guard_truth && is_true pattern_truth);
        seen_mypy_true = a.seen_mypy_true || (is_mypy_true guard_truth && is_true pattern_truth);
      },
    )

unfoldable pub guard_value : Options → OptExpr → Option TruthValue
unfolding infer_condition_value
guard_value options absent = some always_true
guard_value options (present guard) = infer_condition_value options guard

unfoldable pub match_case_flags : Options → Analyzer → Pattern → OptExpr → Option (Flags × Analyzer)
unfolding flags_of_case guard_value infer_pattern_value
match_case_flags options a pattern guard = do
  guard_truth ← guard_value options guard
  some (flags_of_case a (infer_pattern_value pattern) guard_truth)

-- The loop of `serialize_if_stmt` over the `elif` and `else` clauses.
unfoldable pub clause_flags : Options → Analyzer → Clauses → Option (List Flags × Analyzer)
unfolding condition_flags else_flags
clause_flags options a no_clauses = some ([], a)
clause_flags options a (clause _ (present e) _ rest) = do
  (flags, a') ← condition_flags options a e
  (later, last) ← clause_flags options a' rest
  some (flags ∷ later, last)
clause_flags options a (clause _ absent _ rest) = do
  (later, last) ← clause_flags options a rest
  some (else_flags a ∷ later, last)

-- Whether the last clause is an `else`.
unfoldable pub has_else : Clauses → Bool
has_else no_clauses = false
has_else (clause _ absent _ no_clauses) = true
has_else (clause _ (present _) _ no_clauses) = false
has_else (clause _ _ _ rest) = has_else rest

pub record IfFlags : Type 0 where
  pub main_flags : Flags
  pub clause_flags : List Flags
  pub synthetic_else_flags : Option Flags

abbrev pub synthetic : Bool → Analyzer → Option Flags
synthetic true a = none
synthetic false a = some (else_flags a)

-- The analysis at the head of `serialize_if_stmt`.
unfoldable pub if_flags : Options → Expr → Clauses → Option IfFlags
unfolding condition_flags clause_flags has_else else_flags
if_flags options test clauses = do
  (main, a) ← condition_flags options new test
  (later, last) ← clause_flags options a clauses
  some (record {
    main_flags = main;
    clause_flags = later;
    synthetic_else_flags = synthetic (has_else clauses) last;
  })

-- The flags of the cases of a `match`.
unfoldable pub case_flags : Options → Analyzer → MatchCases → Option (List Flags)
unfolding match_case_flags
case_flags options a no_cases = some []
case_flags options a (match_case _ pattern guard _ rest) = do
  (flags, a') ← match_case_flags options a pattern guard
  later ← case_flags options a' rest
  some (flags ∷ later)
