-- ===== src/Examples/Blocks.antt =====
-- An `if` chain and a `match` on small inputs.
use ast_serialize.Common.{◌≡◌, ◌≢◌, refl, ◌∙◌, sym, ◌||◌, Bool, true, false, [], ◌∷◌, none, some}
use mathlib.Core.Option.{some-injective}
use mathlib.Core.Path.{subst}
use ast_serialize.Reachability.Total.{well_formed}
use ast_serialize.Branches.Total.{guards_well_formed}
use ast_serialize.Options.{default_options}
use ast_serialize.Ast.Expr.{Expr, compare, gt_e}
use ast_serialize.Ast.Pattern.{Pattern, Patterns, match_as, match_or, no_pattern}
use ast_serialize.Reachability.Truth.{TruthValue, always_true, mypy_true, truth_value_unknown}
use ast_serialize.Reachability.Infer.{infer_condition_value}
use ast_serialize.Reachability.Soundness.{holds, inferred_state, inferred_state-Respects}
use ast_serialize.Branches.{new, Flags, IfFlags, if_flags, case_flags}
use ast_serialize.Branches.Execution.{EachBlock, Each, else_is_last}
use ast_serialize.Branches.Sound.{RunsReachable, if_flags_sound}
use ast_serialize.Branches.Exact.{RunsExactly, if_flags_exact}
use ast_serialize.Branches.MypyOnly.{
  SaysAtRuntime, RightAtRuntime, SkippedAtRuntime, if_flags_mypy_only,
}
use ast_serialize.Branches.Cases.{any_matches, MatchesAsPython, cases_run, case_flags_sound}
use ast_serialize.Examples.Data.{type_checking, version_check, chain, cases}

abbrev flags : Bool → Bool → Flags
flags unreachable mypy_only = record { unreachable = unreachable; mypy_only = mypy_only }

-- `if TYPE_CHECKING: … elif sys.version_info >= (3, 8): … else: …`
abbrev chain_flags : IfFlags
chain_flags = record {
  main_flags = flags false true;
  clause_flags = flags true false ∷ flags true false ∷ [];
  synthetic_else_flags = none;
}

chain-if_flags : if_flags default_options type_checking chain ≡ some chain_flags
unfolding if_flags
chain-if_flags = refl

chain-else_is_last : else_is_last chain ≡ true
unfolding else_is_last
chain-else_is_last = refl

if_flags_sound_example :
    EachBlock RunsReachable (holds (inferred_state default_options)) type_checking chain chain_flags
if_flags_sound_example =
    if_flags_sound default_options (inferred_state default_options) type_checking chain chain_flags
      (inferred_state-Respects default_options) chain-else_is_last chain-if_flags

type_checking-infer : infer_condition_value default_options type_checking ≡ some mypy_true
unfolding infer_condition_value
type_checking-infer = refl

version_check-infer :
    infer_condition_value default_options (version_check gt_e 8) ≡ some always_true
unfolding infer_condition_value
version_check-infer = refl

type_checking-known : infer_condition_value default_options type_checking ≢ some truth_value_unknown
type_checking-known h = cc type_checking-infer

version_check-known :
    infer_condition_value default_options (version_check gt_e 8) ≢ some truth_value_unknown
version_check-known h = cc version_check-infer

if_flags_exact_example :
    EachBlock RunsExactly (holds (inferred_state default_options)) type_checking chain chain_flags
if_flags_exact_example =
    if_flags_exact default_options (inferred_state default_options) type_checking chain chain_flags
      (inferred_state-Respects default_options) chain-else_is_last type_checking-known
      (version_check-known, tt) chain-if_flags

-- At run time, the version check is true and `TYPE_CHECKING` is false.
abbrev worth : Expr → Bool
worth (compare _ _ _ _) = true
worth _ = false

says_inferred :
    (e : Expr) (u v : TruthValue)
    → infer_condition_value default_options e ≡ some u
    → SaysAtRuntime u (worth e)
    → infer_condition_value default_options e ≡ some v
    → SaysAtRuntime v (worth e)
says_inferred e u v h s k =
    subst (λ w. SaysAtRuntime w (worth e)) (some-injective _ _ (sym h ∙ k)) s

type_checking-right : RightAtRuntime default_options worth type_checking
type_checking-right v k = says_inferred type_checking mypy_true v type_checking-infer refl k

version_check-right : RightAtRuntime default_options worth (version_check gt_e 8)
version_check-right v k =
    says_inferred (version_check gt_e 8) always_true v version_check-infer refl k

if_flags_mypy_only_example : EachBlock SkippedAtRuntime worth type_checking chain chain_flags
if_flags_mypy_only_example =
    if_flags_mypy_only default_options worth type_checking chain chain_flags chain-else_is_last
      type_checking-right (version_check-right, tt) chain-if_flags

-- The first case matches by its second part, and its guard is unknown.
chain-case_flags :
    case_flags default_options new cases ≡ some (flags false false ∷ flags false false ∷ [])
unfolding case_flags
chain-case_flags = refl

-- A subject that matches nothing but bare names.
unfoldable mutual
  matches : Pattern → Bool
  matches (match_as _ no_pattern _) = true
  matches (match_or _ ps) = some_matches ps
  matches _ = false

  some_matches : Patterns → Bool
  some_matches Patterns.nil = false
  some_matches (Patterns.cons p ps) = matches p || some_matches ps

some_matches-any : (ps : Patterns) → some_matches ps ≡ any_matches matches ps
unfolding some_matches
some_matches-any Patterns.nil = refl
some_matches-any (Patterns.cons p ps) = rw (some_matches-any ps)

matches-MatchesAsPython : MatchesAsPython matches
matches-MatchesAsPython = record {
  as_name = λ r n. unfold matches in refl;
  or_parts = λ r ps. unfold matches in some_matches-any ps;
}

case_flags_sound_example :
    Each RunsReachable
      (cases_run matches (holds (inferred_state default_options)) false cases)
      (flags false false ∷ flags false false ∷ [])
case_flags_sound_example =
    case_flags_sound default_options (inferred_state default_options) matches
      (inferred_state-Respects default_options) matches-MatchesAsPython cases
      (flags false false ∷ flags false false ∷ []) chain-case_flags

type_checking-well_formed : well_formed type_checking ≡ true
unfolding well_formed
type_checking-well_formed = refl

version_check-well_formed : well_formed (version_check gt_e 8) ≡ true
unfolding well_formed
version_check-well_formed = refl

cases-well_formed : guards_well_formed cases ≡ true
cases-well_formed = unfold well_formed in refl
