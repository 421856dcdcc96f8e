-- ===== src/Reachability/Soundness.antt =====
-- What a condition is worth in a state of the program, against what is inferred of it.
use mathlib.Core.Path.{subst}
use mathlib.Core.Option.{some-injective}
use ast_serialize.Common.{
  Bool, false, not, List, [], ◌∷◌, Option, none, some, >>=-eq-some, ◌≡◌, Text,
}
use ast_serialize.Options.{Options}
use ast_serialize.Ast.Expr.{
  Expr, Exprs, nil, cons, TextRange, ExprContext, Identifier, not_op, unary_op, boolean_literal,
  name, attribute, bool_op,
}
use ast_serialize.Reachability.Truth.{TruthValue, truth_value_unknown}
use ast_serialize.Reachability.BoolOps.{
  Says, Says-invert, Says-is_true, AllSay, apply_op, combine_bool_op_sound,
}
use ast_serialize.Reachability.Infer.{
  check_name_truth_value, boolean_value, version_or_platform, infer_condition_value,
  infer_condition_values, is_true,
}

-- What a condition is worth, given what the conditions with no `not`, `and` or `or` are worth.
unfoldable mutual
  pub holds : (Expr → Bool) → Expr → Bool
  holds state (unary_op _ not_op operand) = not (holds state operand)
  holds state (bool_op _ op values) = apply_op op (holds_each state values)
  holds state e = state e

  pub holds_each : (Expr → Bool) → Exprs → List Bool
  holds_each state nil = []
  holds_each state (cons e es) = holds state e ∷ holds_each state es

-- A state in which names, literals, version and platform checks are worth what the options say.
pub record Respects (options : Options) (state : Expr → Bool) : Type 0 where
  pub names :
      (r : TextRange) (id : Text) (c : ExprContext)
      → Says (check_name_truth_value id options) (state (name r id c))
  pub attributes :
      (r : TextRange) (value : Expr) (attr : Identifier) (c : ExprContext)
      → Says (check_name_truth_value attr.id options) (state (attribute r value attr c))
  pub literals :
      (r : TextRange) (b : Bool) → Says (boolean_value b options) (state (boolean_literal r b))
  pub checks :
      (e : Expr) (v : TruthValue) → version_or_platform e options ≡ some v → Says v (state e)

Says-some : {v w : TruthValue} (b : Bool) → Says v b → some v ≡ some w → Says w b
Says-some b h e = subst (λ u. Says u b) (some-injective _ _ e) h

module _ {options : Options} {state : Expr → Bool} (s : Respects options state) where
  mutual
    unfolding holds infer_condition_value

    sound :
        (e : Expr) (v : TruthValue)
        → infer_condition_value options e ≡ some v
        → Says v (holds state e)
    sound (unary_op r not_op operand) v h =
        let (u, inner, back) = >>=-eq-some (infer_condition_value options operand) _ h in
        Says-some _ (Says-invert u _ (sound operand u inner)) back
    sound (boolean_literal r b) v h = Says-some _ (s.literals r b) h
    sound (name r id c) v h = Says-some _ (s.names r id c) h
    sound (attribute r value attr c) v h = Says-some _ (s.attributes r value attr c) h
    sound (bool_op r op values) v h =
        let (vs, inner, back) = >>=-eq-some (infer_condition_values options values) _ h in
        Says-some _ (combine_bool_op_sound op vs _ (sound_each values vs inner)) back
    sound e v h = s.checks e v h

    sound_each :
        (es : Exprs) (vs : List TruthValue)
        → infer_condition_values options es ≡ some vs
        → AllSay vs (holds_each state es)
    sound_each nil vs h = subst (λ us. AllSay us []) (some-injective _ _ h) tt
    sound_each (cons e es) vs h =
        let (u, first, later) = >>=-eq-some (infer_condition_value options e) _ h in
        let (us, rest, back) = >>=-eq-some (infer_condition_values options es) _ later in
        subst (λ ws. AllSay ws (holds state e ∷ holds_each state es)) (some-injective _ _ back)
          (sound e u first, sound_each es us rest)

-- What `infer_condition_value` answers is right about the condition, however deep its `not`, `and`
-- and `or` nest, in every state that respects the options.
pub infer_condition_value_sound :
    (options : Options) (state : Expr → Bool)
    → Respects options state
    → (e : Expr) (v : TruthValue) → infer_condition_value options e ≡ some v
    → Says v (holds state e)
infer_condition_value_sound options state s e v h = sound s e v h

-- A state that respects the options: each condition is worth what is inferred of it.
abbrev worth : Option TruthValue → Bool
worth (some v) = is_true v
worth none = false

unfoldable pub inferred_state : Options → Expr → Bool
unfolding infer_condition_value
inferred_state options e = worth (infer_condition_value options e)

Says-worth : (m : Option TruthValue) (v : TruthValue) → m ≡ some v → Says v (worth m)
Says-worth m v h = rw h (Says-is_true v)

unknown-Says : (b : Bool) (v : TruthValue) → some truth_value_unknown ≡ some v → Says v b
unknown-Says b v h = Says-some b tt h

inferred-checks :
    (options : Options) (e : Expr) (v : TruthValue)
    → version_or_platform e options ≡ some v
    → Says v (inferred_state options e)
unfolding inferred_state version_or_platform
inferred-checks options (unary_op r not_op operand) v h = unknown-Says _ v h
inferred-checks options (boolean_literal r b) v h = unknown-Says _ v h
inferred-checks options (name r id c) v h = unknown-Says _ v h
inferred-checks options (attribute r value attr c) v h = unknown-Says _ v h
inferred-checks options (bool_op r op values) v h = unknown-Says _ v h
inferred-checks options e v h = Says-worth _ v h

pub inferred_state-Respects : (options : Options) → Respects options (inferred_state options)
unfolding inferred_state
inferred_state-Respects options = record {
  names = λ r id c. Says-is_true _;
  attributes = λ r value attr c. Says-is_true _;
  literals = λ r b. Says-is_true _;
  checks = inferred-checks options;
}
