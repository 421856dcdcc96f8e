-- ===== src/Reachability/BoolOps.antt =====
-- `and`, `or` and `not` over truth values, against the Booleans that the operands have when mypy
-- reads the program.
use mathlib.Core.List.{Perm, Permᴰ}
use mathlib.Core.Logic.{∥∥₁_elim}
use ast_serialize.Common.{
  Bool, true, false, not, ◌||◌, List, [], ◌∷◌, ◌≡◌, ◌↔◌, refl, ◌∙◌, arith, any, all, or_assoc,
  or_comm, ap,
}
use ast_serialize.Ast.Expr.{BoolOp, and_op, or_op}
use ast_serialize.Reachability.Truth.{
  TruthValue, always_true, mypy_true, always_false, mypy_false, truth_value_unknown, invert, Seen,
  see, see_all, nothing_seen, decide_or, decide_and, combine_bool_op,
}
use ast_serialize.Reachability.Infer.{is_true, is_false}

-- A truth value is right about a condition that has the value `b`.
abbrev pub Says : TruthValue → Bool → Type 0
Says always_true b = b ≡ true
Says mypy_true b = b ≡ true
Says always_false b = b ≡ false
Says mypy_false b = b ≡ false
Says truth_value_unknown b = Unit

pub Says-invert : (v : TruthValue) (b : Bool) → Says v b → Says (invert v) (not b)
unfolding invert
Says-invert always_true b h = ground arith
Says-invert _ b h = ground arith

pub Says-is_true : (v : TruthValue) → Says v (is_true v)
Says-is_true truth_value_unknown = tt
Says-is_true _ = refl

abbrev pub AllSay : List TruthValue → List Bool → Type 0
AllSay [] [] = Unit
AllSay (v ∷ vs) (b ∷ bs) = Says v b × AllSay vs bs
AllSay _ _ = ⊥

abbrev pub is_unknown : TruthValue → Bool
is_unknown truth_value_unknown = true
is_unknown _ = false

-- Which flags the loop sets: one for each value that occurs.
abbrev is_always_false : TruthValue → Bool
is_always_false always_false = true
is_always_false _ = false

abbrev is_mypy_false : TruthValue → Bool
is_mypy_false mypy_false = true
is_mypy_false _ = false

abbrev is_always_true' : TruthValue → Bool
is_always_true' always_true = true
is_always_true' _ = false

abbrev is_mypy_true : TruthValue → Bool
is_mypy_true mypy_true = true
is_mypy_true _ = false

abbrev union : Seen → List TruthValue → Seen
union s vs = record {
  has_always_true = s.has_always_true || any is_always_true' vs;
  has_mypy_true = s.has_mypy_true || any is_mypy_true vs;
  has_always_false = s.has_always_false || any is_always_false vs;
  has_mypy_false = s.has_mypy_false || any is_mypy_false vs;
  has_unknown = s.has_unknown || any is_unknown vs;
}

see_all-union : (s : Seen) (vs : List TruthValue) → see_all s vs ≡ union s vs
unfolding see_all
see_all-union s [] = ground arith
see_all-union s (always_true ∷ vs) = see_all-union (see s always_true) vs ∙ ground arith
see_all-union s (v ∷ vs) = see_all-union (see s v) vs ∙ ground arith

abbrev pub any_holds : List Bool → Bool
any_holds = any (λ b. b)

abbrev pub all_hold : List Bool → Bool
all_hold = all (λ b. b)

-- What the flags say together of the operands' own values.
flags_any :
    (vs : List TruthValue) (bs : List Bool)
    → AllSay vs bs
    → ((any is_always_true' vs || any is_mypy_true vs) ≡ true → any_holds bs ≡ true)
      × ((any is_always_true' vs || any is_mypy_true vs || any is_unknown vs) ≡ false
          → any_holds bs ≡ false)
flags_any [] [] h = ground arith
flags_any (v ∷ vs) (b ∷ bs) h = ground (arith, flags_any vs bs)
flags_any [] (b ∷ bs) h = absurd h
flags_any (v ∷ vs) [] h = absurd h

flags_all :
    (vs : List TruthValue) (bs : List Bool)
    → AllSay vs bs
    → ((any is_always_false vs || any is_mypy_false vs) ≡ true → all_hold bs ≡ false)
      × ((any is_always_false vs || any is_mypy_false vs || any is_unknown vs) ≡ false
          → all_hold bs ≡ true)
flags_all [] [] h = ground arith
flags_all (v ∷ vs) (b ∷ bs) h = ground (arith, flags_all vs bs)
flags_all [] (b ∷ bs) h = absurd h
flags_all (v ∷ vs) [] h = absurd h

abbrev pub apply_op : BoolOp → List Bool → Bool
apply_op or_op bs = any_holds bs
apply_op and_op bs = all_hold bs

-- If the truth value of every operand is right about it, then the combined truth value is right
-- about the whole `and` or `or`.
pub combine_bool_op_sound :
    (op : BoolOp) (vs : List TruthValue) (bs : List Bool)
    → AllSay vs bs
    → Says (combine_bool_op op vs) (apply_op op bs)
unfolding combine_bool_op
combine_bool_op_sound or_op vs bs h =
    rw (see_all-union nothing_seen vs) (ground (arith, flags_any vs bs))
combine_bool_op_sound and_op vs bs h =
    rw (see_all-union nothing_seen vs) (ground (arith, flags_all vs bs))

-- The values that decide an operation whatever the other operands are.
abbrev pub settles : BoolOp → TruthValue → Bool
settles or_op v = is_true v
settles and_op v = is_false v

any_settles :
    (vs : List TruthValue)
    → ((any is_always_true' vs || any is_mypy_true vs) ≡ any is_true vs)
      × ((any is_always_false vs || any is_mypy_false vs) ≡ any is_false vs)
any_settles [] = ground arith
any_settles (always_true ∷ vs) = ground (arith, any_settles vs)
any_settles (v ∷ vs) = ground (arith, any_settles vs)

-- The combined value is unknown exactly when some operand is unknown and none settles the
-- operation: a true operand settles `or`, a false one settles `and`.
pub combine_bool_op-unknown_iff :
    (op : BoolOp) (vs : List TruthValue)
    → (combine_bool_op op vs ≡ truth_value_unknown)
      ↔ ((any is_unknown vs ≡ true) × (any (settles op) vs ≡ false))
unfolding combine_bool_op
combine_bool_op-unknown_iff or_op vs =
    rw (see_all-union nothing_seen vs) (ground (arith, any_settles vs))
combine_bool_op-unknown_iff and_op vs =
    rw (see_all-union nothing_seen vs) (ground (arith, any_settles vs))

any-Permᴰ : (p : TruthValue → Bool) {vs ws : List TruthValue} → Permᴰ vs ws → any p vs ≡ any p ws
any-Permᴰ p Permᴰ.nil = refl
any-Permᴰ p (Permᴰ.cons {a} {b} {l₁} {l₂} e h) = rw (e, any-Permᴰ p h)
any-Permᴰ p (Permᴰ.swap {a} {b} {a'} {b'} {l} e f) =
    rw (e, f, ← or_assoc (p b') (p a') (any p l), or_comm (p b') (p a')) (or_assoc (p a') (p b') _)
any-Permᴰ p (Permᴰ.trans h k) = any-Permᴰ p h ∙ any-Permᴰ p k

see_all-Permᴰ :
    {vs ws : List TruthValue} → Permᴰ vs ws → see_all nothing_seen vs ≡ see_all nothing_seen ws
see_all-Permᴰ {vs} {ws} h =
    rw (see_all-union nothing_seen vs, see_all-union nothing_seen ws)
      (cc (
        any-Permᴰ is_always_true' h,
        any-Permᴰ is_mypy_true h,
        any-Permᴰ is_always_false h,
        any-Permᴰ is_mypy_false h,
        any-Permᴰ is_unknown h,
      ))

combine-Permᴰ :
    (op : BoolOp) {vs ws : List TruthValue}
    → Permᴰ vs ws
    → combine_bool_op op vs ≡ combine_bool_op op ws
unfolding combine_bool_op
combine-Permᴰ or_op h = ap decide_or (see_all-Permᴰ h)
combine-Permᴰ and_op h = ap decide_and (see_all-Permᴰ h)

TruthValue-set : IsSet TruthValue
TruthValue-set = hlevel

-- Operands in another order have the same combined value.
pub combine_bool_op-perm :
    (op : BoolOp) {vs ws : List TruthValue}
    → Perm vs ws
    → combine_bool_op op vs ≡ combine_bool_op op ws
combine_bool_op-perm op h = ∥∥₁_elim h (TruthValue-set _ _) (combine-Permᴰ op)
