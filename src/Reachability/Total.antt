-- ===== src/Reachability/Total.antt =====
-- Conditions as the parser makes them.
use ast_serialize.Common.{
  Bool, true, ◌&&◌, List, [], ◌∷◌, Option, none, some, ◌>>=◌, is_some, and_true, ◌≡◌, refl, arith,
  length, ltb,
}
use ast_serialize.Options.{Options}
use ast_serialize.Ast.Expr.{
  Expr, Exprs, nil, cons, to_list, not_op, unary_op, boolean_literal, name, attribute, bool_op,
  compare, call,
}
use ast_serialize.Reachability.Truth.{TruthValue, truth_value_unknown, invert, combine_bool_op}
use ast_serialize.Reachability.Version.{consider_sys_version_info}
use ast_serialize.Reachability.Platform.{consider_sys_platform}
use ast_serialize.Reachability.Infer.{
  or_platform, version_or_platform, infer_condition_value, infer_condition_values,
}

-- Every comparison that the inference reaches has an operator and a right operand, as the parser
-- makes them.
unfoldable mutual
  pub well_formed : Expr → Bool
  well_formed (unary_op _ not_op operand) = well_formed operand
  well_formed (bool_op _ _ values) = all_well_formed values
  well_formed (compare _ _ ops comparators) =
      ltb 0 (length ops) && ltb 0 (length (to_list comparators))
  well_formed _ = true

  pub all_well_formed : Exprs → Bool
  all_well_formed nil = true
  all_well_formed (cons e es) = well_formed e && all_well_formed es

version_total :
    (options : Options) (e : Expr)
    → well_formed e ≡ true
    → is_some (consider_sys_version_info e options) ≡ true
unfolding well_formed consider_sys_version_info
version_total options (compare _ left [] comparators) h = cc
version_total options (compare _ left (op ∷ ops) nil) h = ground arith
version_total options (compare _ left (op ∷ ops) (cons e es)) h = ground arith
version_total options _ h = refl

platform_total :
    (options : Options) (e : Expr)
    → well_formed e ≡ true
    → is_some (consider_sys_platform e options) ≡ true
unfolding well_formed consider_sys_platform
platform_total options (compare _ left [] comparators) h = cc
platform_total options (compare _ left (op ∷ ops) nil) h = ground arith
platform_total options (compare _ left (op ∷ ops) (cons e es)) h = ground arith
platform_total options (call _ func args _) h = refl
platform_total options _ h = refl

or_platform_total :
    (version platform : Option TruthValue)
    → is_some version ≡ true
    → is_some platform ≡ true
    → is_some (version >>= or_platform platform) ≡ true
or_platform_total none platform h k = cc
or_platform_total (some truth_value_unknown) platform h k = k
or_platform_total (some _) platform h k = refl

checks_total :
    (options : Options) (e : Expr)
    → well_formed e ≡ true
    → is_some (version_or_platform e options) ≡ true
unfolding version_or_platform
checks_total options e h =
    or_platform_total _ _ (version_total options e h) (platform_total options e h)

is_some-bind {ℓ κ} :
    {A : Type ℓ} {B : Type κ} (m : Option A) (f : A → B)
    → is_some m ≡ true
    → is_some (m >>= λ a. some (f a)) ≡ true
is_some-bind none f h = cc
is_some-bind (some a) f h = refl

is_some-cons :
    (m : Option TruthValue) (n : Option (List TruthValue))
    → is_some m ≡ true
    → is_some n ≡ true
    → is_some (m >>= λ v. n >>= λ vs. some (v ∷ vs)) ≡ true
is_some-cons none n h k = cc
is_some-cons (some v) n h k = is_some-bind n (λ vs. v ∷ vs) k

module _ (options : Options) where
  mutual
    unfolding well_formed infer_condition_value

    total : (e : Expr) → well_formed e ≡ true → is_some (infer_condition_value options e) ≡ true
    total (unary_op r not_op operand) h = is_some-bind _ invert (total operand h)
    total (boolean_literal r b) h = refl
    total (name r id c) h = refl
    total (attribute r value attr c) h = refl
    total (bool_op r op values) h = is_some-bind _ (combine_bool_op op) (total_each values h)
    total e h = checks_total options e h

    total_each :
        (es : Exprs)
        → all_well_formed es ≡ true
        → is_some (infer_condition_values options es) ≡ true
    total_each nil h = refl
    total_each (cons e es) h =
        let (first, rest) = and_true (well_formed e) (all_well_formed es) h in
        is_some-cons _ _ (total e first) (total_each es rest)

-- `infer_condition_value` answers on every condition whose comparisons have an operator and a right
-- operand: it does not panic.
pub infer_condition_value_total :
    (options : Options) (e : Expr)
    → well_formed e ≡ true
    → is_some (infer_condition_value options e) ≡ true
infer_condition_value_total options e h = total options e h
