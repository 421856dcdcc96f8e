-- ===== src/Serialize/Keeps.antt =====
-- Relations between the state before and after an action, one rule for each way to build one.
use mathlib.Core.Path.{subst}
use ast_serialize.Common.{◌≡◌, Bool, true, false, some, >>=-eq-some, if◌then◌else◌}
use ast_serialize.Serialize.{Serializer, Action, ◌>>◌, skip, panic, reading}

-- Where `a` returns, its result is related to the state before it.
pub record Keeps (R : Serializer → Serializer → Type 0) (a : Action) : Type 0 where
  pub at : (s t : Serializer) → a s ≡ some t → R s t

pub record IsPreorder (R : Serializer → Serializer → Type 0) : Type 0 where
  pub same : (s : Serializer) → R s s
  pub after : (s t u : Serializer) → R s t → R t u → R s u

pub some-injective : {A : Type 0} (x y : A) → some x ≡ some y → x ≡ y
some-injective x y h = cc

module _ {R : Serializer → Serializer → Type 0} where
  pub Keeps-panic : Keeps R panic
  unfolding panic
  Keeps-panic = record { at = λ s t h. cc }

  pub Keeps-skip : IsPreorder R → Keeps R skip
  unfolding skip
  Keeps-skip p = record { at = λ s t h. subst (R s) (some-injective s t h) (p.same s) }

  pub Keeps-then : (a b : Action) → IsPreorder R → Keeps R a → Keeps R b → Keeps R (a >> b)
  unfolding ◌>>◌
  Keeps-then a b p ka kb = record {
    at = λ s u h.
        let (t, first, second) = >>=-eq-some (a s) b h in
        p.after s t u (ka.at s t first) (kb.at t u second);
  }

  pub Keeps-reading :
      (f : Serializer → Action) → ((s : Serializer) → Keeps R (f s)) → Keeps R (reading f)
  unfolding reading
  Keeps-reading f kf = record { at = λ s t h. (kf s).at s t h }

  pub Keeps-if : (b : Bool) (m n : Action) → Keeps R m → Keeps R n → Keeps R (if b then m else n)
  Keeps-if true m n km kn = km
  Keeps-if false m n km kn = kn
