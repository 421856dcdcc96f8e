-- ===== src/Serialize/Surroundings.antt =====
-- Actions that run under flags of their own, and put back those of the surroundings.
use mathlib.Core.Path.{subst}
use ast_serialize.Common.{◌≡◌, refl, sym, ap, ◌∙◌, Bool, true, false, ◌||◌, >>=-eq-some}
use ast_serialize.Branches.{Flags}
use ast_serialize.Serialize.{Serializer, Action}
use ast_serialize.Serialize.Keeps.{Keeps, some-injective}
use ast_serialize.Serialize.Extends.{Extends, Carries, All-map}
use ast_serialize.Serialize.Blocks.{with_branch_flags, within_class, within_function}

abbrev placed : Serializer → (in_class in_function unreachable mypy_only : Bool) → Serializer
placed s in_class in_function unreachable mypy_only = record s {
  in_class = in_class;
  in_function = in_function;
  current_unreachable = unreachable;
  current_mypy_only = mypy_only;
}

abbrev back : Serializer → Serializer → Serializer
back s t = record t {
  in_class = s.in_class;
  in_function = s.in_function;
  current_unreachable = s.current_unreachable;
  current_mypy_only = s.current_mypy_only;
}

-- An action that runs under at least the flags of `s`.
Extends-back :
    (s t : Serializer) (in_class in_function unreachable mypy_only : Bool)
    → Extends (placed s in_class in_function unreachable mypy_only) t
    → (s.in_function ≡ true → in_function ≡ true)
    → (s.current_unreachable ≡ true → unreachable ≡ true)
    → (s.current_mypy_only ≡ true → mypy_only ≡ true)
    → Extends s (back s t)
Extends-back s t in_class in_function unreachable mypy_only e f u m = record {
  written = e.written;
  reported = e.reported;
  skipped = e.skipped;
  added = e.added;
  imported = e.imported;
  carried =
      All-map (Carries (placed s in_class in_function unreachable mypy_only)) (Carries s)
        (λ i h. record {
          in_function = h.in_function;
          unreachable = h.unreachable;
          mypy_only = h.mypy_only;
          is_lazy = h.is_lazy;
          flags = h.flags;
          if_in_function = λ p. h.if_in_function (f p);
          if_unreachable = λ p. h.if_unreachable (u p);
          if_mypy_only = λ p. h.if_mypy_only (m p);
        })
        e.added e.carried;
  getattr = e.getattr;
  templates = e.templates;
  restored = ap (back s) e.restored;
}

or_left : (a b : Bool) → a ≡ true → (a || b) ≡ true
or_left true b h = refl
or_left false b h = cc

pub with_branch_flags-Extends :
    (branch : Flags) (f : Action) → Keeps Extends f → Keeps Extends (with_branch_flags branch f)
unfolding with_branch_flags
with_branch_flags-Extends branch f kf = record {
  at = λ s u h.
      let (t, ran, restored) = >>=-eq-some (f _) _ h in
      let e = kf.at _ t ran in
      subst (Extends s)
        (ap
            (λ (x : Serializer). record t {
              in_class = x.in_class;
              in_function = x.in_function;
              current_unreachable = s.current_unreachable;
              current_mypy_only = s.current_mypy_only;
            })
            (sym e.restored)
          ∙ some-injective _ u restored)
        (Extends-back s t s.in_class s.in_function (s.current_unreachable || branch.unreachable)
          (s.current_mypy_only || branch.mypy_only) e (λ p. p) (or_left _ _) (or_left _ _));
}

pub within_class-Extends : (f : Action) → Keeps Extends f → Keeps Extends (within_class f)
unfolding within_class
within_class-Extends f kf = record {
  at = λ s u h.
      let (t, ran, restored) = >>=-eq-some (f _) _ h in
      let e = kf.at _ t ran in
      subst (Extends s)
        (ap
            (λ (x : Serializer). record t {
              in_class = s.in_class;
              in_function = x.in_function;
              current_unreachable = x.current_unreachable;
              current_mypy_only = x.current_mypy_only;
            })
            (sym e.restored)
          ∙ some-injective _ u restored)
        (Extends-back s t true s.in_function s.current_unreachable s.current_mypy_only e (λ p. p)
          (λ p. p) (λ p. p));
}

pub within_function-Extends : (f : Action) → Keeps Extends f → Keeps Extends (within_function f)
unfolding within_function
within_function-Extends f kf = record {
  at = λ s u h.
      let (t, ran, restored) = >>=-eq-some (f _) _ h in
      let e = kf.at _ t ran in
      subst (Extends s)
        (ap
            (λ (x : Serializer). record t {
              in_class = x.in_class;
              in_function = s.in_function;
              current_unreachable = x.current_unreachable;
              current_mypy_only = x.current_mypy_only;
            })
            (sym e.restored)
          ∙ some-injective _ u restored)
        (Extends-back s t s.in_class true s.current_unreachable s.current_mypy_only e (λ _. refl)
          (λ p. p) (λ p. p));
}
