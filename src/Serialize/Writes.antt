-- ===== src/Serialize/Writes.antt =====
-- Actions on the serializer that append bytes and change nothing else.
use mathlib.Core.List.{append_assoc, append-nil}
use ast_serialize.Common.{
  ℕ, ◌≡◌, sym, ap, ◌∙◌, Option, none, some, >>=-eq-some, List, [], ◌∷◌, ◌++◌, Text,
}
use ast_serialize.Ast.Expr.{TextRange}
use ast_serialize.Serialize.{
  Context, Serializer, Action, append, write_tag, write_end_tag, append_located, append_location,
  write_text, unevaluated,
}
use ast_serialize.Serialize.Keeps.{
  Keeps, IsPreorder, some-injective, Keeps-panic, Keeps-skip, Keeps-then, Keeps-reading, Keeps-if,
}

abbrev pub with_bytes : Serializer → List ℕ → Serializer
with_bytes s written = record s { bytes = s.bytes ++ written }

abbrev pub Writes : Serializer → Serializer → Type 0
Writes s t = (written : List ℕ) × (t ≡ with_bytes s written)

pub Writes-IsPreorder : IsPreorder Writes
Writes-IsPreorder = record {
  same = λ s. ([], ap (λ b. record s { bytes = b }) (sym (append-nil s.bytes)));
  after = λ s t u (v, p) (w, q). (
    v ++ w,
    q ∙ ap (λ x. with_bytes x w) p ∙ ap (λ b. record s { bytes = b }) (append_assoc s.bytes v w),
  );
}

pub append-Writes : (written : List ℕ) → Keeps Writes (append written)
unfolding append
append-Writes written = record { at = λ s t h. (written, sym (some-injective _ t h)) }

pub write_tag-Writes : (tag : ℕ) → Keeps Writes (write_tag tag)
unfolding write_tag
write_tag-Writes tag = append-Writes (tag ∷ [])

pub write_end_tag-Writes : Keeps Writes write_end_tag
unfolding write_end_tag
write_end_tag-Writes = search write_tag-Writes

pub write_text-Writes : (t : Text) → Keeps Writes (write_text t)
unfolding write_text
write_text-Writes t = search append-Writes

append_located-Writes : (o : Option (List ℕ)) → Keeps Writes (append_located o)
unfolding append_located
append_located-Writes (some written) = append-Writes written
append_located-Writes none = Keeps-panic

pub append_location-Writes :
    (c : Context) (range : TextRange) → Keeps Writes (append_location c range)
unfolding append_location
append_location-Writes c range = search append_located-Writes

pub unevaluated-Writes : (f : Action) → Keeps Writes f → Keeps Writes (unevaluated f)
unfolding unevaluated
unevaluated-Writes f kf = record {
  at = λ s t h.
      let (m, ran, restored) = >>=-eq-some (f _) _ h in
      let (written, p) = kf.at _ m ran in
      (
        written,
        sym (some-injective _ t restored)
            ∙ ap (λ (x : Serializer). record x { is_evaluated = s.is_evaluated }) p,
      );
}

pub ruleset writes_rules = (
  Writes-IsPreorder, Keeps-panic, Keeps-skip, Keeps-then, Keeps-reading, Keeps-if, append-Writes,
  write_tag-Writes, write_end_tag-Writes, write_text-Writes, append_location-Writes,
  unevaluated-Writes,
)
