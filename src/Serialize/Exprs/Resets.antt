-- ===== src/Serialize/Exprs/Resets.antt =====
-- The surrogate flag behind a string literal, in an f-string for one.
use mathlib.Core.Path.{subst}
use ast_serialize.Common.{
  ◌≡◌, refl, ap, ◌∙◌, Bool, true, false, ◌||◌, List, [], ◌∷◌, some, any, ◌==◌, >>=-eq-some, Text,
}
use ast_serialize.Ast.Expr.{TextRange, StringLiteral, string_literal}
use ast_serialize.Serialize.{
  Context, Serializer, Action, ◌>>◌, reading, reset_surrogates, check_surrogate, set_surrogates,
  surrogates_in,
}
use ast_serialize.Serialize.Keeps.{Keeps, IsPreorder, some-injective, Keeps-skip, Keeps-then}
use ast_serialize.Serialize.Writes.{
  Writes, append-Writes, append_location-Writes, write_end_tag-Writes,
}
use ast_serialize.Serialize.Types.{close}
use ast_serialize.Serialize.Exprs.Strings.{write_literal_parts, write_string}
use ast_serialize.Serialize.Exprs.Parts.{write_surrogates-Writes}
use ast_serialize.Serialize.Exprs.Nodes.{serialize_expr}

-- U+FFFD, which stands in a parsed value for a surrogate.
unfoldable pub has_replacement : List StringLiteral → Bool
has_replacement [] = false
has_replacement (part ∷ parts) = any (λ c. c == 65533) part.value || has_replacement parts

-- The flag stays off, and the flag is off.
abbrev StaysOff : Serializer → Serializer → Type 0
StaysOff s t = s.has_surrogates ≡ false → t.has_surrogates ≡ false

record IsOff (s t : Serializer) : Type 0 where
  off : t.has_surrogates ≡ false

StaysOff-IsPreorder : IsPreorder StaysOff
StaysOff-IsPreorder = record { same = λ s h. h; after = λ s t u f g h. g (f h) }

Writes-StaysOff : (a : Action) → Keeps Writes a → Keeps StaysOff a
Writes-StaysOff a k = record {
  at = λ s t h. let (_, p) = k.at s t h in λ off. ap (λ (x : Serializer). x.has_surrogates) p ∙ off;
}

IsOff-later : (a b : Action) → Keeps IsOff b → Keeps IsOff (a >> b)
unfolding ◌>>◌
IsOff-later a b kb = record {
  at = λ s u h.
      let (t, first, second) = >>=-eq-some (a s) b h in record { off = (kb.at t u second).off };
}

IsOff-now : (a b : Action) → Keeps IsOff a → Keeps StaysOff b → Keeps IsOff (a >> b)
unfolding ◌>>◌
IsOff-now a b ka kb = record {
  at = λ s u h.
      let (t, first, second) = >>=-eq-some (a s) b h in
      record { off = kb.at t u second (ka.at s t first).off };
}

reset_surrogates-IsOff : Keeps IsOff reset_surrogates
unfolding reset_surrogates
reset_surrogates-IsOff = record {
  at = λ s t h. record {
    off = subst (λ (x : Serializer). x.has_surrogates ≡ false) (some-injective _ t h) refl;
  };
}

check_surrogate-StaysOff :
    (c : Context) (value : Text) (range : TextRange)
    → any (λ x. x == 65533) value ≡ false
    → Keeps StaysOff (check_surrogate c value range)
unfolding check_surrogate reading set_surrogates surrogates_in
check_surrogate-StaysOff c value range plain = record {
  at = λ s t h off.
      subst (λ (x : Serializer). x.has_surrogates ≡ false) (some-injective _ t (rw plain at h)) off;
}

or_off : (a b : Bool) → (a || b) ≡ false → (a ≡ false) × (b ≡ false)
or_off true b h = cc
or_off false b h = (refl, h)

write_literal_parts-StaysOff :
    (c : Context) (parts : List StringLiteral)
    → has_replacement parts ≡ false
    → Keeps StaysOff (write_literal_parts c parts)
unfolding write_literal_parts has_replacement
write_literal_parts-StaysOff c [] plain = search (StaysOff-IsPreorder, Keeps-skip)
write_literal_parts-StaysOff c (part ∷ parts) plain =
    let (head, tail) = or_off _ (has_replacement parts) plain in
    let k = write_literal_parts-StaysOff c parts tail in
    let l = check_surrogate-StaysOff c part.value part.range head in
    search (StaysOff-IsPreorder, Keeps-then, Writes-StaysOff, append-Writes)

-- Where a string literal without U+FFFD is serialized, and that returns, the surrogate flag is off
-- behind it, whatever it was before.
pub serialize_expr-string_literal :
    (c : Context) (range : TextRange) (parts : List StringLiteral) (s t : Serializer)
    → has_replacement parts ≡ false
    → serialize_expr c (string_literal range parts) s ≡ some t
    → t.has_surrogates ≡ false
unfolding serialize_expr close write_string
serialize_expr-string_literal c range parts s t plain ran =
    let k = write_literal_parts-StaysOff c parts plain in
    let off : Keeps IsOff (serialize_expr c (string_literal range parts)) =
      search
        (
          IsOff-later, IsOff-now, StaysOff-IsPreorder, Keeps-then, reset_surrogates-IsOff,
          Writes-StaysOff, write_surrogates-Writes, append_location-Writes, write_end_tag-Writes,
        )
        depth 10 in
    (off.at s t ran).off
