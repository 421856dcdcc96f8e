-- ===== src/Serialize/Grows.antt =====
-- Actions on the serializer that append bytes and errors, and keep the context: what an expression
-- may do.
use mathlib.Core.List.{append_assoc, append-nil}
use mathlib.Core.Path.{subst}
use ast_serialize.Common.{
  ◌≡◌, refl, sym, ap, ◌∙◌, Bool, true, false, Option, none, some, List, [], ◌∷◌, ◌++◌, Text,
}
use ast_serialize.Ast.Expr.{TextRange}
use ast_serialize.CommentLines.{SyntaxError}
use ast_serialize.Serialize.{
  Context, Serializer, Action, set_surrogates, check_surrogate, reset_surrogates, push_error,
  add_error,
}
use ast_serialize.Serialize.Keeps.{
  Keeps, IsPreorder, some-injective, Keeps-panic, Keeps-skip, Keeps-then, Keeps-reading, Keeps-if,
}
use ast_serialize.Serialize.Writes.{
  Writes, with_bytes, append-Writes, write_tag-Writes, write_end_tag-Writes, write_text-Writes,
  append_location-Writes,
}

abbrev pub Begins : {A : Type 0} → List A → List A → Type 0
Begins {A = A} xs ys = (more : List A) × (ys ≡ xs ++ more)

module _ {A : Type 0} where
  pub Begins-refl : (xs : List A) → Begins xs xs
  Begins-refl xs = ([], sym (append-nil xs))

  pub Begins-trans : (xs ys zs : List A) → Begins xs ys → Begins ys zs → Begins xs zs
  Begins-trans xs ys zs (v, p) (w, q) = (v ++ w, q ∙ ap (λ l. l ++ w) p ∙ append_assoc xs v w)

-- The fields that an expression leaves alone.
abbrev pub kept : Serializer → Serializer
kept s = record s {
  bytes = [];
  extra_errors = [];
  uses_template_strings = false;
  has_surrogates = false;
}

pub record Grows (s t : Serializer) : Type 0 where
  pub written : Begins s.bytes t.bytes
  pub reported : Begins s.extra_errors t.extra_errors
  pub templates : s.uses_template_strings ≡ true → t.uses_template_strings ≡ true
  pub context : kept t ≡ kept s

pub Grows-IsPreorder : IsPreorder Grows
Grows-IsPreorder = record {
  same = λ s. record {
    written = Begins-refl s.bytes;
    reported = Begins-refl s.extra_errors;
    templates = λ h. h;
    context = refl;
  };
  after = λ s t u g h. record {
    written = Begins-trans s.bytes t.bytes u.bytes g.written h.written;
    reported = Begins-trans s.extra_errors t.extra_errors u.extra_errors g.reported h.reported;
    templates = λ p. h.templates (g.templates p);
    context = h.context ∙ g.context;
  };
}

Writes-Grows : (s t : Serializer) → Writes s t → Grows s t
Writes-Grows s t (written, p) = record {
  written = (written, ap (λ (x : Serializer). x.bytes) p);
  reported = ([], ap (λ (x : Serializer). x.extra_errors) p ∙ sym (append-nil s.extra_errors));
  templates = λ h. ap (λ (x : Serializer). x.uses_template_strings) p ∙ h;
  context = ap kept p;
}

-- What only writes grows.
pub grow : (a : Action) → Keeps Writes a → Keeps Grows a
grow a k = record { at = λ s t h. Writes-Grows s t (k.at s t h) }

set_surrogates-Grows : (o : Option Bool) → Keeps Grows (set_surrogates o)
unfolding set_surrogates
set_surrogates-Grows none = record { at = λ s t h. cc }
set_surrogates-Grows (some found) = record {
  at = λ s t h. subst (Grows s) (some-injective _ t h) (record {
    written = Begins-refl s.bytes;
    reported = Begins-refl s.extra_errors;
    templates = λ p. p;
    context = refl;
  });
}

pub check_surrogate-Grows :
    (c : Context) (value : Text) (range : TextRange) → Keeps Grows (check_surrogate c value range)
unfolding check_surrogate
check_surrogate-Grows c value range = search (set_surrogates-Grows, Keeps-reading)

pub reset_surrogates-Grows : Keeps Grows reset_surrogates
unfolding reset_surrogates set_surrogates
reset_surrogates-Grows = record { at = λ s t h. (set_surrogates-Grows (some false)).at s t h }

push_error-Grows : (o : Option SyntaxError) → Keeps Grows (push_error o)
unfolding push_error
push_error-Grows none = record { at = λ s t h. cc }
push_error-Grows (some e) = record {
  at = λ s t h. subst (Grows s) (some-injective _ t h) (record {
    written = Begins-refl s.bytes;
    reported = (e ∷ [], refl);
    templates = λ p. p;
    context = refl;
  });
}

pub add_error-Grows :
    (c : Context) (message : Text) (range : TextRange) (blocker : Bool)
    → Keeps Grows (add_error c message range blocker)
unfolding add_error
add_error-Grows c message range blocker = push_error-Grows _

pub ruleset grows_rules = (
  Grows-IsPreorder, Keeps-panic, Keeps-skip, Keeps-then, Keeps-reading, Keeps-if, grow,
  append-Writes, write_tag-Writes, write_end_tag-Writes, write_text-Writes, append_location-Writes,
  check_surrogate-Grows, reset_surrogates-Grows, add_error-Grows,
)
