-- ===== src/Serialize/Extends.antt =====
-- What a statement may do to the serializer: it adds to what was collected, and puts the flags of its
-- surroundings back.
use mathlib.Core.Path.{subst}
use mathlib.Core.List.{append_assoc, append-nil}
use ast_serialize.Common.{ℕ, ◌≡◌, refl, sym, ap, ◌∙◌, Bool, true, false, List, [], ◌∷◌, ◌++◌, All}
use ast_serialize.Ast.Expr.{TextRange}
use ast_serialize.Ast.Stmt.{Stmt}
use ast_serialize.Imports.{ImportStatement, import, import_from, import_all, make_import_flags}
use ast_serialize.Serialize.{Context, Serializer, Action}
use ast_serialize.Serialize.Keeps.{Keeps, IsPreorder, some-injective}
use ast_serialize.Serialize.Grows.{Grows, Begins, Begins-refl, Begins-trans}
use ast_serialize.Serialize.Blocks.{skip_lines, skipped_range}
use ast_serialize.Serialize.Stmts.Definitions.{set_top_level_getattr}

abbrev pub flags_of : ImportStatement TextRange → ℕ
flags_of (import _ _ _ _ flags) = flags
flags_of (import_from _ _ _ _ flags) = flags
flags_of (import_all _ _ _ flags) = flags

-- The flags of an import say at least what holds where `s` stands: in a function, unreachable, or for
-- mypy only.
pub record Carries (s : Serializer) (i : ImportStatement TextRange) : Type 0 where
  pub in_function : Bool
  pub unreachable : Bool
  pub mypy_only : Bool
  pub is_lazy : Bool
  pub flags : flags_of i ≡ make_import_flags in_function unreachable mypy_only is_lazy
  pub if_in_function : s.in_function ≡ true → in_function ≡ true
  pub if_unreachable : s.current_unreachable ≡ true → unreachable ≡ true
  pub if_mypy_only : s.current_mypy_only ≡ true → mypy_only ≡ true

-- The flags of the surroundings.
abbrev pub surroundings : Serializer → Serializer
surroundings s = record s {
  bytes = [];
  imports = [];
  top_level_getattr = false;
  extra_errors = [];
  skipped_lines = [];
  uses_template_strings = false;
  has_surrogates = false;
}

pub record Extends (s t : Serializer) : Type 0 where
  pub written : Begins s.bytes t.bytes
  pub reported : Begins s.extra_errors t.extra_errors
  pub skipped : Begins s.skipped_lines t.skipped_lines
  pub added : List (ImportStatement TextRange)
  pub imported : t.imports ≡ s.imports ++ added
  pub carried : All (Carries s) added
  pub getattr : s.top_level_getattr ≡ true → t.top_level_getattr ≡ true
  pub templates : s.uses_template_strings ≡ true → t.uses_template_strings ≡ true
  pub restored : surroundings t ≡ surroundings s

All-append : {A : Type 0} (P : A → Type 0) (xs ys : List A) → All P xs → All P ys → All P (xs ++ ys)
All-append P [] ys h k = k
All-append P (x ∷ xs) ys (p, h) k = (p, All-append P xs ys h k)

pub All-map :
    {A : Type 0} (P Q : A → Type 0) (f : (a : A) → P a → Q a) (xs : List A) → All P xs → All Q xs
All-map P Q f [] h = h
All-map P Q f (x ∷ xs) (p, h) = (f x p, All-map P Q f xs h)

-- The surroundings are all that `Carries` reads.
Carries-restored :
    (s t : Serializer)
    → surroundings t ≡ surroundings s
    → (i : ImportStatement TextRange) → Carries t i
    → Carries s i
Carries-restored s t p i h =
    let k =
      subst (λ x. Carries x i) p
        (record {
          in_function = h.in_function;
          unreachable = h.unreachable;
          mypy_only = h.mypy_only;
          is_lazy = h.is_lazy;
          flags = h.flags;
          if_in_function = h.if_in_function;
          if_unreachable = h.if_unreachable;
          if_mypy_only = h.if_mypy_only;
        }) in
    record {
      in_function = k.in_function;
      unreachable = k.unreachable;
      mypy_only = k.mypy_only;
      is_lazy = k.is_lazy;
      flags = k.flags;
      if_in_function = k.if_in_function;
      if_unreachable = k.if_unreachable;
      if_mypy_only = k.if_mypy_only;
    }

pub Extends-IsPreorder : IsPreorder Extends
Extends-IsPreorder = record {
  same = λ s. record {
    written = Begins-refl s.bytes;
    reported = Begins-refl s.extra_errors;
    skipped = Begins-refl s.skipped_lines;
    added = [];
    imported = sym (append-nil s.imports);
    carried = tt;
    getattr = λ h. h;
    templates = λ h. h;
    restored = refl;
  };
  after = λ s t u g h. record {
    written = Begins-trans s.bytes t.bytes u.bytes g.written h.written;
    reported = Begins-trans s.extra_errors t.extra_errors u.extra_errors g.reported h.reported;
    skipped = Begins-trans s.skipped_lines t.skipped_lines u.skipped_lines g.skipped h.skipped;
    added = g.added ++ h.added;
    imported =
        h.imported ∙ ap (λ l. l ++ h.added) g.imported ∙ append_assoc s.imports g.added h.added;
    carried =
        All-append (Carries s) g.added h.added g.carried
          (All-map (Carries t) (Carries s) (Carries-restored s t g.restored) h.added h.carried);
    getattr = λ p. h.getattr (g.getattr p);
    templates = λ p. h.templates (g.templates p);
    restored = h.restored ∙ g.restored;
  };
}

Grows-Extends : (s t : Serializer) → Grows s t → Extends s t
Grows-Extends s t g = record {
  written = g.written;
  reported = g.reported;
  skipped =
      ([], ap (λ (x : Serializer). x.skipped_lines) g.context ∙ sym (append-nil s.skipped_lines));
  added = [];
  imported = ap (λ (x : Serializer). x.imports) g.context ∙ sym (append-nil s.imports);
  carried = tt;
  getattr = λ p. ap (λ (x : Serializer). x.top_level_getattr) g.context ∙ p;
  templates = g.templates;
  restored = ap surroundings g.context;
}

-- What grows extends.
pub extend : (a : Action) → Keeps Grows a → Keeps Extends a
extend a k = record { at = λ s t h. Grows-Extends s t (k.at s t h) }

pub skip_lines-Extends : (c : Context) (from to : Stmt) → Keeps Extends (skip_lines c from to)
unfolding skip_lines
skip_lines-Extends c from to = record {
  at = λ s t h. subst (Extends s) (some-injective _ t h) (record {
    written = Begins-refl s.bytes;
    reported = Begins-refl s.extra_errors;
    skipped = (skipped_range c from to, refl);
    added = [];
    imported = sym (append-nil s.imports);
    carried = tt;
    getattr = λ h. h;
    templates = λ h. h;
    restored = refl;
  });
}

pub set_top_level_getattr-Extends : Keeps Extends set_top_level_getattr
unfolding set_top_level_getattr
set_top_level_getattr-Extends = record {
  at = λ s t h. subst (Extends s) (some-injective _ t h) (record {
    written = Begins-refl s.bytes;
    reported = Begins-refl s.extra_errors;
    skipped = Begins-refl s.skipped_lines;
    added = [];
    imported = sym (append-nil s.imports);
    carried = tt;
    getattr = λ _. refl;
    templates = λ h. h;
    restored = refl;
  });
}
