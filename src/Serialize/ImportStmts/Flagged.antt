-- ===== src/Serialize/ImportStmts/Flagged.antt =====
-- The imports that a statement records, and the flags they carry.
use mathlib.Core.Path.{subst}
use ast_serialize.Common.{ℕ, ◌≡◌, refl, sym, ap, ◌∙◌, Bool, List, [], ◌∷◌, Option, if◌then◌else◌}
use ast_serialize.Common.Int.{pos, u32_as_i32}
use ast_serialize.Ast.Expr.{TextRange, Identifier}
use ast_serialize.Ast.Stmt.{Alias}
use ast_serialize.Imports.{ImportStatement, import, import_from, import_all, make_import_flags}
use ast_serialize.Serialize.{Context, Serializer, Action, reading, utf8}
use ast_serialize.Serialize.Keeps.{
  Keeps, IsPreorder, some-injective, Keeps-skip, Keeps-then, Keeps-if,
}
use ast_serialize.Serialize.Writes.{Writes, writes_rules}
use ast_serialize.Serialize.Grows.{grow, Begins-refl}
use ast_serialize.Serialize.Extends.{Extends, Extends-IsPreorder, extend, flags_of, surroundings}
use ast_serialize.Serialize.ImportStmts.{
  push_import, import_flags, write_alias, import_names, write_flags, serialize_import,
  serialize_plain_import, is_wildcard, write_aliases, serialize_import_all, serialize_import_names,
  serialize_import_from, alias_bytes, from_bytes, alias_pairs,
}

-- Extends, in the surroundings of `base`.
record ExtendsAt (base s t : Serializer) : Type 0 where
  from : surroundings s ≡ surroundings base → Extends s t

ExtendsAt-IsPreorder : (base : Serializer) → IsPreorder (ExtendsAt base)
ExtendsAt-IsPreorder base = record {
  same = λ s. record { from = λ p. Extends-IsPreorder.same s };
  after = λ s t u g h. record {
    from = λ p. let e = g.from p in Extends-IsPreorder.after s t u e (h.from (e.restored ∙ p));
  };
}

anywhere : (base : Serializer) (a : Action) → Keeps Extends a → Keeps (ExtendsAt base) a
anywhere base a k = record { at = λ s t h. record { from = λ p. k.at s t h } }

-- An action that is built from the state that it starts in.
here :
    (f : Serializer → Action)
    → ((s : Serializer) → Keeps (ExtendsAt s) (f s))
    → Keeps Extends (reading f)
unfolding reading
here f k = record { at = λ s t h. ((k s).at s t h).from refl }

-- An import with the flags of `base` carries what holds there.
push_import-ExtendsAt :
    (base : Serializer) (is_lazy : Bool) (i : ImportStatement TextRange)
    → flags_of i ≡ import_flags base is_lazy
    → Keeps (ExtendsAt base) (push_import i)
unfolding push_import import_flags
push_import-ExtendsAt base is_lazy i flagged = record {
  at = λ s t h. record {
    from = λ p. subst (Extends s) (some-injective _ t h) (record {
      written = Begins-refl s.bytes;
      reported = Begins-refl s.extra_errors;
      skipped = Begins-refl s.skipped_lines;
      added = i ∷ [];
      imported = refl;
      carried = (
        record {
          in_function = s.in_function;
          unreachable = s.current_unreachable;
          mypy_only = s.current_mypy_only;
          is_lazy = is_lazy;
          flags =
              flagged
              ∙ ap
                  (λ (x : Serializer).
                    make_import_flags x.in_function x.current_unreachable x.current_mypy_only
                      is_lazy)
                  (sym p);
          if_in_function = λ q. q;
          if_unreachable = λ q. q;
          if_mypy_only = λ q. q;
        },
        tt,
      );
      getattr = λ q. q;
      templates = λ q. q;
      restored = refl;
    });
  };
}

write_alias-Writes : (a : Alias) → Keeps Writes (write_alias a)
unfolding write_alias
write_alias-Writes a = search writes_rules

write_flags-Writes : (c : Context) (flags : ℕ) → Keeps Writes (write_flags c flags)
unfolding write_flags
write_flags-Writes c flags = search writes_rules

write_aliases-Writes : (names : List Alias) → Keeps Writes (write_aliases names)
unfolding write_aliases
write_aliases-Writes [] = search writes_rules
write_aliases-Writes (a ∷ names) =
    let k = write_aliases-Writes names in search (writes_rules, write_alias-Writes)

ruleset at_rules = (
  ExtendsAt-IsPreorder, anywhere, extend, grow, Keeps-skip, Keeps-then, writes_rules,
  write_alias-Writes, write_flags-Writes, write_aliases-Writes,
)

import_names-ExtendsAt :
    (base : Serializer) (is_lazy : Bool) (names : List Alias)
    → Keeps (ExtendsAt base) (import_names (import_flags base is_lazy) names)
unfolding import_names
import_names-ExtendsAt base is_lazy [] = search at_rules
import_names-ExtendsAt base is_lazy (a ∷ names) =
    let k = import_names-ExtendsAt base is_lazy names in
    let l =
      push_import-ExtendsAt base is_lazy
        (import (utf8 a.name.id) (pos 0) (alias_bytes a.asname) a.range (import_flags base is_lazy))
        refl in
    search at_rules depth 10

serialize_plain_import-ExtendsAt :
    (base : Serializer) (c : Context) (range : TextRange) (names : List Alias) (is_lazy : Bool)
    → Keeps (ExtendsAt base) (serialize_plain_import c range names (import_flags base is_lazy))
unfolding serialize_plain_import
serialize_plain_import-ExtendsAt base c range names is_lazy =
    let k = import_names-ExtendsAt base is_lazy names in search at_rules depth 12

pub serialize_import-Extends :
    (c : Context) (range : TextRange) (names : List Alias) (is_lazy : Bool)
    → Keeps Extends (serialize_import c range names is_lazy)
unfolding serialize_import
serialize_import-Extends c range names is_lazy =
    here (λ s. serialize_plain_import c range names (import_flags s is_lazy))
      λ s. serialize_plain_import-ExtendsAt s c range names is_lazy

serialize_import_all-ExtendsAt :
    (base : Serializer) (c : Context) (range : TextRange) (from : Option Identifier) (level : ℕ)
    (is_lazy : Bool)
    → Keeps (ExtendsAt base) (serialize_import_all c range from level (import_flags base is_lazy))
unfolding serialize_import_all
serialize_import_all-ExtendsAt base c range from level is_lazy =
    let l =
      push_import-ExtendsAt base is_lazy
        (import_all (from_bytes from) (u32_as_i32 level) range (import_flags base is_lazy)) refl in
    search at_rules depth 14

serialize_import_names-ExtendsAt :
    (base : Serializer) (c : Context) (range : TextRange) (from : Option Identifier)
    (names : List Alias) (level : ℕ) (is_lazy : Bool)
    → Keeps
        (ExtendsAt base)
        (serialize_import_names c range from names level (import_flags base is_lazy))
unfolding serialize_import_names
serialize_import_names-ExtendsAt base c range from names level is_lazy =
    let l =
      push_import-ExtendsAt base is_lazy
        (import_from (from_bytes from) (u32_as_i32 level) (alias_pairs names) range
          (import_flags base is_lazy))
        refl in
    search at_rules depth 16

pub serialize_import_from-Extends :
    (c : Context) (range : TextRange) (from : Option Identifier) (names : List Alias) (level : ℕ)
    (is_lazy : Bool)
    → Keeps Extends (serialize_import_from c range from names level is_lazy)
unfolding serialize_import_from
serialize_import_from-Extends c range from names level is_lazy =
    here
      (λ s.
        if is_wildcard names
        then serialize_import_all c range from level (import_flags s is_lazy)
        else serialize_import_names c range from names level (import_flags s is_lazy))
      λ s.
        Keeps-if (is_wildcard names) _ _
          (serialize_import_all-ExtendsAt s c range from level is_lazy)
          (serialize_import_names-ExtendsAt s c range from names level is_lazy)
