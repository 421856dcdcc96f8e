-- ===== src/Serialize/Blocks/Skipped.antt =====
-- The lines of an unreachable block, and the imports of an unreachable branch.
use mathlib.Core.Path.{subst}
use ast_serialize.Common.{
  ℕ, zero, suc, ◌+◌, ◌-◌, ◌≤◌, ◌<◌, ◌≡◌, refl, sym, ap, ◌∙◌, Bool, true, false, ◌||◌, List, [], ◌∷◌,
  ◌++◌, Option, some, any, All, ◌==◌, arith, or_assoc, or_comm, Bool-cases, inl, inr, >>=-eq-some,
}
use ast_serialize.Ast.Expr.{TextRange}
use ast_serialize.Ast.Stmt.{Stmt, Stmts, cons}
use ast_serialize.Ast.Ranges.{stmt_range}
use ast_serialize.Imports.{ImportStatement}
use ast_serialize.Imports.Flags.{bit, make_import_flags_bits}
use ast_serialize.Branches.{Flags}
use ast_serialize.Serialize.{Context, Serializer, Action, ◌>>◌, reading, write_tag}
use ast_serialize.Serialize.Keeps.{Keeps, some-injective, Keeps-reading}
use ast_serialize.Serialize.Extends.{Extends, extend, Carries, flags_of, All-map}
use ast_serialize.Serialize.Blocks.{
  last_stmt, lines_from, skipped_range, skip_lines, skip_unreachable, write_fallback,
  serialize_block, with_branch_flags,
}
use ast_serialize.Serialize.Stmts.Bodies.{
  then-Extends, serialize_block-Extends, append-Extends, write_fallback-Grows,
}
use ast_serialize.Serialize.Stmts.Nodes.{serialize_stmts}
use ast_serialize.Serialize.Stmts.Extend.{serialize_stmts-Extends}

abbrev pub has_line : ℕ → List ℕ → Bool
has_line line lines = any (λ l. l == line) lines

pub has_line-append :
    (line : ℕ) (xs ys : List ℕ) → has_line line (xs ++ ys) ≡ (has_line line xs || has_line line ys)
has_line-append line [] ys = refl
has_line-append line (x ∷ xs) ys =
    ap (λ b. (x == line) || b) (has_line-append line xs ys)
    ∙ sym (or_assoc (x == line) (has_line line xs) (has_line line ys))

pub has_line-from :
    (first n line : ℕ) → first ≤ line → line < first + n → has_line line (lines_from first n) ≡ true
unfolding lines_from
has_line-from first zero line h k = ground arith
has_line-from first (suc n) line h k = elim (Bool-cases (first == line)) [
  | inl here ↦ rw here refl
  | inr there ↦ rw there (has_line-from (suc first) n line (ground (arith, there)) (omega arith))
]

-- If the surroundings are unreachable, `line` is skipped.
record Skips (line : ℕ) (s t : Serializer) : Type 0 where
  skipped : s.current_unreachable ≡ true → has_line line t.skipped_lines ≡ true

Skips-later :
    (line : ℕ) (a b : Action) → Keeps Extends a → Keeps (Skips line) b → Keeps (Skips line) (a >> b)
unfolding ◌>>◌
Skips-later line a b ka kb = record {
  at = λ s u h.
      let (t, first, second) = >>=-eq-some (a s) b h in
      record {
        skipped = λ p.
            (kb.at t u second).skipped
              (ap (λ (x : Serializer). x.current_unreachable) (ka.at s t first).restored ∙ p);
      };
}

or_begin : (a b : Bool) → a ≡ true → (a || b) ≡ true
or_begin true b h = refl
or_begin false b h = cc

Skips-now :
    (line : ℕ) (a b : Action) → Keeps (Skips line) a → Keeps Extends b → Keeps (Skips line) (a >> b)
unfolding ◌>>◌
Skips-now line a b ka kb = record {
  at = λ s u h.
      let (t, first, second) = >>=-eq-some (a s) b h in
      record {
        skipped = λ p.
            let (more, begins) = (kb.at t u second).skipped in
            ap (has_line line) begins
            ∙ has_line-append line t.skipped_lines more
            ∙ or_begin _ _ ((ka.at s t first).skipped p);
      };
}

tag-Extends : (tag : ℕ) → Keeps Extends (write_tag tag)
unfolding write_tag
tag-Extends tag = append-Extends (tag ∷ [])

write_fallback-Extends :
    (c : Context) (block : Stmts) (fallback : Option TextRange)
    → Keeps Extends (write_fallback c block fallback)
write_fallback-Extends c block fallback = extend _ (write_fallback-Grows c block fallback)

skip_unreachable-Skips :
    (c : Context) (st : Stmt) (rest : Stmts) (line : ℕ)
    → has_line line (skipped_range c st (last_stmt st rest)) ≡ true
    → Keeps (Skips line) (reading λ s. skip_unreachable c (cons st rest) s.current_unreachable)
unfolding reading skip_unreachable skip_lines
skip_unreachable-Skips c st rest line inside = record {
  at = λ s t h. record {
    skipped = λ p.
        let lines = skipped_range c st (last_stmt st rest) in
        subst (λ (x : Serializer). has_line line x.skipped_lines ≡ true)
          (some-injective _ t (rw p at h))
          (has_line-append line s.skipped_lines lines
            ∙ ap (λ b. has_line line s.skipped_lines || b) inside
            ∙ or_comm (has_line line s.skipped_lines) true);
  };
}

serialize_block-Skips :
    (c : Context) (st : Stmt) (rest : Stmts) (fallback : Option TextRange) (stmts : Action)
    (line : ℕ)
    → has_line line (skipped_range c st (last_stmt st rest)) ≡ true
    → Keeps Extends stmts
    → Keeps (Skips line) (serialize_block c (cons st rest) fallback stmts)
unfolding serialize_block
serialize_block-Skips c st rest fallback stmts line inside k =
    let now = skip_unreachable-Skips c st rest line inside in
    search
      (
        Skips-now, Skips-later, then-Extends, tag-Extends, append-Extends, write_fallback-Extends,
        Keeps-reading,
      )
      depth 10

-- Where a block that is not empty is serialized in unreachable surroundings, and that returns, every
-- line from the start of its first statement to the end of its last one is among the skipped lines.
pub serialize_block-skipped :
    (c : Context) (st : Stmt) (rest : Stmts) (fallback : Option TextRange) (s t : Serializer)
    (line : ℕ)
    → s.current_unreachable ≡ true
    → (c.source.line_index.line_column (stmt_range st).start).0 ≤ line
    → line ≤ (c.source.line_index.line_column (stmt_range (last_stmt st rest)).end).0
    → serialize_block c (cons st rest) fallback (serialize_stmts c (cons st rest)) s ≡ some t
    → has_line line t.skipped_lines ≡ true
unfolding skipped_range
serialize_block-skipped c st rest fallback s t line unreachable from to ran =
    let st_line = (c.source.line_index.line_column (stmt_range st).start).0 in
    let end_line = (c.source.line_index.line_column (stmt_range (last_stmt st rest)).end).0 in
    let inside = has_line-from st_line (end_line + 1 - st_line) line from (omega arith) in
    ((serialize_block-Skips c st rest fallback (serialize_stmts c (cons st rest)) line inside
          (serialize_stmts-Extends c (cons st rest))).at
        s t ran).skipped
      unreachable

-- Where the block of a branch is serialized, the branch or its surroundings are unreachable, and that
-- returns, the imports recorded in it are added behind the earlier ones, and each has the flag
-- for unreachable code.
pub with_branch_flags-imports :
    (c : Context) (branch : Flags) (block : Stmts) (fallback : Option TextRange) (s t : Serializer)
    → (s.current_unreachable || branch.unreachable) ≡ true
    → with_branch_flags branch (serialize_block c block fallback (serialize_stmts c block)) s
      ≡ some t
    → (added : List (ImportStatement TextRange)) × (t.imports ≡ s.imports ++ added)
      × All (λ i. bit 2 (flags_of i) ≡ true) added
unfolding with_branch_flags
with_branch_flags-imports c branch block fallback s t unreachable h =
    let (u, ran, restored) =
      >>=-eq-some (serialize_block c block fallback (serialize_stmts c block) _) _ h in
    let e =
      (serialize_block-Extends c block fallback (serialize_stmts c block)
          (serialize_stmts-Extends c block)).at
        _ u ran in
    (
      e.added,
      sym (ap (λ (x : Serializer). x.imports) (some-injective _ t restored)) ∙ e.imported,
      All-map (Carries _) (λ i. bit 2 (flags_of i) ≡ true)
          (λ i k.
            ap (bit 2) k.flags
            ∙ (make_import_flags_bits k.in_function k.unreachable k.mypy_only k.is_lazy).1
            ∙ k.if_unreachable unreachable)
          e.added e.carried,
    )
