-- ===== src/CommentLines/Parts.antt =====
-- What the parts of one comment are collected as.
use mathlib.Core.Path.{subst}
use mathlib.Core.List.{append-nil}
use ast_serialize.Common.{
  if◌then◌else◌, ℕ, Bool, true, false, List, [], ◌∷◌, ◌++◌, Option, none, some, ◌≡◌, refl, sym, ap,
  ◌∙◌, arith, Text, ◌==◌, Bool-cases, inl, inr,
}
use ast_serialize.TypeComment.{
  TypeComment, type_ignore, mypy_ignore, type_annotation, invalid_ignore,
}
use ast_serialize.CommentLines.{
  Library, Comment, Extracted, SeenIgnores, ParsedTypeComment, take_part, take_parts, take_config,
  contains_key, annotation_of,
}

-- The codes of the first type ignore, or mypy ignore, of a comment.
abbrev pub first_type_ignore : List TypeComment → Option (List Text)
first_type_ignore [] = none
first_type_ignore (type_ignore error_codes ∷ ps) = some error_codes
first_type_ignore (_ ∷ ps) = first_type_ignore ps

abbrev pub first_mypy_ignore : List TypeComment → Option (List Text)
first_mypy_ignore [] = none
first_mypy_ignore (mypy_ignore error_codes ∷ ps) = some error_codes
first_mypy_ignore (_ ∷ ps) = first_mypy_ignore ps

-- The first type comment of a comment.
abbrev pub first_annotation : Library → List TypeComment → Option ParsedTypeComment
first_annotation lib [] = none
first_annotation lib (type_annotation annotation ∷ ps) = some (annotation_of lib annotation)
first_annotation lib (_ ∷ ps) = first_annotation lib ps

abbrev pub at_line : ℕ → Option (List Text) → List (ℕ × List Text)
at_line line none = []
at_line line (some error_codes) = (line, error_codes) ∷ []

abbrev pub first_some {ℓ} : {A : Type ℓ} → Option A → Option A → Option A
first_some none b = b
first_some (some a) b = some a

abbrev pub lookup : ℕ → List (ℕ × ParsedTypeComment) → Option ParsedTypeComment
lookup line [] = none
lookup line ((l, t) ∷ rest) = let later = lookup line rest in if l == line then some t else later

lookup-snoc :
    (line l : ℕ) (t : ParsedTypeComment) (m : List (ℕ × ParsedTypeComment))
    → lookup line (m ++ ((l, t) ∷ []))
      ≡ first_some (lookup line m) (if l == line then some t else none)
lookup-snoc line l t [] = refl
lookup-snoc line l t ((k, u) ∷ m) = elim (Bool-cases (k == line)) [
  | inl here ↦ rw here refl
  | inr other ↦ rw other (lookup-snoc line l t m)
]

-- A line that is a key has an entry, so that no later one counts.
contains_key-lookup :
    (line : ℕ) (m : List (ℕ × ParsedTypeComment)) (a b : Option ParsedTypeComment)
    → contains_key m line ≡ true
    → first_some (lookup line m) a ≡ first_some (lookup line m) b
contains_key-lookup line [] a b h = cc
contains_key-lookup line ((k, u) ∷ m) a b h = elim (Bool-cases (k == line)) [
  | inl here ↦ rw here refl
  | inr other ↦ rw other (contains_key-lookup line m a b (rw other at h))
]

pub first_some_assoc {ℓ} :
    {A : Type ℓ} (a b c : Option A) → first_some (first_some a b) c ≡ first_some a (first_some b c)
first_some_assoc none b c = refl
first_some_assoc (some x) b c = refl

pub first_some-none {ℓ} : {A : Type ℓ} (a : Option A) → first_some a none ≡ a
first_some-none none = refl
first_some-none (some x) = refl

nothing_more {ℓ} :
    {A : Type ℓ} (b : Bool) (a : Option A) → first_some a (if b then none else none) ≡ a
nothing_more true a = first_some-none a
nothing_more false a = first_some-none a

-- A type comment on a line that has one changes nothing.
known_line :
    (l line : ℕ) (m : List (ℕ × ParsedTypeComment)) (a b : Option ParsedTypeComment)
    → contains_key m l ≡ true
    → first_some (lookup line m) (if l == line then a else none)
      ≡ first_some (lookup line m) (if l == line then b else none)
known_line l line m a b h = elim (Bool-cases (l == line)) [
  | inl same ↦
      let e : l ≡ line = ground (arith, same) in
      rw same (contains_key-lookup line m a b (subst (λ k. contains_key m k ≡ true) e h))
  | inr other ↦ rw other refl
]

-- Behind the type comment that is inserted, no later one of its line counts.
inserted :
    (l line : ℕ) (t : ParsedTypeComment) (m : List (ℕ × ParsedTypeComment))
    (later : Option ParsedTypeComment)
    → first_some (lookup line (m ++ ((l, t) ∷ []))) (if l == line then later else none)
      ≡ first_some (lookup line m) (if l == line then some t else none)
inserted l line t m later = elim (Bool-cases (l == line)) [
  | inl same ↦
      let k : lookup line (m ++ ((l, t) ∷ [])) ≡ first_some (lookup line m) (some t) =
        rw same at (lookup-snoc line l t m) in
      rw (same, k) (first_some_assoc (lookup line m) (some t) later)
  | inr other ↦
      let k : lookup line (m ++ ((l, t) ∷ [])) ≡ first_some (lookup line m) none =
        rw other at (lookup-snoc line l t m) in
      rw (other, k) (first_some-none _)
]

-- The state behind a part, in each of two cases.
branch :
    (P : SeenIgnores × Extracted → Type 0) (b : Bool) (s t : SeenIgnores × Extracted)
    → (b ≡ true → P s)
    → (b ≡ false → P t)
    → P (if b then s else t)
branch P true s t h k = h refl
branch P false s t h k = k refl

abbrev unless {ℓ} : {A : Type ℓ} → Bool → List A → List A
unless b a = if b then [] else a

unless-nil {ℓ} : {A : Type ℓ} (b : Bool) → unless {A = A} b [] ≡ []
unless-nil true = refl
unless-nil false = refl

unless-true {ℓ} : {A : Type ℓ} (b : Bool) (a a' : List A) → b ≡ true → unless b a ≡ unless b a'
unless-true b a a' h = rw h refl

unless-false {ℓ} : {A : Type ℓ} (b : Bool) (a : List A) → b ≡ false → unless b a ≡ a
unless-false b a h = rw h refl

module _ (lib : Library) (c : Comment) where
  pub type_ignores-take_parts :
      (ps : List TypeComment) (seen : SeenIgnores) (x : Extracted)
      → (take_parts lib c ps (seen, x)).1.type_ignore_lines ≡ (
          x.type_ignore_lines
          ++ unless seen.seen_type_ignore (at_line c.line_number (first_type_ignore ps)))
  unfolding take_parts take_part
  type_ignores-take_parts [] seen x =
      sym (append-nil x.type_ignore_lines)
      ∙ ap (λ l. x.type_ignore_lines ++ l) (sym (unless-nil seen.seen_type_ignore))
  type_ignores-take_parts (invalid_ignore m ∷ ps) seen x = type_ignores-take_parts ps _ _
  type_ignores-take_parts (type_ignore error_codes ∷ ps) seen x =
      branch
        (λ s. (take_parts lib c ps s).1.type_ignore_lines ≡ (
          x.type_ignore_lines ++ unless seen.seen_type_ignore ((c.line_number, error_codes) ∷ [])))
        seen.seen_type_ignore _ _
        (λ h.
          type_ignores-take_parts ps seen _
          ∙ ap (λ l. x.type_ignore_lines ++ l) (unless-true seen.seen_type_ignore _ _ h))
        (λ h.
          type_ignores-take_parts ps _ _
          ∙ append-nil (x.type_ignore_lines ++ ((c.line_number, error_codes) ∷ []))
          ∙ ap (λ l. x.type_ignore_lines ++ l) (sym (unless-false seen.seen_type_ignore _ h)))
  type_ignores-take_parts (mypy_ignore error_codes ∷ ps) seen x =
      branch
        (λ s. (take_parts lib c ps s).1.type_ignore_lines ≡ (
          x.type_ignore_lines
          ++ unless seen.seen_type_ignore (at_line c.line_number (first_type_ignore ps))))
        seen.seen_mypy_ignore _ _ (λ h. type_ignores-take_parts ps seen _)
        (λ h. type_ignores-take_parts ps _ _)
  type_ignores-take_parts (type_annotation annotation ∷ ps) seen x =
      branch
        (λ s. (take_parts lib c ps s).1.type_ignore_lines ≡ (
          x.type_ignore_lines
          ++ unless seen.seen_type_ignore (at_line c.line_number (first_type_ignore ps))))
        (contains_key x.type_comments c.line_number) _ _ (λ h. type_ignores-take_parts ps seen _)
        (λ h. type_ignores-take_parts ps seen _)

  pub mypy_ignores-take_parts :
      (ps : List TypeComment) (seen : SeenIgnores) (x : Extracted)
      → (take_parts lib c ps (seen, x)).1.mypy_ignore_lines ≡ (
          x.mypy_ignore_lines
          ++ unless seen.seen_mypy_ignore (at_line c.line_number (first_mypy_ignore ps)))
  unfolding take_parts take_part
  mypy_ignores-take_parts [] seen x =
      sym (append-nil x.mypy_ignore_lines)
      ∙ ap (λ l. x.mypy_ignore_lines ++ l) (sym (unless-nil seen.seen_mypy_ignore))
  mypy_ignores-take_parts (invalid_ignore m ∷ ps) seen x = mypy_ignores-take_parts ps _ _
  mypy_ignores-take_parts (mypy_ignore error_codes ∷ ps) seen x =
      branch
        (λ s. (take_parts lib c ps s).1.mypy_ignore_lines ≡ (
          x.mypy_ignore_lines ++ unless seen.seen_mypy_ignore ((c.line_number, error_codes) ∷ [])))
        seen.seen_mypy_ignore _ _
        (λ h.
          mypy_ignores-take_parts ps seen _
          ∙ ap (λ l. x.mypy_ignore_lines ++ l) (unless-true seen.seen_mypy_ignore _ _ h))
        (λ h.
          mypy_ignores-take_parts ps _ _
          ∙ append-nil (x.mypy_ignore_lines ++ ((c.line_number, error_codes) ∷ []))
          ∙ ap (λ l. x.mypy_ignore_lines ++ l) (sym (unless-false seen.seen_mypy_ignore _ h)))
  mypy_ignores-take_parts (type_ignore error_codes ∷ ps) seen x =
      branch
        (λ s. (take_parts lib c ps s).1.mypy_ignore_lines ≡ (
          x.mypy_ignore_lines
          ++ unless seen.seen_mypy_ignore (at_line c.line_number (first_mypy_ignore ps))))
        seen.seen_type_ignore _ _ (λ h. mypy_ignores-take_parts ps seen _)
        (λ h. mypy_ignores-take_parts ps _ _)
  mypy_ignores-take_parts (type_annotation annotation ∷ ps) seen x =
      branch
        (λ s. (take_parts lib c ps s).1.mypy_ignore_lines ≡ (
          x.mypy_ignore_lines
          ++ unless seen.seen_mypy_ignore (at_line c.line_number (first_mypy_ignore ps))))
        (contains_key x.type_comments c.line_number) _ _ (λ h. mypy_ignores-take_parts ps seen _)
        (λ h. mypy_ignores-take_parts ps seen _)

  pub lookup-take_parts :
      (line : ℕ) (ps : List TypeComment) (seen : SeenIgnores) (x : Extracted)
      → lookup line (take_parts lib c ps (seen, x)).1.type_comments
        ≡ first_some
            (lookup line x.type_comments)
            (if c.line_number == line then first_annotation lib ps else none)
  unfolding take_parts take_part
  lookup-take_parts line [] seen x = sym (nothing_more (c.line_number == line) _)
  lookup-take_parts line (invalid_ignore m ∷ ps) seen x = lookup-take_parts line ps _ _
  lookup-take_parts line (type_ignore error_codes ∷ ps) seen x =
      branch
        (λ s.
          lookup line (take_parts lib c ps s).1.type_comments
          ≡ first_some (lookup line x.type_comments)
              (if c.line_number == line then first_annotation lib ps else none))
        seen.seen_type_ignore _ _ (λ h. lookup-take_parts line ps seen _)
        (λ h. lookup-take_parts line ps _ _)
  lookup-take_parts line (mypy_ignore error_codes ∷ ps) seen x =
      branch
        (λ s.
          lookup line (take_parts lib c ps s).1.type_comments
          ≡ first_some (lookup line x.type_comments)
              (if c.line_number == line then first_annotation lib ps else none))
        seen.seen_mypy_ignore _ _ (λ h. lookup-take_parts line ps seen _)
        (λ h. lookup-take_parts line ps _ _)
  lookup-take_parts line (type_annotation annotation ∷ ps) seen x =
      branch
        (λ s.
          lookup line (take_parts lib c ps s).1.type_comments
          ≡ first_some (lookup line x.type_comments)
              (if c.line_number == line then some (annotation_of lib annotation) else none))
        (contains_key x.type_comments c.line_number) _ _
        (λ h.
          lookup-take_parts line ps seen _ ∙ known_line c.line_number line x.type_comments _ _ h)
        (λ h.
          lookup-take_parts line ps seen _
          ∙ inserted c.line_number line (annotation_of lib annotation) x.type_comments _)

  pub kept_config :
      (x : Extracted)
      → ((take_config c x).type_ignore_lines ≡ x.type_ignore_lines)
        × ((take_config c x).mypy_ignore_lines ≡ x.mypy_ignore_lines)
        × ((take_config c x).type_comments ≡ x.type_comments)
  unfolding take_config
  kept_config x = (ground arith, ground arith, ground arith)
