-- ===== src/Texts/Split.antt =====
-- Splitting at a separator.
use ast_serialize.Common.{
  ℕ, Bool, true, not, List, [], ◌∷◌, ◌++◌, ◌≡◌, refl, arith, Text, all, ◌==◌, and_true, Bool-cases,
  inl, inr,
}
use ast_serialize.Texts.{push_first, split_on}

-- A text without the code point.
abbrev pub lacks : ℕ → Text → Bool
lacks separator = all (λ c. not (c == separator))

pub split_on-lacks :
    (separator : ℕ) (s : Text) → lacks separator s ≡ true → split_on separator s ≡ (s ∷ [])
unfolding split_on
split_on-lacks separator [] h = refl
split_on-lacks separator (c ∷ s) h =
    rw (split_on-lacks separator s (and_true (not (c == separator)) (lacks separator s) h).1)
      (ground arith)

pub split_on_append :
    (separator : ℕ) (s t : Text)
    → lacks separator s ≡ true
    → split_on separator (s ++ (separator ∷ t)) ≡ (s ∷ split_on separator t)
unfolding split_on
split_on_append separator [] t h = ground arith
split_on_append separator (c ∷ s) t h =
    rw (split_on_append separator s t (and_true (not (c == separator)) (lacks separator s) h).1)
      (ground arith)

push_first-cons :
    (c : ℕ) (parts : List Text) → (p : Text) × (ps : List Text) × (push_first c parts ≡ (p ∷ ps))
push_first-cons c [] = (c ∷ [], [], refl)
push_first-cons c (p ∷ ps) = (c ∷ p, ps, refl)

-- There is always a part.
pub split_on-cons :
    (separator : ℕ) (s : Text) → (p : Text) × (ps : List Text) × (split_on separator s ≡ (p ∷ ps))
unfolding split_on
split_on-cons separator [] = ([], [], refl)
split_on-cons separator (c ∷ s) = elim (Bool-cases (c == separator)) [
  | inl h ↦ ([], split_on separator s, rw h refl)
  | inr h ↦ let (p, ps, e) = push_first-cons c (split_on separator s) in (p, ps, rw h e)
]
