-- ===== src/Texts/Trim.antt =====
-- Texts with no whitespace at their ends.
use ast_serialize.Common.{
  Bool, true, false, not, [], ◌∷◌, ◌++◌, ◌≡◌, refl, arith, Text, all, and_true,
}
use ast_serialize.Texts.{is_whitespace, is_empty, trim_start, trim_end, trim}

-- Not empty, and with no whitespace at its ends.
abbrev pub starts_solid : Text → Bool
starts_solid [] = false
starts_solid (c ∷ s) = not (is_whitespace c)

unfoldable pub ends_solid : Text → Bool
ends_solid [] = false
ends_solid (c ∷ []) = not (is_whitespace c)
ends_solid (c ∷ s) = ends_solid s

pub trim_start_solid : (s : Text) → starts_solid s ≡ true → trim_start s ≡ s
unfolding trim_start
trim_start_solid [] h = refl
trim_start_solid (c ∷ s) h = ground arith

pub trim_end_solid : (s : Text) → ends_solid s ≡ true → trim_end s ≡ s
unfolding trim_end ends_solid
trim_end_solid [] h = refl
trim_end_solid (c ∷ []) h = ground arith
trim_end_solid (c ∷ d ∷ s) h = rw (trim_end_solid (d ∷ s) h) (ground arith)

pub trim_solid : (s : Text) → starts_solid s ≡ true → ends_solid s ≡ true → trim s ≡ s
unfolding trim
trim_solid s h k = rw (trim_start_solid s h) (trim_end_solid s k)

pub ends_solid_append : (s t : Text) → ends_solid t ≡ true → ends_solid (s ++ t) ≡ true
unfolding ends_solid
ends_solid_append [] t h = h
ends_solid_append (c ∷ []) [] h = cc
ends_solid_append (c ∷ []) (d ∷ t) h = h
ends_solid_append (c ∷ d ∷ s) t h = ends_solid_append (d ∷ s) t h

-- A text with no whitespace at all.
abbrev pub is_solid : Text → Bool
is_solid = all (λ c. not (is_whitespace c))

pub ends_solid-is_solid : (s : Text) → is_empty s ≡ false → is_solid s ≡ true → ends_solid s ≡ true
unfolding ends_solid
ends_solid-is_solid [] h k = cc
ends_solid-is_solid (c ∷ []) h k = (and_true _ true k).0
ends_solid-is_solid (c ∷ d ∷ s) h k = ends_solid-is_solid (d ∷ s) refl (and_true _ _ k).1

pub starts_solid-append :
    (s t : Text) → is_empty s ≡ false → is_solid s ≡ true → starts_solid (s ++ t) ≡ true
starts_solid-append [] t h k = cc
starts_solid-append (c ∷ s) t h k = (and_true _ _ k).0

pub starts_solid-is_solid :
    (s : Text) → is_empty s ≡ false → is_solid s ≡ true → starts_solid s ≡ true
starts_solid-is_solid [] h k = cc
starts_solid-is_solid (c ∷ s) h k = (and_true (not (is_whitespace c)) (is_solid s) k).0
