-- ===== src/Surrogates/Found.antt =====
-- What the scan finds.
use mathlib.Core.Path.{subst}
use mathlib.Core.Option.{some-injective}
use ast_serialize.Common.{
  ℕ, zero, suc, ◌+◌, ◌*◌, ◌⊎◌, ◌≤◌, ◌<◌, Bool, true, false, not, ◌&&◌, [], ◌∷◌, ◌++◌, none, some,
  >>=-eq-some, ◌≡◌, refl, ◌∙◌, ap, arith, ◌==◌, Text, length, length-append, all, any, and_true,
  not-true, Bool-cases, Option-cases, inl, inr,
}
use ast_serialize.Surrogates.{
  to_digit, parse_int, is_surrogate, escaped, after_backslash, scan, check_surrogate_codepoint,
}

parse_int-length :
    (s : Text) (size n : ℕ) (rest : Text)
    → parse_int s size ≡ some (n, rest)
    → length rest ≤ length s
unfolding parse_int
parse_int-length s zero n rest h =
    subst (λ (p : ℕ × Text). length p.1 ≤ length s) (some-injective _ _ h) (omega arith)
parse_int-length [] (suc size) n rest h = cc
parse_int-length (c ∷ s) (suc size) n rest h =
    let (d, digit, more) = >>=-eq-some (to_digit c) _ h in
    let ((result, behind), parsed, back) = >>=-eq-some (parse_int s size) _ more in
    subst (λ (p : ℕ × Text). length p.1 ≤ length (c ∷ s)) (some-injective _ _ back)
      (omega (arith, parse_int-length s size result behind parsed))

escaped-length :
    (s : Text) (size : ℕ) (found : Bool) (rest : Text)
    → escaped (parse_int s size) ≡ some (found, rest)
    → length rest ≤ length s
escaped-length s size found rest h = elim (Option-cases (parse_int s size)) [
  | inl e ↦ absurd (none≢some (rw e at h))
  | inr ((n, behind), e) ↦
      subst (λ (p : Bool × Text). length p.1 ≤ length s) (some-injective _ _ (rw e at h))
        (parse_int-length s size n behind e)
]
  where
    none≢some : {p : Bool × Text} → none ≡ some p → ⊥
    none≢some k = cc

after_backslash-length :
    (s : Text) (found : Bool) (rest : Text)
    → after_backslash s ≡ some (found, rest)
    → length rest ≤ length s
unfolding after_backslash
after_backslash-length [] found rest h =
    subst (λ (p : Bool × Text). length p.1 ≤ 0) (some-injective _ _ h) (omega arith)
after_backslash-length (c ∷ s) found rest h = elim (Bool-cases (c == 117)) [
  | inl u ↦ omega (arith, escaped-length s 4 found rest (rw u at h))
  | inr other ↦ elim (Bool-cases (c == 85)) [
    | inl u ↦ omega (arith, escaped-length s 8 found rest (rw (other, u) at h))
    | inr plain ↦
        subst (λ (p : Bool × Text). length p.1 ≤ length (c ∷ s))
          (some-injective _ _ (rw (other, plain) at h)) (omega arith)
  ]
]

-- Any two amounts of fuel above the length of the text give the same answer: the scan never stops
-- for lack of fuel.
pub scan_fuel : (f g : ℕ) (s : Text) → length s < f → length s < g → scan f s ≡ scan g s
unfolding scan
scan_fuel zero g s h k = absurd (omega arith)
scan_fuel (suc f) zero s h k = absurd (omega arith)
scan_fuel (suc f) (suc g) [] h k = refl
scan_fuel (suc f) (suc g) (c ∷ s) h k = elim (Bool-cases (is_surrogate c)) [
  | inl raw ↦ rw (scan, raw) refl
  | inr ok ↦ elim (Bool-cases (c == 92)) [
    | inr plain ↦ rw (scan, ok, plain) (scan_fuel f g s (omega arith) (omega arith))
    | inl slash ↦ elim (Option-cases (after_backslash s)) [
      | inl panics ↦ rw (scan, ok, slash, panics) refl
      | inr ((true, rest), e) ↦ rw (scan, ok, slash, e) refl
      | inr ((false, rest), e) ↦
          let shorter = after_backslash-length s false rest e in
          rw (scan, ok, slash, e) (scan_fuel f g rest (omega arith) (omega arith))
    ]
  ]
]

-- Neither a backslash nor a surrogate.
abbrev pub is_ordinary : ℕ → Bool
is_ordinary c = not (c == 92) && not (is_surrogate c)

scan_ordinary :
    (f : ℕ) (s t : Text)
    → all is_ordinary s ≡ true
    → length (s ++ t) < f
    → scan f (s ++ t) ≡ scan f t
unfolding scan
scan_ordinary f [] t h k = refl
scan_ordinary zero (c ∷ s) t h k = absurd (omega arith)
scan_ordinary (suc f) (c ∷ s) t h k =
    let (first, later) = and_true (is_ordinary c) (all is_ordinary s) h in
    let (slash, raw) = and_true (not (c == 92)) (not (is_surrogate c)) first in
    rw (scan, not-true (is_surrogate c) raw, not-true (c == 92) slash)
      (scan_ordinary f s t later (omega arith)
        ∙ scan_fuel f (suc f) t (omega (arith, length-append s t))
            (omega (arith, length-append s t)))

-- `c` is a hexadecimal digit, of either case, and `v` its value.
abbrev pub IsHexDigit : ℕ → ℕ → Type 0
IsHexDigit c v = ((v < 10) × (c ≡ 48 + v)) ⊎ ((10 ≤ v) × (v < 16) × ((c ≡ 55 + v) ⊎ (c ≡ 87 + v)))

pub to_digit-IsHexDigit : (c v : ℕ) → IsHexDigit c v → to_digit c ≡ some v
unfolding to_digit
to_digit-IsHexDigit c v (inl (small, e)) = ground (arith, small, e)
to_digit-IsHexDigit c v (inr (large, small, inl e)) = ground (arith, large, small, e)
to_digit-IsHexDigit c v (inr (large, small, inr e)) = ground (arith, large, small, e)

parse_int-four :
    (a b c d va vb vc vd : ℕ) (rest : Text)
    → IsHexDigit a va
    → IsHexDigit b vb
    → IsHexDigit c vc
    → IsHexDigit d vd
    → parse_int (a ∷ b ∷ c ∷ d ∷ rest) 4 ≡ some (va * 4096 + vb * 256 + vc * 16 + vd, rest)
unfolding parse_int
parse_int-four a b c d va vb vc vd rest ha hb hc hd =
    rw
      (
        to_digit-IsHexDigit a va ha,
        to_digit-IsHexDigit b vb hb,
        to_digit-IsHexDigit c vc hc,
        to_digit-IsHexDigit d vd hd,
      )
      (ap (λ x. some (x, rest)) (omega arith))

scan_surrogate :
    (f n a b c d : ℕ) (rest : Text)
    → parse_int (a ∷ b ∷ c ∷ d ∷ rest) 4 ≡ some (n, rest)
    → 55296 ≤ n
    → n ≤ 57343
    → scan (suc f) (92 ∷ 117 ∷ a ∷ b ∷ c ∷ d ∷ rest) ≡ some true
unfolding scan
scan_surrogate f n a b c d rest parsed low high =
    let in_range : is_surrogate n ≡ true = unfold is_surrogate in ground (arith, low, high) in
    let e : after_backslash (117 ∷ a ∷ b ∷ c ∷ d ∷ rest) ≡ some (true, rest) =
      unfold after_backslash in rw (parsed, in_range) refl in
    rw (scan, e) refl

-- If the value of a literal holds a replacement character, and no surrogate has been seen, then an
-- escape `\uXXXX` of a surrogate, with hexadecimal digits of either case, is found behind any text
-- that has no backslash and no surrogate, whatever follows it.
pub check_surrogate_codepoint-found :
    (parsed_value s rest : Text) (a b c d : ℕ) (va vb vc vd : ℕ)
    → any (λ x. x == 65533) parsed_value ≡ true
    → all is_ordinary s ≡ true
    → IsHexDigit a va
    → IsHexDigit b vb
    → IsHexDigit c vc
    → IsHexDigit d vd
    → 55296 ≤ va * 4096 + vb * 256 + vc * 16 + vd
    → va * 4096 + vb * 256 + vc * 16 + vd ≤ 57343
    → check_surrogate_codepoint false parsed_value (s ++ (92 ∷ 117 ∷ a ∷ b ∷ c ∷ d ∷ rest))
      ≡ some true
unfolding check_surrogate_codepoint
check_surrogate_codepoint-found parsed s rest a b c d va vb vc vd h o ha hb hc hd low high =
    let escape = 92 ∷ 117 ∷ a ∷ b ∷ c ∷ d ∷ rest in
    rw h (
      scan_ordinary (suc (length (s ++ escape))) s escape o (omega arith)
      ∙ scan_surrogate (length (s ++ escape)) (va * 4096 + vb * 256 + vc * 16 + vd) a b c d rest
          (parse_int-four a b c d va vb vc vd rest ha hb hc hd) low high)
