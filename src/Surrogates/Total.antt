-- ===== src/Surrogates/Total.antt =====
-- The scan always answers on a literal that the parser lets pass.
use ast_serialize.Common.{
  ℕ, zero, suc, ◌+◌, ◌*◌, ◌^◌, ◌<◌, Bool, true, false, [], ◌∷◌, ◌++◌, some, ◌≡◌, ◌≢◌, refl, arith,
  ◌==◌, Text, length, length-append, All, Bool-cases, inl, inr, is_some,
}
use ast_serialize.Surrogates.{
  parse_int, is_surrogate, after_backslash, scan, check_surrogate_codepoint,
}
use ast_serialize.Surrogates.Found.{IsHexDigit, to_digit-IsHexDigit}

-- A text in which each backslash begins an escape: `\uXXXX` and `\UXXXXXXXX` have their digits, and
-- any other escape is one code point long or is read on behind it.
pub data WellEscaped : Text → Type 0 where
  finished : WellEscaped []
  plain : {c : ℕ} {s : Text} → c ≢ 92 → WellEscaped s → WellEscaped (c ∷ s)
  open_end : WellEscaped (92 ∷ [])
  escape : {c : ℕ} {s : Text} → c ≢ 117 → c ≢ 85 → WellEscaped s → WellEscaped (92 ∷ c ∷ s)
  escape_u :
      (digits s : Text)
      → All (λ c. (v : ℕ) × IsHexDigit c v) digits
      → length digits ≡ 4
      → WellEscaped s
      → WellEscaped (92 ∷ 117 ∷ (digits ++ s))
  escape_long :
      (digits s : Text)
      → All (λ c. (v : ℕ) × IsHexDigit c v) digits
      → length digits ≡ 8
      → WellEscaped s
      → WellEscaped (92 ∷ 85 ∷ (digits ++ s))

parse_int-digits :
    (digits s : Text)
    → All (λ c. (v : ℕ) × IsHexDigit c v) digits
    → (n : ℕ) × (parse_int (digits ++ s) (length digits) ≡ some (n, s))
unfolding parse_int
parse_int-digits [] s h = (0, refl)
parse_int-digits (c ∷ digits) s ((v, digit), h) =
    let (n, parsed) = parse_int-digits digits s h in
    (v * 16 ^ length digits + n, rw (to_digit-IsHexDigit c v digit, parsed) refl)

differ : (c d : ℕ) → c ≢ d → (c == d) ≡ false
differ c d h = ground (arith, h)

-- A round of the loop whose rest is answered is answered.
scan_answers :
    (f c : ℕ) (s : Text)
    → c ≢ 92
    → is_some (scan f s) ≡ true
    → is_some (scan (suc f) (c ∷ s)) ≡ true
unfolding scan
scan_answers f c s other k = elim (Bool-cases (is_surrogate c)) [
  | inl found ↦ rw (scan, found) refl
  | inr ok ↦ rw (scan, ok, differ c 92 other) k
]

escape_answers :
    (f : ℕ) (s rest : Text) (found : Bool)
    → after_backslash s ≡ some (found, rest)
    → is_some (scan f rest) ≡ true
    → is_some (scan (suc f) (92 ∷ s)) ≡ true
unfolding scan is_surrogate
escape_answers f s rest true e k = rw (scan, e) refl
escape_answers f s rest false e k = rw (scan, e) k

after_backslash-other :
    (c : ℕ) (s : Text) → c ≢ 117 → c ≢ 85 → after_backslash (c ∷ s) ≡ some (false, s)
unfolding after_backslash
after_backslash-other c s h k = rw (differ c 117 h, differ c 85 k) refl

module _ (digits s : Text) (h : All (λ c. (v : ℕ) × IsHexDigit c v) digits) where
  after_backslash-u :
      length digits ≡ 4 → (found : Bool) × (after_backslash (117 ∷ (digits ++ s)) ≡ some (found, s))
  unfolding after_backslash
  after_backslash-u four =
      let (n, parsed) = parse_int-digits digits s h in (is_surrogate n, rw (rw four at parsed) refl)

  after_backslash-long :
      length digits ≡ 8 → (found : Bool) × (after_backslash (85 ∷ (digits ++ s)) ≡ some (found, s))
  unfolding after_backslash
  after_backslash-long eight =
      let (n, parsed) = parse_int-digits digits s h in
      (is_surrogate n, rw (rw eight at parsed) refl)

scan_total : (f : ℕ) (s : Text) → WellEscaped s → length s < f → is_some (scan f s) ≡ true
unfolding scan after_backslash
scan_total zero s w h = ground arith
scan_total (suc f) _ finished h = refl
scan_total (suc f) _ (plain {c = c} {s = s} other w) h =
    scan_answers f c s other (scan_total f s w (omega arith))
scan_total (suc f) _ open_end h =
    escape_answers f [] [] false refl (scan_total f [] finished (omega arith))
scan_total (suc f) _ (escape {c = c} {s = s} p q w) h =
    escape_answers f (c ∷ s) s false (after_backslash-other c s p q)
      (scan_total f s w (omega arith))
scan_total (suc f) _ (escape_u ds s hex four w) h =
    let (found, e) = after_backslash-u ds s hex four in
    escape_answers f (117 ∷ (ds ++ s)) s found e
      (scan_total f s w (omega (arith, length-append ds s)))
scan_total (suc f) _ (escape_long ds s hex eight w) h =
    let (found, e) = after_backslash-long ds s hex eight in
    escape_answers f (85 ∷ (ds ++ s)) s found e
      (scan_total f s w (omega (arith, length-append ds s)))

-- If every backslash of the text of a literal begins a complete escape, then the check for surrogates
-- answers: it neither panics nor runs out of fuel.
pub check_surrogate_codepoint_total :
    (has_surrogates : Bool) (parsed_value source : Text)
    → WellEscaped source
    → is_some (check_surrogate_codepoint has_surrogates parsed_value source) ≡ true
unfolding check_surrogate_codepoint
check_surrogate_codepoint_total has_surrogates parsed_value source w =
    ground (arith, scan_total (suc (length source)) source w (omega arith))
