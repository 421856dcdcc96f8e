-- ===== src/Newlines/RoundTrip.antt =====
-- Texts with other line endings than "\n".
use ast_serialize.Common.{
  ℕ, ◌≡◌, refl, sym, ap, ◌∙◌, inl, inr, Bool, true, false, ◌&&◌, List, [], ◌∷◌, ◌==◌, if◌then◌else◌,
  any, Bool-cases, arith,
}
use ast_serialize.Newlines.{cr, lf, replace_crlf, replace_cr, universal_newlines}

abbrev pub has_cr : List ℕ → Bool
has_cr text = any (λ b. b == cr) text

-- The text with "\r\n" for each "\n".
unfoldable pub to_crlf : List ℕ → List ℕ
to_crlf [] = []
to_crlf (b ∷ bs) = if b == lf then cr ∷ lf ∷ to_crlf bs else b ∷ to_crlf bs

-- The text with "\r" for each "\n".
unfoldable pub to_cr : List ℕ → List ℕ
to_cr [] = []
to_cr (b ∷ bs) = (if b == lf then cr else b) ∷ to_cr bs

replace_crlf_plain :
    (b : ℕ) (bs : List ℕ) → (b == cr) ≡ false → replace_crlf (b ∷ bs) ≡ b ∷ replace_crlf bs
unfolding replace_crlf
replace_crlf_plain b [] h = refl
replace_crlf_plain b (b' ∷ bs) h = rw h refl

no_cr_head : (b : ℕ) (bs : List ℕ) → has_cr (b ∷ bs) ≡ false → (b == cr) ≡ false
no_cr_head b bs h = elim (Bool-cases (b == cr)) [
  | inl here ↦ let k = rw here at h in cc
  | inr there ↦ there
]

no_cr_tail : (b : ℕ) (bs : List ℕ) → has_cr (b ∷ bs) ≡ false → has_cr bs ≡ false
no_cr_tail b bs h = rw (no_cr_head b bs h) at h

replace_crlf_none : (t : List ℕ) → has_cr t ≡ false → replace_crlf t ≡ t
unfolding replace_crlf
replace_crlf_none [] h = refl
replace_crlf_none (b ∷ bs) h =
    replace_crlf_plain b bs (no_cr_head b bs h)
    ∙ ap (◌∷◌ b) (replace_crlf_none bs (no_cr_tail b bs h))

replace_cr_none : (t : List ℕ) → has_cr t ≡ false → replace_cr t ≡ t
unfolding replace_cr
replace_cr_none [] h = refl
replace_cr_none (b ∷ bs) h =
    let k = replace_cr_none bs (no_cr_tail b bs h) in rw (no_cr_head b bs h) (ap (◌∷◌ b) k)

-- The fast path gives what the replacements give.
universal_newlines_replaced : (t : List ℕ) → universal_newlines t ≡ replace_cr (replace_crlf t)
unfolding universal_newlines
universal_newlines_replaced t = elim (Bool-cases (has_cr t)) [
  | inl some_cr ↦ rw some_cr refl
  | inr none ↦ rw none (sym (ap replace_cr (replace_crlf_none t none) ∙ replace_cr_none t none))
]

replace_crlf-to_crlf : (t : List ℕ) → has_cr t ≡ false → replace_crlf (to_crlf t) ≡ t
unfolding replace_crlf to_crlf
replace_crlf-to_crlf [] h = refl
replace_crlf-to_crlf (b ∷ bs) h =
    let k = replace_crlf-to_crlf bs (no_cr_tail b bs h) in
    elim (Bool-cases (b == lf)) [
      | inl newline ↦ rw newline (
          replace_crlf_plain lf (to_crlf bs) refl
          ∙ ap (◌∷◌ lf) k
          ∙ ap (λ x. x ∷ bs) (ground (arith, newline)))
      | inr other ↦ rw other (replace_crlf_plain b (to_crlf bs) (no_cr_head b bs h) ∙ ap (◌∷◌ b) k)
    ]

-- A text without "\r" is what normalizing gives if "\r\n" is put for each "\n" in it.
pub universal_newlines-to_crlf :
    (t : List ℕ) → has_cr t ≡ false → universal_newlines (to_crlf t) ≡ t
universal_newlines-to_crlf t h =
    universal_newlines_replaced (to_crlf t)
    ∙ ap replace_cr (replace_crlf-to_crlf t h)
    ∙ replace_cr_none t h

never_lf : (b : ℕ) → ((if b == lf then cr else b) == lf) ≡ false
never_lf b = elim (Bool-cases (b == lf)) [
  | inl newline ↦ rw newline refl
  | inr other ↦ rw other other
]

and_false : (b : Bool) → (b && false) ≡ false
and_false true = refl
and_false false = refl

replace_crlf-to_cr : (t : List ℕ) → replace_crlf (to_cr t) ≡ to_cr t
unfolding replace_crlf to_cr
replace_crlf-to_cr [] = refl
replace_crlf-to_cr (b ∷ []) = refl
replace_crlf-to_cr (b ∷ b' ∷ bs) =
    let k = replace_crlf-to_cr (b' ∷ bs) in
    let c = (if b == lf then cr else b) in rw (never_lf b', and_false (c == cr)) (ap (◌∷◌ c) k)

replace_cr-to_cr : (t : List ℕ) → has_cr t ≡ false → replace_cr (to_cr t) ≡ t
unfolding replace_cr to_cr
replace_cr-to_cr [] h = refl
replace_cr-to_cr (b ∷ bs) h =
    let k = replace_cr-to_cr bs (no_cr_tail b bs h) in
    elim (Bool-cases (b == lf)) [
      | inl newline ↦ rw newline (ap (◌∷◌ lf) k ∙ ap (λ x. x ∷ bs) (ground (arith, newline)))
      | inr other ↦ rw other (rw (no_cr_head b bs h) (ap (◌∷◌ b) k))
    ]

-- A text without "\r" is what normalizing gives if "\r" is put for each "\n" in it.
pub universal_newlines-to_cr : (t : List ℕ) → has_cr t ≡ false → universal_newlines (to_cr t) ≡ t
universal_newlines-to_cr t h =
    universal_newlines_replaced (to_cr t)
    ∙ ap replace_cr (replace_crlf-to_cr t)
    ∙ replace_cr-to_cr t h
