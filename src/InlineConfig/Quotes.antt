-- ===== src/InlineConfig/Quotes.antt =====
-- Parts in quotes.
use mathlib.Core.List.{append_assoc, append-nil}
use ast_serialize.Common.{
  true, not, List, [], ◌∷◌, ◌++◌, ◌≡◌, sym, ◌∙◌, ap, Text, all, ◌==◌, and_true, not-true,
}
use ast_serialize.Texts.{quote, comma}
use ast_serialize.Texts.Split.{lacks}
use ast_serialize.InlineConfig.{outside, inside, split_respecting_quotes}

-- Up to the closing quote, the text is taken as it stands.
pub inside_append :
    (current s rest : Text)
    → lacks quote s ≡ true
    → inside current (s ++ (quote ∷ rest)) ≡ outside (current ++ s) rest
unfolding inside
inside_append current [] rest h = ap (λ t. outside t rest) (sym (append-nil current))
inside_append current (c ∷ s) rest h =
    let (first, later) = and_true (not (c == quote)) (lacks quote s) h in
    rw (inside, not-true (c == quote) first)
      (inside_append (current ++ (c ∷ [])) s rest later
        ∙ ap (λ t. outside t rest) (append_assoc current (c ∷ []) s))

-- Parts in quotes, with commas between them.
unfoldable pub quoted : Text → List Text → Text
quoted s [] = quote ∷ (s ++ (quote ∷ []))
quoted s (t ∷ ts) = quote ∷ (s ++ (quote ∷ comma ∷ quoted t ts))

-- Parts that are written in quotes, with commas between them, are split into the same parts, if
-- none has a quote in it: a comma inside a part does not split it.
pub split_respecting_quotes-quoted :
    (s : Text) (ts : List Text)
    → lacks quote s ≡ true
    → all (lacks quote) ts ≡ true
    → split_respecting_quotes (quoted s ts) ≡ (s ∷ ts)
unfolding split_respecting_quotes quoted
split_respecting_quotes-quoted s [] h hs = inside_append [] s [] h
split_respecting_quotes-quoted s (t ∷ ts) h hs =
    let (first, later) = and_true (lacks quote t) (all (lacks quote) ts) hs in
    inside_append [] s _ h ∙ ap (λ us. s ∷ us) (split_respecting_quotes-quoted t ts first later)
