-- ===== src/InlineConfig/Lists.antt =====
-- Lists of names in a directive.
use ast_serialize.Common.{
  true, false, List, [], ◌∷◌, ◌++◌, some, ◌≡◌, refl, ◌∙◌, ap, Text, codes, all,
}
use ast_serialize.Texts.{is_whitespace, quote, equals, is_empty, not_empty, trim, split_once}
use ast_serialize.Texts.Trim.{trim_solid, ends_solid_append}
use ast_serialize.Texts.Names.{
  is_plain_name, listed, split_commas-listed, lacks-listed, starts_solid-listed, ends_solid-listed,
  not_empty-names,
}
use ast_serialize.InlineConfig.{
  no_overrides, split_respecting_quotes, directives, split_directive, apply_all,
  parse_single_mypy_comment,
}
use ast_serialize.InlineConfig.Quotes.{inside_append}

-- `always-true="n, …"`
abbrev pub always_true_directive : Text → List Text → Text
always_true_directive n ns = codes "always-true=" ++ (quote ∷ (listed n ns ++ (quote ∷ [])))

always_true-split :
    (n : Text) (ns : List Text)
    → is_plain_name n ≡ true
    → all is_plain_name ns ≡ true
    → split_respecting_quotes (always_true_directive n ns)
      ≡ ((codes "always-true=" ++ listed n ns) ∷ [])
unfolding split_respecting_quotes
always_true-split n ns h hs =
    inside_append (codes "always-true=") (listed n ns) [] (lacks-listed n ns h hs)

always_true-trim :
    (n : Text) (ns : List Text)
    → is_plain_name n ≡ true
    → all is_plain_name ns ≡ true
    → trim (codes "always-true=" ++ listed n ns) ≡ (codes "always-true=" ++ listed n ns)
always_true-trim n ns h hs =
    trim_solid (codes "always-true=" ++ listed n ns) (unfold is_whitespace in refl)
      (ends_solid_append (codes "always-true=") (listed n ns) (ends_solid-listed n ns h hs))

directives-one :
    (t key value : Text)
    → trim t ≡ t
    → is_empty t ≡ false
    → split_once equals t ≡ some (key, value)
    → trim key ≡ key
    → trim value ≡ value
    → directives (t ∷ []) ≡ ((key, value) ∷ [])
unfolding directives
directives-one t key value trimmed some_char split k v = rw (trimmed, some_char, split, k, v)

always_true-directives :
    (n : Text) (ns : List Text)
    → is_plain_name n ≡ true
    → all is_plain_name ns ≡ true
    → split_directive (always_true_directive n ns) ≡ ((codes "always-true", listed n ns) ∷ [])
unfolding split_directive
always_true-directives n ns h hs =
    ap directives (always_true-split n ns h hs)
    ∙ directives-one (codes "always-true=" ++ listed n ns) (codes "always-true") (listed n ns)
        (always_true-trim n ns h hs) refl (unfold split_once in refl) (unfold trim in refl)
        (trim_solid (listed n ns) (starts_solid-listed n ns h) (ends_solid-listed n ns h hs))

-- Names in a quoted directive `always-true="A, B, C"`, none with whitespace, a comma or a quote in
-- it, are the overrides' `always_true`, in order, and nothing else is overridden.
pub parse_single_mypy_comment-always_true :
    (n : Text) (ns : List Text)
    → is_plain_name n ≡ true
    → all is_plain_name ns ≡ true
    → parse_single_mypy_comment (always_true_directive n ns)
      ≡ record no_overrides { always_true = n ∷ ns }
unfolding parse_single_mypy_comment
parse_single_mypy_comment-always_true n ns h hs =
    ap (apply_all no_overrides) (always_true-directives n ns h hs)
    ∙ ap (λ names. record no_overrides { always_true = names })
        (ap not_empty (split_commas-listed n ns h hs) ∙ not_empty-names (n ∷ ns) (rw h hs))
