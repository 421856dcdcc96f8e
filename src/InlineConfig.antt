-- ===== src/InlineConfig.antt =====
-- src/mypy_inline_config.rs: the options in `# mypy:` comments that affect parsing.
pub mod Merge
pub mod Quotes
pub mod Lists
use ast_serialize.Common.{
  ℕ, ◌+◌, Bool, true, false, not, ◌&&◌, ◌||◌, List, [], ◌∷◌, ◌++◌, Option, none, some, map, ltb,
  leb, ◌==◌, if◌then◌else◌, Text, codes, text_eq,
}
use ast_serialize.Texts.{quote, comma, equals, is_empty, not_empty, trim, split_commas, split_once}

pub record InlineConfigOverrides : Type 0 where
  pub always_true : List Text
  pub always_false : List Text
  pub ignore_errors : Option Bool

abbrev pub no_overrides : InlineConfigOverrides
no_overrides = record { always_true = []; always_false = []; ignore_errors = none }

abbrev pub later : Option Bool → Option Bool → Option Bool
later old none = old
later old (some b) = some b

unfoldable pub merge : InlineConfigOverrides → InlineConfigOverrides → InlineConfigOverrides
merge a b = record {
  always_true = a.always_true ++ b.always_true;
  always_false = a.always_false ++ b.always_false;
  ignore_errors = later a.ignore_errors b.ignore_errors;
}

-- The loop of `split_respecting_quotes`, and the loop inside it, behind an opening quote.
unfoldable mutual
  pub outside : (current : Text) → Text → List Text
  outside current [] = current ∷ []
  outside current (c ∷ s) = elim (c == comma) [
    | true ↦ current ∷ outside [] s
    | false ↦ elim (c == quote) [
      | true ↦ inside current s
      | false ↦ outside (current ++ (c ∷ [])) s
    ]
  ]

  pub inside : (current : Text) → Text → List Text
  inside current [] = current ∷ []
  inside current (c ∷ s) = elim (c == quote) [
    | true ↦ outside current s
    | false ↦ inside (current ++ (c ∷ [])) s
  ]

unfoldable pub split_respecting_quotes : Text → List Text
unfolding outside
split_respecting_quotes s = outside [] s

abbrev pub key_value : Text → Option (Text × Text) → Text × Text
key_value trimmed none = (trimmed, codes "True")
key_value trimmed (some (key, value)) = (trim key, trim value)

-- The closure of `split_directive`, on its parts in turn.
unfoldable pub directives : List Text → List (Text × Text)
unfolding trim split_once
directives [] = []
directives (part ∷ parts) =
    let trimmed = trim part in
    let rest = directives parts in
    if is_empty trimmed then rest else key_value trimmed (split_once equals trimmed) ∷ rest

unfoldable pub split_directive : Text → List (Text × Text)
unfolding directives split_respecting_quotes
split_directive s = directives (split_respecting_quotes s)

-- ASCII letters. Outside ASCII, only the lower cases of U+0130 and U+212A hold an ASCII letter, `i`
-- and `k`, which no word of `parse_bool` has.
abbrev pub to_lowercase : ℕ → ℕ
to_lowercase c = if leb 65 c && leb c 90 then c + 32 else c

abbrev pub is_one_of : List Text → Text → Bool
is_one_of [] s = false
is_one_of (word ∷ words) s = text_eq s word || is_one_of words s

unfoldable pub parse_bool : Text → Option Bool
unfolding text_eq
parse_bool s =
    let lower = map to_lowercase s in
    if is_one_of (codes "1" ∷ codes "yes" ∷ codes "true" ∷ codes "on" ∷ []) lower
    then some true
    else if is_one_of (codes "0" ∷ codes "no" ∷ codes "false" ∷ codes "off" ∷ []) lower
    then some false
    else none

abbrev pub dash_to_underscore : ℕ → ℕ
dash_to_underscore c = if c == 45 then 95 else c

-- The body of the loop of `parse_single_mypy_comment`.
unfoldable pub apply_directive : InlineConfigOverrides → Text × Text → InlineConfigOverrides
unfolding text_eq split_commas parse_bool
apply_directive result (key, value) =
    let normalized = map dash_to_underscore key in
    if text_eq normalized (codes "always_true")
    then record result { always_true = result.always_true ++ not_empty (split_commas value) }
    else if text_eq normalized (codes "always_false")
    then record result { always_false = result.always_false ++ not_empty (split_commas value) }
    else if text_eq normalized (codes "ignore_errors")
    then record result { ignore_errors = later result.ignore_errors (parse_bool value) }
    else result

unfoldable pub apply_all : InlineConfigOverrides → List (Text × Text) → InlineConfigOverrides
unfolding apply_directive
apply_all result [] = result
apply_all result (d ∷ ds) = apply_all (apply_directive result d) ds

unfoldable pub parse_single_mypy_comment : Text → InlineConfigOverrides
unfolding apply_all split_directive
parse_single_mypy_comment text = apply_all no_overrides (split_directive text)

unfoldable pub merge_comments : InlineConfigOverrides → List (ℕ × Text) → InlineConfigOverrides
unfolding merge parse_single_mypy_comment
merge_comments result [] = result
merge_comments result ((_, text) ∷ comments) =
    merge_comments (merge result (parse_single_mypy_comment text)) comments

unfoldable pub resolve_overrides : List (ℕ × Text) → InlineConfigOverrides
unfolding merge_comments
resolve_overrides comments = merge_comments no_overrides comments
