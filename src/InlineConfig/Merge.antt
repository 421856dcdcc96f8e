-- ===== src/InlineConfig/Merge.antt =====
-- Runs of comments.
use mathlib.Core.List.{append_assoc, append-nil}
use ast_serialize.Common.{
  ℕ, Bool, List, [], ◌∷◌, ◌++◌, Option, none, some, ◌≡◌, refl, sym, ◌∙◌, ap, Text,
}
use ast_serialize.InlineConfig.{
  InlineConfigOverrides, no_overrides, later, merge, merge_comments, resolve_overrides,
  parse_single_mypy_comment,
}

later_assoc : (a b c : Option Bool) → later (later a b) c ≡ later a (later b c)
later_assoc a b none = refl
later_assoc a b (some x) = refl

later-none : (a : Option Bool) → later none a ≡ a
later-none none = refl
later-none (some b) = refl

pub merge_assoc : (a b c : InlineConfigOverrides) → merge (merge a b) c ≡ merge a (merge b c)
unfolding merge
merge_assoc a b c = rw (
  append_assoc a.always_true b.always_true c.always_true,
  append_assoc a.always_false b.always_false c.always_false,
  later_assoc a.ignore_errors b.ignore_errors c.ignore_errors,
)

merge-no_overrides : (a : InlineConfigOverrides) → merge no_overrides a ≡ a
unfolding merge
merge-no_overrides a = rw (later-none a.ignore_errors)

merge_comments-merge :
    (a : InlineConfigOverrides) (cs : List (ℕ × Text))
    → merge_comments a cs ≡ merge a (merge_comments no_overrides cs)
unfolding merge_comments
merge_comments-merge a [] = rw (append-nil a.always_true, append-nil a.always_false)
merge_comments-merge a ((l, text) ∷ cs) =
    let p = parse_single_mypy_comment text in
    merge_comments-merge (merge a p) cs
    ∙ merge_assoc a p (merge_comments no_overrides cs)
    ∙ ap (merge a) (
        ap (λ q. merge q (merge_comments no_overrides cs)) (sym (merge-no_overrides p))
        ∙ sym (merge_comments-merge (merge no_overrides p) cs))

merge_comments_append :
    (a : InlineConfigOverrides) (xs ys : List (ℕ × Text))
    → merge_comments a (xs ++ ys) ≡ merge_comments (merge_comments a xs) ys
unfolding merge_comments
merge_comments_append a [] ys = refl
merge_comments_append a ((l, text) ∷ xs) ys =
    merge_comments_append (merge a (parse_single_mypy_comment text)) xs ys

-- The overrides of two runs of comments, one behind the other, are those of the first merged with
-- those of the second.
pub resolve_overrides-append :
    (xs ys : List (ℕ × Text))
    → resolve_overrides (xs ++ ys) ≡ merge (resolve_overrides xs) (resolve_overrides ys)
unfolding resolve_overrides
resolve_overrides-append xs ys =
    merge_comments_append no_overrides xs ys
    ∙ merge_comments-merge (merge_comments no_overrides xs) ys
