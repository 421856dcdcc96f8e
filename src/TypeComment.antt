-- ===== src/TypeComment.antt =====
-- src/type_comment.rs: type comments and ignores. `is_alphanumeric` is the Unicode property of
-- `char::is_alphanumeric`, an argument here.
pub mod Function
pub mod Skipped
pub mod Codes
pub mod Letters
pub mod Signature
use ast_serialize.Common.{
  ℕ, zero, suc, Bool, true, false, not, ◌&&◌, ◌||◌, List, [], ◌∷◌, Option, none, some, ◌>>=◌, ◌==◌,
  if◌then◌else◌, all, Text, codes, starts_with,
}
use ast_serialize.Texts.{
  hash, is_whitespace, is_empty, not_empty, trim_start, trim_end, trim, split_on, split_commas,
}

pub data TypeComment : Type 0 where
  type_ignore : List Text → TypeComment
  mypy_ignore : List Text → TypeComment
  type_annotation : Text → TypeComment
  invalid_ignore : (mypy_comment : Bool) → TypeComment

abbrev pub drop : ℕ → Text → Text
drop zero s = s
drop (suc n) [] = []
drop (suc n) (c ∷ s) = drop n s

-- The text up to the first `#`.
abbrev pub before_hash : Text → Text
before_hash [] = []
before_hash (c ∷ s) = let rest = before_hash s in if c == hash then [] else c ∷ rest

-- The text without its last code point, and whether that is a `]`.
abbrev pub without_last : Text → Text
without_last [] = []
without_last (c ∷ []) = []
without_last (c ∷ s) = c ∷ without_last s

abbrev pub ends_with_bracket : Text → Bool
ends_with_bracket [] = false
ends_with_bracket (c ∷ []) = c == 93
ends_with_bracket (c ∷ s) = ends_with_bracket s

abbrev pub is_code_char : (ℕ → Bool) → ℕ → Bool
is_code_char is_alphanumeric c = is_alphanumeric c || c == 95 || c == 45 || c == 58

-- The codes between the brackets.
unfoldable pub validated : (ℕ → Bool) → List Text → Option (List Text)
validated is_alphanumeric error_codes =
    if all (all (is_code_char is_alphanumeric)) error_codes then some error_codes else none

unfoldable pub bracketed_codes : (ℕ → Bool) → Text → Option (List Text)
unfolding validated split_commas
bracketed_codes is_alphanumeric s =
    if ends_with_bracket s
    then validated is_alphanumeric (not_empty (split_commas (without_last (drop 1 s))))
    else none

unfoldable pub parse_error_codes : (ℕ → Bool) → Text → Option (List Text)
unfolding trim_start trim_end bracketed_codes starts_with
parse_error_codes is_alphanumeric after_ignore =
    let trimmed = trim_end (before_hash (trim_start after_ignore)) in
    if starts_with trimmed (codes "[")
    then bracketed_codes is_alphanumeric trimmed
    else if is_empty trimmed
    then some []
    else none

abbrev pub ignore_of : Bool → Option (List Text) → TypeComment
ignore_of mypy_comment none = invalid_ignore mypy_comment
ignore_of true (some error_codes) = mypy_ignore error_codes
ignore_of false (some error_codes) = type_ignore error_codes

-- Nothing, whitespace or `[` comes behind `ignore`.
abbrev pub ends_ignore : Text → Bool
ends_ignore [] = true
ends_ignore (c ∷ s) = is_whitespace c || c == 91

unfoldable pub comment_of : (ℕ → Bool) → Bool → Text → Option TypeComment
unfolding starts_with is_whitespace parse_error_codes
comment_of is_alphanumeric mypy_comment after_type =
    let after_ignore = drop 6 after_type in
    if starts_with after_type (codes "ignore") && ends_ignore after_ignore
    then some (ignore_of mypy_comment (parse_error_codes is_alphanumeric after_ignore))
    else if mypy_comment
    then none
    else some (type_annotation after_type)

unfoldable pub parse_comment_part : (ℕ → Bool) → Text → Option TypeComment
unfolding trim starts_with trim_start comment_of
parse_comment_part is_alphanumeric part =
    let trimmed = trim part in
    let mypy_comment = starts_with trimmed (codes "mypy:") in
    if not (starts_with trimmed (codes "type:")) && not mypy_comment
    then none
    else comment_of is_alphanumeric mypy_comment (trim_start (drop 5 trimmed))

-- The loop of `parse_type_comments_full`.
unfoldable pub collect :
    (ℕ → Bool) → (skip_commented ignore_next : Bool) → List Text → List TypeComment
unfolding trim parse_comment_part
collect is_alphanumeric skip_commented ignore_next [] = []
collect is_alphanumeric skip_commented ignore_next (part ∷ parts) = elim (is_empty (trim part)) [
  | true ↦ collect is_alphanumeric skip_commented true parts
  | false ↦ elim ignore_next [
    | true ↦ collect is_alphanumeric skip_commented false parts
    | false ↦ elim (parse_comment_part is_alphanumeric part) [
      | some parsed ↦ parsed ∷ collect is_alphanumeric skip_commented false parts
      | none ↦ elim skip_commented [
        | true ↦ []
        | false ↦ collect is_alphanumeric skip_commented false parts
      ]
    ]
  ]
]

abbrev pub some_parts : List TypeComment → Option (List TypeComment)
some_parts [] = none
some_parts (p ∷ ps) = some (p ∷ ps)

unfoldable pub parse_type_comments_full : (ℕ → Bool) → Text → Bool → Option (List TypeComment)
unfolding collect split_on
parse_type_comments_full is_alphanumeric [] skip_commented = none
parse_type_comments_full is_alphanumeric (c ∷ rest) skip_commented =
    if c == hash
    then some_parts (collect is_alphanumeric skip_commented false (split_on hash rest))
    else none

unfoldable pub parse_type_comments : (ℕ → Bool) → Text → Option (List TypeComment)
unfolding parse_type_comments_full
parse_type_comments is_alphanumeric comment = parse_type_comments_full is_alphanumeric comment false

abbrev pub first_ignore : List TypeComment → Option (List Text)
first_ignore [] = none
first_ignore (type_ignore error_codes ∷ parts) = some error_codes
first_ignore (_ ∷ parts) = first_ignore parts

unfoldable pub parse_type_comment : (ℕ → Bool) → Text → Option (List Text)
unfolding parse_type_comments
parse_type_comment is_alphanumeric comment = do
  parts ← parse_type_comments is_alphanumeric comment
  first_ignore parts
