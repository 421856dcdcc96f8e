-- ===== src/TypeComment/Function.antt =====
-- src/type_comment.rs: function type comments, `(int, *str) -> None`. The tokens are those of
-- crates/ruff_python_parser, an argument here: each has the nesting of parentheses behind it. Offsets
-- count code points; the code cuts at token boundaries only.
use ast_serialize.Common.{
  ℕ, zero, suc, ◌-◌, Bool, true, false, List, [], ◌∷◌, ◌++◌, Option, none, some, ◌>>=◌, ◌==◌,
  if◌then◌else◌, Text,
}
use ast_serialize.TypeComment.{drop}

pub data TokenKind : Type 0 where
  lpar rpar comma star double_star rarrow other_token : TokenKind

pub record Token : Type 0 where
  pub kind : TokenKind
  pub start : ℕ
  pub end : ℕ
  pub nesting : ℕ

abbrev pub take : ℕ → Text → Text
take zero s = []
take (suc n) [] = []
take (suc n) (c ∷ s) = c ∷ take n s

abbrev pub slice : Text → ℕ → ℕ → Text
slice s start end = take (end - start) (drop start s)

-- `tokens.peek()?.start()`
abbrev pub peek_start : List Token → Option ℕ
peek_start [] = none
peek_start (t ∷ ts) = some t.start

-- The variables of the loop.
pub record Arguments : Type 0 where
  pub arg_types : List Text
  pub arg_start : ℕ
  pub arg_end : ℕ
  pub star_stripped : Bool

-- What the loop does at a token: it goes on, it leaves with the types, or it returns `None`.
pub data Step : Type 0 where
  go_on : Arguments → Step
  leave : List Text → Step
  give_up : Step

abbrev pub restart : Arguments → List Text → Bool → Option ℕ → Step
restart a types stripped none = give_up
restart a types stripped (some start) =
    go_on
      (record { arg_types = types; arg_start = start; arg_end = start; star_stripped = stripped })

abbrev pub argument : Text → Arguments → Text
argument comment a = slice comment a.arg_start a.arg_end

unfoldable pub advance : Arguments → Token → Step
advance a t = go_on (record a { arg_end = t.end })

unfoldable pub at_comma : Text → Arguments → Option ℕ → Step
at_comma comment a next = restart a (a.arg_types ++ (argument comment a ∷ [])) false next

unfoldable pub at_star : Arguments → Token → Option ℕ → Step
at_star a t next =
    if a.star_stripped
    then give_up
    else if a.arg_start == t.start
    then restart a a.arg_types true next
    else go_on a

unfoldable pub at_rpar : Text → Arguments → Step
at_rpar comment a =
    if a.arg_end == a.arg_start
    then leave a.arg_types
    else leave (a.arg_types ++ (argument comment a ∷ []))

unfoldable pub step_by : TokenKind → Text → Arguments → Token → Option ℕ → Step
unfolding advance at_comma at_star at_rpar
step_by comma comment a t next = if t.nesting == 1 then at_comma comment a next else advance a t
step_by star comment a t next = if t.nesting == 1 then at_star a t next else advance a t
step_by double_star comment a t next = if t.nesting == 1 then at_star a t next else advance a t
step_by rpar comment a t next = if t.nesting == 0 then at_rpar comment a else advance a t
step_by _ comment a t next = advance a t

-- The loop, with the tokens that are left behind the closing parenthesis.
unfoldable pub argument_types : Text → Arguments → List Token → Option (List Text × List Token)
unfolding step_by
argument_types comment a [] = none
argument_types comment a (t ∷ ts) = elim (step_by t.kind comment a t (peek_start ts)) [
  | go_on next ↦ argument_types comment next ts
  | leave types ↦ some (types, ts)
  | give_up ↦ none
]

abbrev pub is_lpar : TokenKind → Bool
is_lpar lpar = true
is_lpar _ = false

abbrev pub is_rarrow : TokenKind → Bool
is_rarrow rarrow = true
is_rarrow _ = false

-- The token that opens, and the one behind the closing parenthesis.
abbrev pub expect_kind : (TokenKind → Bool) → List Token → Option (List Token)
expect_kind p [] = none
expect_kind p (t ∷ ts) = if p t.kind then some ts else none

unfoldable pub parse_func_type_comment : (Text → List Token) → Text → Option (List Text × Text)
unfolding argument_types
parse_func_type_comment tokens comment = do
  inner ← expect_kind is_lpar (tokens comment)
  start ← peek_start inner
  (arg_types, behind) ←
      argument_types comment
        (record { arg_types = []; arg_start = start; arg_end = start; star_stripped = false }) inner
  rest ← expect_kind is_rarrow behind
  ret_start ← peek_start rest
  some (arg_types, drop ret_start comment)
