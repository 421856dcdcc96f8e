-- ===== src/Serialize.antt =====
-- src/serialize_ast.rs, `Serializer`: its state, and the operations that every node is written by.
-- An action is a function on the state; `none` is a panic.
pub mod Tags
pub mod StmtTags
pub mod Names
pub mod Types
pub mod Exprs
pub mod Patterns
pub mod Signatures
pub mod Blocks
pub mod ImportStmts
pub mod Stmts
pub mod Module
pub mod Extends
pub mod Surroundings
pub mod Keeps
pub mod Writes
pub mod Grows
use ast_serialize.Common.{
  ℕ, zero, suc, ◌+◌, ◌-◌, ◌*◌, ◌/◌, ◌%◌, Bool, true, false, ◌||◌, List, [], ◌∷◌, ◌++◌, Option, none,
  some, ◌>>=◌, ltb, leb, ◌==◌, any, not, ◌&&◌, ◌^◌, if◌then◌else◌, Text, codes,
}
use ast_serialize.Common.Int.{ℤ, pos}
use ast_serialize.Options.{Options}
use ast_serialize.Ast.Expr.{TextRange, Identifier, Expr}
use ast_serialize.Wire.{first, write_int, write_bytes, tag_end, tag_literal_none}
use ast_serialize.Location.{
  Source, write_location, convert_column_to_codepoint, is_char_boundary, drop,
}
use ast_serialize.Imports.{ImportStatement}
use ast_serialize.CommentLines.{ParsedTypeComment, SyntaxError}
use ast_serialize.Surrogates.{check_surrogate_codepoint}

pub data TokenKind : Type 0 where
  colon comment other_kind : TokenKind

pub record Token : Type 0 where
  pub kind : TokenKind
  pub range : TextRange

-- The fields of `Serializer` that never change, and what the code calls of other crates: the tokens
-- in front of an offset (`Tokens::before`), the parser of one expression (`none` if it has errors),
-- the walk that gives every node of an expression a range, and the digits of a literal that an i64
-- does not hold.
pub record Context : Type 0 where
  pub source : Source
  pub tokens_before : Option (ℕ → List Token)
  pub skip_function_bodies : Bool
  pub type_comments : List (ℕ × ParsedTypeComment)
  pub options : Options
  pub parse_expression : Text → Option Expr
  pub relocate_expr : Expr → TextRange → Expr
  pub int_to_string : TextRange → ℕ → List ℕ

-- The fields that change. `skipped_lines` is a set, kept as the list of what was put into it.
pub record Serializer : Type 0 where
  pub bytes : List ℕ
  pub imports : List (ImportStatement TextRange)
  pub in_class : Bool
  pub in_function : Bool
  pub current_unreachable : Bool
  pub current_mypy_only : Bool
  pub top_level_getattr : Bool
  pub is_evaluated : Bool
  pub extra_errors : List SyntaxError
  pub skipped_lines : List ℕ
  pub uses_template_strings : Bool
  pub has_surrogates : Bool

abbrev pub Action : Type 0
Action = Serializer → Option Serializer

infixr 4 ◌>>◌
unfoldable pub ◌>>◌ : Action → Action → Action
◌>>◌ before after s = do t ← before s; after t

unfoldable pub skip : Action
skip s = some s

unfoldable pub panic : Action
panic s = none

-- An action that reads the state.
unfoldable pub reading : (Serializer → Action) → Action
reading f s = f s s

-- The bytes that a primitive write appends.
unfoldable pub append : List ℕ → Action
append written s = some (record s { bytes = s.bytes ++ written })

unfoldable pub write_tag : ℕ → Action
unfolding append
write_tag tag = append (tag ∷ [])

unfoldable pub write_end_tag : Action
unfolding write_tag
write_end_tag = write_tag tag_end

unfoldable pub append_located : Option (List ℕ) → Action
unfolding append panic
append_located (some written) = append written
append_located none = panic

unfoldable pub append_location : Context → TextRange → Action
unfolding append_located write_location
append_location c range = append_located (write_location c.source range)

-- The UTF-8 bytes of a character, and of a text.
abbrev pub utf8_char : ℕ → List ℕ
utf8_char c =
    if ltb c 128
    then c ∷ []
    else if ltb c 2048
    then (192 + c / 64) ∷ (128 + c % 64) ∷ []
    else if ltb c 65536
    then (224 + c / 4096) ∷ (128 + (c / 64) % 64) ∷ (128 + c % 64) ∷ []
    else (240 + c / 262144) ∷ (128 + (c / 4096) % 64) ∷ (128 + (c / 64) % 64) ∷ (128 + c % 64) ∷ []

unfoldable pub utf8 : Text → List ℕ
utf8 [] = []
utf8 (c ∷ cs) = utf8_char c ++ utf8 cs

unfoldable pub write_text : Text → Action
unfolding append write_bytes utf8
write_text t = append (write_bytes (utf8 t))

-- The bytes `self.text[range]`; an end off a character's start, or out of the text, is a panic.
unfoldable pub text_at : Source → TextRange → Option (List ℕ)
unfolding is_char_boundary
text_at source range =
    if leb range.start range.end
    then if is_char_boundary source.text range.start
      then if is_char_boundary source.text range.end
        then some (first (range.end - range.start) (drop range.start source.text))
        else none
      else none
    else none

unfoldable pub set_surrogates : Option Bool → Action
set_surrogates none s = none
set_surrogates (some found) s = some (record s { has_surrogates = found })

unfoldable pub reset_surrogates : Action
reset_surrogates s = some (record s { has_surrogates = false })

unfoldable pub surrogates_in : Source → Bool → Text → TextRange → Option Bool
unfolding check_surrogate_codepoint text_at
surrogates_in source has_surrogates value range =
    if any (λ c. c == 65533) value && not has_surrogates
    then (do text ← text_at source range; check_surrogate_codepoint has_surrogates value text)
    else some has_surrogates

-- `check_surrogate_codepoint`, which looks for ASCII characters and is given the bytes.
unfoldable pub check_surrogate : Context → Text → TextRange → Action
unfolding set_surrogates reading surrogates_in
check_surrogate c value range =
    reading λ s. set_surrogates (surrogates_in c.source s.has_surrogates value range)

unfoldable pub push_error : Option SyntaxError → Action
push_error none s = none
push_error (some e) s = some (record s { extra_errors = s.extra_errors ++ (e ∷ []) })

-- The error of `add_error`, whose column is a usize.
unfoldable pub error_at : Source → Text → TextRange → Bool → Option SyntaxError
unfolding convert_column_to_codepoint
error_at source message range blocker =
    let (st_line, st_column_bytes) = source.line_index.line_column range.start in
    (do
      st_column ← convert_column_to_codepoint source st_line st_column_bytes
      some (record {
        line = st_line;
        column = (st_column + (2 ^ 64 - 1)) % 2 ^ 64;
        message = message;
        blocker = blocker;
      }))

unfoldable pub add_error : Context → Text → TextRange → Bool → Action
unfolding push_error error_at
add_error c message range blocker = push_error (error_at c.source message range blocker)

-- A type that is not evaluated: `was_evaluated` is put back behind it.
unfoldable pub unevaluated : Action → Action
unevaluated f s = do
  t ← f (record s { is_evaluated = false })
  some (record t { is_evaluated = s.is_evaluated })
