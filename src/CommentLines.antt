-- ===== src/CommentLines.antt =====
-- src/serialize_ast.rs: `extract_type_comments_and_ignores`. A comment token comes with what the line
-- index says of it. The parser of crates/ruff_python_parser is an argument.
pub mod Kept
pub mod Parts
pub mod Contents
pub mod Lines
use ast_serialize.Common.{
  ℕ, Bool, true, false, not, ◌&&◌, ◌||◌, List, [], ◌∷◌, ◌++◌, Option, none, some, ◌>>=◌, ltb, ◌==◌,
  if◌then◌else◌, Text, codes, text_eq, starts_with,
}
use ast_serialize.Options.{Options, cv_full_type_comments}
use ast_serialize.Ast.Expr.{Expr}
use ast_serialize.Texts.{is_empty, trim}
use ast_serialize.TypeComment.{
  TypeComment, type_ignore, mypy_ignore, type_annotation, invalid_ignore, drop,
  parse_type_comments_full,
}
use ast_serialize.TypeComment.Function.{Token, parse_func_type_comment}

-- What the code relies on: the Unicode property, the parser of one expression (`none` if it has
-- errors), and the tokens of a text.
pub record Library : Type 0 where
  pub is_alphanumeric : ℕ → Bool
  pub parse_expression : Text → Option Expr
  pub tokens : Text → List Token

pub data ParsedTypeComment : Type 0 where
  regular : Expr → ParsedTypeComment
  function : List Expr → Expr → ParsedTypeComment
  invalid : Text → ParsedTypeComment

pub record SyntaxError : Type 0 where
  pub line : ℕ
  pub column : ℕ
  pub message : Text
  pub blocker : Bool

-- A comment token. `before` is the text of its line in front of it.
pub record Comment : Type 0 where
  pub comment_text : Text
  pub line_number : ℕ
  pub column : ℕ
  pub before : Text

-- The five results. `type_comments` is the map by line.
pub record Extracted : Type 0 where
  pub type_ignore_lines : List (ℕ × List Text)
  pub mypy_ignore_lines : List (ℕ × List Text)
  pub type_comments : List (ℕ × ParsedTypeComment)
  pub mypy_comments : List (ℕ × Text)
  pub syntax_errors : List SyntaxError

abbrev pub nothing_extracted : Extracted
nothing_extracted = record {
  type_ignore_lines = [];
  mypy_ignore_lines = [];
  type_comments = [];
  mypy_comments = [];
  syntax_errors = [];
}

abbrev pub parenthesized : Text → Text
parenthesized s = codes "(" ++ (s ++ codes ")")

abbrev pub parse_all : (Text → Option Expr) → List Text → Option (List Expr)
parse_all parse [] = some []
parse_all parse (s ∷ ss) = do e ← parse (parenthesized s); es ← parse_all parse ss; some (e ∷ es)

unfoldable pub function_comment_to_expr :
    (Text → Option Expr) → List Text → Text → Option (List Expr × Expr)
function_comment_to_expr parse arg_types ret_type = do
  args ← parse_all parse arg_types
  ret ← parse (parenthesized ret_type)
  some (args, ret)

unfoldable pub as_function_comment : Library → Text → Option (List Expr × Expr)
unfolding parse_func_type_comment function_comment_to_expr
as_function_comment lib annotation = do
  (arg_types, ret_type) ← parse_func_type_comment lib.tokens annotation
  function_comment_to_expr lib.parse_expression arg_types ret_type

abbrev pub or_function : Text → Option (List Expr × Expr) → ParsedTypeComment
or_function annotation (some (args, ret)) = function args ret
or_function annotation none =
    invalid (codes "Syntax error in type comment \"" ++ (annotation ++ codes "\""))

abbrev pub or_regular : Option Expr → ParsedTypeComment → ParsedTypeComment
or_regular (some e) otherwise = regular e
or_regular none otherwise = otherwise

-- The type comment that is inserted for an annotation.
unfoldable pub annotation_of : Library → Text → ParsedTypeComment
unfolding as_function_comment
annotation_of lib annotation =
    if is_empty annotation
    then invalid (codes "Syntax error in type comment \"\"")
    else or_regular (lib.parse_expression (parenthesized annotation))
        (or_function annotation (as_function_comment lib annotation))

abbrev pub contains_key : List (ℕ × ParsedTypeComment) → ℕ → Bool
contains_key [] line = false
contains_key ((l, _) ∷ rest) line = l == line || contains_key rest line

abbrev pub report : Comment → Text → Extracted → Extracted
report c message x = record x {
  syntax_errors =
      x.syntax_errors
      ++ (record { line = c.line_number; column = c.column; message = message; blocker = false }
          ∷ []);
}

abbrev pub invalid_message : Bool → Text
invalid_message is_mypy =
    codes "Invalid \""
    ++ ((if is_mypy then codes "mypy" else codes "type") ++ codes ": ignore\" comment")

-- `seen_type_ignore` and `seen_mypy_ignore`
pub record SeenIgnores : Type 0 where
  pub seen_type_ignore : Bool
  pub seen_mypy_ignore : Bool

-- The body of the loop over the parts of a comment.
unfoldable pub take_part :
    Library → Comment → TypeComment → SeenIgnores × Extracted → SeenIgnores × Extracted
unfolding annotation_of
take_part lib c (invalid_ignore is_mypy) (seen, x) = (seen, report c (invalid_message is_mypy) x)
take_part lib c (type_ignore error_codes) (seen, x) =
    if seen.seen_type_ignore
    then (seen, report c (codes "Multiple type ignores on the same line") x)
    else (
      record seen { seen_type_ignore = true },
      record x { type_ignore_lines = x.type_ignore_lines ++ ((c.line_number, error_codes) ∷ []) },
    )
take_part lib c (mypy_ignore error_codes) (seen, x) =
    if seen.seen_mypy_ignore
    then (seen, report c (codes "Multiple mypy ignores on the same line") x)
    else (
      record seen { seen_mypy_ignore = true },
      record x { mypy_ignore_lines = x.mypy_ignore_lines ++ ((c.line_number, error_codes) ∷ []) },
    )
take_part lib c (type_annotation annotation) (seen, x) =
    if contains_key x.type_comments c.line_number
    then (seen, report c (codes "Multiple type comments on the same line") x)
    else (
      seen,
      record x {
        type_comments = x.type_comments ++ ((c.line_number, annotation_of lib annotation) ∷ []);
      },
    )

unfoldable pub take_parts :
    Library → Comment → List TypeComment → SeenIgnores × Extracted → SeenIgnores × Extracted
unfolding take_part
take_parts lib c [] state = state
take_parts lib c (p ∷ ps) state = take_parts lib c ps (take_part lib c p state)

abbrev pub prefix : Text
prefix = codes "# mypy:"

abbrev pub is_ignore : Text → Bool
is_ignore s =
    text_eq s (codes "ignore") || starts_with s (codes "ignore[") || starts_with s (codes "ignore ")

-- The inline configuration in a comment at the start of its line.
unfoldable pub take_config : Comment → Extracted → Extracted
unfolding trim starts_with text_eq
take_config c x =
    let trimmed = trim (drop 7 c.comment_text) in
    if c.column == 1
      && starts_with c.comment_text prefix
      && not (is_empty trimmed)
      && not (is_ignore trimmed)
    then record x { mypy_comments = x.mypy_comments ++ ((c.line_number, trimmed) ∷ []) }
    else x

unfoldable pub skips_commented : Options → Comment → Bool
unfolding trim
skips_commented options c =
    is_empty (trim c.before) || ltb options.cache_version cv_full_type_comments

abbrev pub parts_or_none : Option (List TypeComment) → List TypeComment
parts_or_none none = []
parts_or_none (some parts) = parts

unfoldable pub parts_of : Library → Options → Comment → List TypeComment
unfolding parse_type_comments_full skips_commented
parts_of lib options c =
    parts_or_none
      (parse_type_comments_full lib.is_alphanumeric c.comment_text (skips_commented options c))

-- The body of the loop over the comment tokens.
unfoldable pub take_comment : Library → Options → Comment → Extracted → Extracted
unfolding take_config take_parts parts_of
take_comment lib options c x =
    (take_parts lib c (parts_of lib options c)
      (record { seen_type_ignore = false; seen_mypy_ignore = false }, take_config c x)).1

unfoldable pub take_comments : Library → Options → List Comment → Extracted → Extracted
unfolding take_comment
take_comments lib options [] x = x
take_comments lib options (c ∷ cs) x = take_comments lib options cs (take_comment lib options c x)

unfoldable pub extract_type_comments_and_ignores : Library → Options → List Comment → Extracted
unfolding take_comments
extract_type_comments_and_ignores lib options comments =
    take_comments lib options comments nothing_extracted
