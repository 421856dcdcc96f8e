-- ===== src/Files/Inputs.antt =====
-- src/serialize_ast.rs, `serialize_python_file`: what it is given, and the context that it makes.
use ast_serialize.Common.{ℕ, Bool, true, false, List, [], Option, none, some, map, Text}
use ast_serialize.Options.{Options, extend_always_true, extend_always_false}
use ast_serialize.Location.{Source, LineIndex}
use ast_serialize.Ast.Expr.{TextRange, Expr}
use ast_serialize.Ast.Stmt.{Stmts, nil, cons}
use ast_serialize.Ast.Ranges.{stmt_range}
use ast_serialize.InlineConfig.{InlineConfigOverrides}
use ast_serialize.CommentLines.{Library, Comment, Extracted, SyntaxError}
use ast_serialize.Serialize.{Context, Serializer, Token}
use ast_serialize.Newlines.{is_ascii, non_ascii_lines}

-- What the parser gives: the statements, the errors by their offset, the comment tokens, and the
-- tokens in front of an offset.
pub record Parsed : Type 0 where
  pub body : Stmts
  pub errors : List (ℕ × Text)
  pub comments : List Comment
  pub tokens_before : ℕ → List Token

-- A path, with its last component.
pub record FilePath : Type 0 where
  pub path : Text
  pub file_name : Option Text

-- What the code calls of other crates and of the system.
pub record Crates : Type 0 where
  pub read_to_string : FilePath → Option (List ℕ)
  pub digest : List ℕ → Text
  pub line_index : List ℕ → LineIndex
  pub parse : FilePath → List ℕ → Parsed
  pub library : Library
  pub relocate_expr : Expr → TextRange → Expr
  pub int_to_string : TextRange → ℕ → List ℕ

abbrev pub parse_errors : LineIndex → List (ℕ × Text) → List SyntaxError
parse_errors index errors =
    map
      (λ (offset, message). record {
        line = (index.line_column offset).0;
        column = (index.line_column offset).1;
        message = message;
        blocker = true;
      })
      errors

unfoldable pub with_overrides : InlineConfigOverrides → Options → Options
unfolding extend_always_true extend_always_false
with_overrides overrides options =
    extend_always_false overrides.always_false (extend_always_true overrides.always_true options)

abbrev pub enables_skipping : Option Bool → Bool
enables_skipping (some true) = true
enables_skipping _ = false

unfoldable pub first_statement_line : LineIndex → Stmts → ℕ
first_statement_line index nil = 0
first_statement_line index (cons s _) = (index.line_column (stmt_range s).start).0

abbrev pub new_serializer : Serializer
new_serializer = record {
  bytes = [];
  imports = [];
  in_class = false;
  in_function = false;
  current_unreachable = false;
  current_mypy_only = false;
  top_level_getattr = false;
  is_evaluated = true;
  extra_errors = [];
  skipped_lines = [];
  uses_template_strings = false;
  has_surrogates = false;
}

abbrev pub source_of : Crates → List ℕ → Source
source_of crates text = record {
  line_index = crates.line_index text;
  text = text;
  is_all_ascii = is_ascii text;
  lines_with_non_ascii = non_ascii_lines text;
  location_override = none;
}

-- The fields of `Serializer` that never change.
abbrev pub context_of :
    Crates → List ℕ → Parsed → Extracted → (skip_function_bodies : Bool) → Options → Context
context_of crates text parsed comments skip_function_bodies options = record {
  source = source_of crates text;
  tokens_before = some parsed.tokens_before;
  skip_function_bodies = skip_function_bodies;
  type_comments = comments.type_comments;
  options = options;
  parse_expression = crates.library.parse_expression;
  relocate_expr = crates.relocate_expr;
  int_to_string = crates.int_to_string;
}
