-- ===== src/Files.antt =====
-- src/serialize_ast.rs: `serialize_python_file` and `serialize_type_string`. What they call of other
-- crates and of the system is a record of functions. A source text is the list of its UTF-8 bytes.
pub mod Inputs
pub mod Endings
pub mod Ignored
pub mod Outputs
pub mod TypeString
use ast_serialize.Common.{
  ℕ, Bool, true, false, ◌&&◌, ◌||◌, List, [], ◌∷◌, ◌++◌, Option, none, some, ◌>>=◌, if◌then◌else◌,
  map, Text, codes, text_eq,
}
use ast_serialize.Common.Int.{ℤ, pos}
use ast_serialize.Options.{Options, extend_always_true, extend_always_false}
use ast_serialize.Wire.{write_tagged_int}
use ast_serialize.Location.{Source, LineIndex}
use ast_serialize.Imports.{serialize_imports}
use ast_serialize.Ast.Expr.{TextRange, Expr}
use ast_serialize.Ast.Stmt.{Stmts, nil, cons}
use ast_serialize.Ast.Ranges.{stmt_range}
use ast_serialize.InlineConfig.{InlineConfigOverrides, resolve_overrides}
use ast_serialize.CommentLines.{
  Library, Comment, Extracted, SyntaxError, extract_type_comments_and_ignores,
}
use ast_serialize.Serialize.{Context, Serializer, Action, Token, append}
use ast_serialize.Serialize.Types.Annotation.{serialize_string_type}
use ast_serialize.Serialize.Module.{serialize_module}
use ast_serialize.Newlines.{universal_newlines, is_ascii, non_ascii_lines}
use ast_serialize.ModuleIgnore.{
  first_module_ignore, is_above, module_ignore_errors, retain_reachable,
}
use ast_serialize.Files.Inputs.{
  Parsed, FilePath, Crates, parse_errors, with_overrides, enables_skipping, first_statement_line,
  new_serializer, source_of, context_of,
}

unfoldable pub serialize_body : Context → (top_unreachable : Bool) → Stmts → Action
unfolding append serialize_module
serialize_body c true body = append (write_tagged_int (pos 0))
serialize_body c false body = serialize_module c body

-- The results, in the order of the tuple.
pub record Output : Type 0 where
  pub ast_bytes : List ℕ
  pub syntax_errors : List SyntaxError
  pub type_ignore_lines : List (ℕ × List Text)
  pub mypy_ignore_lines : List (ℕ × List Text)
  pub import_bytes : List ℕ
  pub is_partial_package : Bool
  pub uses_template_strings : Bool
  pub source_hash : Text
  pub mypy_comments : List (ℕ × Text)

abbrev pub is_stub_package : FilePath → Bool
is_stub_package file = is_init file.file_name
  where
    is_init : Option Text → Bool
    is_init none = false
    is_init (some n) = text_eq n (codes "__init__.pyi")

-- The context of the serialization: the comments may add to the options.
unfoldable pub file_context :
    Crates → List ℕ → Parsed → Extracted → (skip_function_bodies : Bool) → Options → Context
unfolding resolve_overrides with_overrides
file_context crates text parsed comments skip_function_bodies options =
    let overrides = resolve_overrides comments.mypy_comments in
    context_of crates text parsed comments
      (skip_function_bodies || enables_skipping overrides.ignore_errors)
      (with_overrides overrides options)

-- The first ignore, and the line of the first statement.
unfoldable pub ignore_and_line : Crates → List ℕ → Parsed → Extracted → Option (ℕ × List Text) × ℕ
unfolding first_module_ignore first_statement_line
ignore_and_line crates text parsed comments = (
  first_module_ignore comments.type_ignore_lines comments.mypy_ignore_lines,
  first_statement_line (crates.line_index text) parsed.body,
)

unfoldable pub top_unreachable : Crates → List ℕ → Parsed → Extracted → Bool
unfolding ignore_and_line
top_unreachable crates text parsed comments =
    let (found, line) = ignore_and_line crates text parsed comments in is_above found line

-- The serializer behind the module, and the bytes of its imports.
unfoldable pub serialize_tree : Context → (ignored : Bool) → Stmts → Option (Serializer × List ℕ)
unfolding serialize_body serialize_imports
serialize_tree c ignored body = do
  ser ← serialize_body c ignored body new_serializer
  import_bytes ← serialize_imports c.source ser.imports
  some (ser, import_bytes)

unfoldable pub output_of :
    Crates
    → FilePath
    → (source_hash : Text) → (text : List ℕ) → Parsed
    → Extracted
    → Serializer × List ℕ
    → Output
unfolding ignore_and_line top_unreachable module_ignore_errors retain_reachable
output_of crates file source_hash text parsed comments (ser, import_bytes) =
    let (found, line) = ignore_and_line crates text parsed comments in
    let ignored = top_unreachable crates text parsed comments in
    record {
      ast_bytes = ser.bytes;
      syntax_errors =
          parse_errors (crates.line_index text) parsed.errors
          ++ (comments.syntax_errors ++ (module_ignore_errors found line ++ ser.extra_errors));
      type_ignore_lines =
          retain_reachable ser.skipped_lines (if ignored then [] else comments.type_ignore_lines);
      mypy_ignore_lines =
          retain_reachable ser.skipped_lines (if ignored then [] else comments.mypy_ignore_lines);
      import_bytes = import_bytes;
      is_partial_package = is_stub_package file && ser.top_level_getattr;
      uses_template_strings = ser.uses_template_strings;
      source_hash = source_hash;
      mypy_comments = comments.mypy_comments;
    }

-- What stands behind the extraction of the comments.
unfoldable pub serialize_commented :
    Crates
    → FilePath
    → (source_hash : Text) → (text : List ℕ) → Parsed
    → Extracted
    → (skip_function_bodies : Bool) → Options
    → Option Output
unfolding file_context top_unreachable serialize_tree output_of
serialize_commented crates file source_hash text parsed comments skip_function_bodies options = do
  written ←
      serialize_tree (file_context crates text parsed comments skip_function_bodies options)
        (top_unreachable crates text parsed comments) parsed.body
  some (output_of crates file source_hash text parsed comments written)

-- A file by its text, whose line endings are already "\n".
unfoldable pub serialize_text :
    Crates → FilePath → (source_hash : Text) → (text : List ℕ) → Bool → Options → Option Output
unfolding extract_type_comments_and_ignores serialize_commented
serialize_text crates file source_hash text skip_function_bodies options =
    let parsed = crates.parse file text in
    serialize_commented crates file source_hash text parsed
      (extract_type_comments_and_ignores crates.library options parsed.comments)
      skip_function_bodies options

-- A file that cannot be read is an error; another is serialized, or the code panics.
pub data FileResult : Type 0 where
  not_read : FileResult
  panicked : FileResult
  serialized : Output → FileResult

abbrev pub result_of : Option Output → FileResult
result_of none = panicked
result_of (some output) = serialized output

unfoldable pub serialize_source :
    Crates → FilePath → Option (List ℕ) → (skip_function_bodies : Bool) → Options → FileResult
unfolding universal_newlines serialize_text
serialize_source crates file none skip_function_bodies options = not_read
serialize_source crates file (some raw) skip_function_bodies options = result_of (
    serialize_text crates file (crates.digest raw) (universal_newlines raw) skip_function_bodies
      options)

abbrev pub or_else : Option (List ℕ) → Option (List ℕ) → Option (List ℕ)
or_else none other = other
or_else (some given) other = some given

unfoldable pub serialize_python_file :
    Crates
    → FilePath
    → (source : Option (List ℕ)) → (skip_function_bodies : Bool) → Options
    → FileResult
unfolding serialize_source
serialize_python_file crates file source skip_function_bodies options =
    serialize_source crates file (or_else source (crates.read_to_string file)) skip_function_bodies
      options
