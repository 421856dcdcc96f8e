-- ===== src/Examples/Files.antt =====
-- Whole files.
use ast_serialize.Common.{ℕ, ◌≡◌, refl, true, false, List, [], ◌∷◌, ◌++◌, none, some, codes, All}
use ast_serialize.Common.Int.{pos}
use ast_serialize.Options.{default_options}
use ast_serialize.Wire.{write_tagged_int, write_usize, tag_list_gen}
use ast_serialize.Ast.Stmt.{nil, cons}
use ast_serialize.CommentLines.{Extracted}
use ast_serialize.Serialize.{Serializer}
use ast_serialize.Serialize.Grows.{Begins}
use ast_serialize.ModuleIgnore.{is_skipped}
use ast_serialize.Newlines.{universal_newlines, is_ascii}
use ast_serialize.Newlines.RoundTrip.{to_crlf, to_cr, universal_newlines-to_cr}
use ast_serialize.Files.{
  Output, serialize_commented, top_unreachable, serialize_tree, file_context, serialize_python_file,
}
use ast_serialize.Files.Inputs.{Crates, FilePath, Parsed, parse_errors}
use ast_serialize.Files.Endings.{unhashed, serialize_python_file-to_crlf}
use ast_serialize.Files.Ignored.{serialize_commented-ignored}
use ast_serialize.Files.Outputs.{serialize_commented_sound}
use ast_serialize.Examples.Serialize.{import_a, parse_list}

-- A file of two lines, the first a comment.
abbrev two_lines : List ℕ
two_lines = codes "# x\nimport a\n"

abbrev crates : Crates
crates = record {
  read_to_string = λ file. none;
  digest = λ text. text;
  line_index = λ text. record { line_column = λ offset. (2, 1); line_start = λ line. 0 };
  parse = λ file text. record {
    body = cons import_a nil;
    errors = (4, codes "Expected") ∷ [];
    comments = [];
    tokens_before = λ offset. [];
  };
  library = record {
    is_alphanumeric = λ c. true;
    parse_expression = parse_list;
    tokens = λ text. [];
  };
  relocate_expr = λ e range. e;
  int_to_string = λ range n. [];
}

abbrev file : FilePath
file = record { path = codes "a.py"; file_name = some (codes "a.py") }

universal_newlines-to_cr_example : universal_newlines (to_cr two_lines) ≡ two_lines
universal_newlines-to_cr_example = universal_newlines-to_cr two_lines refl

serialize_python_file-to_crlf_example :
    unhashed (serialize_python_file crates file (some (to_crlf two_lines)) false default_options)
    ≡ unhashed (serialize_python_file crates file (some two_lines) false default_options)
serialize_python_file-to_crlf_example =
    serialize_python_file-to_crlf crates file two_lines false default_options refl

-- An ignore in line `n`.
abbrev ignored_in : ℕ → Extracted
ignored_in n = record {
  type_ignore_lines = (n, codes "misc" ∷ []) ∷ [];
  mypy_ignore_lines = [];
  type_comments = [];
  mypy_comments = [];
  syntax_errors = [];
}

abbrev parsed : Parsed
parsed = crates.parse file two_lines

serialize_commented-ignored_example :
    (output : Output) × (serialize_commented crates file [] two_lines parsed
        (ignored_in 1)
        false
        default_options
      ≡ some output)
    × (output.ast_bytes ≡ write_tagged_int (pos 0))
    × (output.import_bytes ≡ tag_list_gen ∷ write_usize 0)
    × (output.type_ignore_lines ≡ [])
    × (output.mypy_ignore_lines ≡ [])
serialize_commented-ignored_example =
    serialize_commented-ignored crates file [] two_lines parsed (ignored_in 1) false default_options
      import_a nil refl (tt, tt) tt refl

abbrev import_output : Output
import_output = record {
  ast_bytes = 3 ∷ 22 ∷ 164 ∷ 3 ∷ 22 ∷ 4 ∷ 22 ∷ 97 ∷ 0 ∷ 152 ∷ 24 ∷ 20 ∷ 20 ∷ 20 ∷ 3 ∷ 22 ∷ 255 ∷ [];
  syntax_errors = record { line = 2; column = 1; message = codes "Expected"; blocker = true } ∷ [];
  type_ignore_lines = (2, codes "misc" ∷ []) ∷ [];
  mypy_ignore_lines = [];
  import_bytes = 20 ∷ 22 ∷ 226 ∷ 4 ∷ 22 ∷ 97 ∷ 3 ∷ 20 ∷ 0 ∷ 152 ∷ 24 ∷ 20 ∷ 20 ∷ 20 ∷ 3 ∷ 22 ∷ [];
  is_partial_package = false;
  uses_template_strings = false;
  source_hash = [];
  mypy_comments = [];
}

import-serialized :
    serialize_commented crates file [] two_lines parsed (ignored_in 2) false default_options
    ≡ some import_output
unfolding serialize_commented is_ascii
import-serialized = refl

serialize_commented_sound_example :
    (written : Serializer × List ℕ) × (serialize_tree
        (file_context crates two_lines parsed (ignored_in 2) false default_options)
        (top_unreachable crates two_lines parsed (ignored_in 2))
        (cons import_a nil)
      ≡ some written)
    × Begins
        (parse_errors (crates.line_index two_lines) parsed.errors ++ [])
        import_output.syntax_errors
    × All (λ x. is_skipped written.0.skipped_lines x.0 ≡ false) import_output.type_ignore_lines
    × All (λ x. is_skipped written.0.skipped_lines x.0 ≡ false) import_output.mypy_ignore_lines
serialize_commented_sound_example =
    serialize_commented_sound crates file [] two_lines parsed (ignored_in 2) false default_options
      import_output import-serialized
