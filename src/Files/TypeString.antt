-- ===== src/Files/TypeString.antt =====
-- src/serialize_ast.rs: `serialize_type_string`, which serializes a type in quotes by itself.
use ast_serialize.Common.{ℕ, false, List, [], Option, none, some, ◌>>=◌, Text}
use ast_serialize.Options.{Options}
use ast_serialize.Serialize.{Context}
use ast_serialize.Serialize.Types.Annotation.{serialize_string_type}
use ast_serialize.Files.Inputs.{Crates, new_serializer}

-- Every location in it is the one that is given.
abbrev pub type_context : Crates → Options → ℕ × ℕ × ℕ × ℕ → Context
type_context crates options range = record {
  source = record {
    line_index = crates.line_index [];
    text = [];
    is_all_ascii = false;
    lines_with_non_ascii = [];
    location_override = some range;
  };
  tokens_before = none;
  skip_function_bodies = false;
  type_comments = [];
  options = options;
  parse_expression = crates.library.parse_expression;
  relocate_expr = crates.relocate_expr;
  int_to_string = crates.int_to_string;
}

unfoldable pub serialize_type_string : Crates → Text → Options → ℕ × ℕ × ℕ × ℕ → Option (List ℕ)
unfolding serialize_string_type
serialize_type_string crates source options range = do
  ser ←
      serialize_string_type (type_context crates options range) source
        (record { start = 0; end = 0 }) (record new_serializer { is_evaluated = false })
  some ser.bytes
