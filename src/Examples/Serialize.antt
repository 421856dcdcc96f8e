-- ===== src/Examples/Serialize.antt =====
-- Statements, expressions and types of a file of one line.
use mathlib.Core.Path.{subst}
use ast_serialize.Common.{
  suc, ◌<◌, ◌^◌, ◌≡◌, refl, arith, true, false, List, [], ◌∷◌, ◌++◌, Option, none, some, Text,
  codes, length, length-append, All,
}
use ast_serialize.Common.Int.{pos, negsuc, pos_part, neg_part}
use ast_serialize.Options.{default_options}
use ast_serialize.Location.{Source}
use ast_serialize.Ast.Expr.{
  TextRange, Expr, lt, absent, name, load, subscript, string_literal, number_literal, int, unary_op,
  u_sub,
}
use ast_serialize.Ast.Stmt.{Stmt, Stmts, if_stmt, pass, assert}
use ast_serialize.Imports.{ImportStatement, import}
use ast_serialize.Imports.Flags.{bit}
use ast_serialize.Serialize.Exprs.Arguments.{parameters_len}
use ast_serialize.ModuleBody.{kept_body}
use ast_serialize.CommentLines.{function}
use ast_serialize.Serialize.{Context, Serializer, colon, comment}
use ast_serialize.Serialize.Keeps.{Keeps, some-injective}
use ast_serialize.Serialize.Writes.{Writes}
use ast_serialize.Serialize.Grows.{Grows, Begins}
use ast_serialize.Serialize.Extends.{Extends, flags_of}
use ast_serialize.Serialize.Names.{extract_int_literal_value}
use ast_serialize.Serialize.Names.Literals.{extract_int_literal_value-bounds, literal_value}
use ast_serialize.Serialize.Types.{string_value}
use ast_serialize.Serialize.Types.Annotation.{
  serialize_type, serialize_parsed, serialize_string_type, wrapped,
}
use ast_serialize.Serialize.Types.Append.{serialize_type-Writes}
use ast_serialize.Serialize.Types.Fuel.{Shorter, serialize_string_type-unfold}
use ast_serialize.Serialize.Exprs.Nodes.{serialize_expr}
use ast_serialize.Serialize.Exprs.Grow.{serialize_expr-Grows}
use ast_serialize.Serialize.Exprs.Resets.{has_replacement, serialize_expr-string_literal}
use ast_serialize.Serialize.Signatures.{FuncComment, find_func_type_comment}
use ast_serialize.Serialize.Signatures.Lengths.{find_func_type_comment-length}
use ast_serialize.Serialize.Blocks.{stmts_len, serialize_block, with_branch_flags}
use ast_serialize.Serialize.Blocks.Skipped.{
  has_line, serialize_block-skipped, with_branch_flags-imports,
}
use ast_serialize.Serialize.Stmts.Nodes.{serialize_stmt, serialize_stmts}
use ast_serialize.Serialize.Stmts.Extend.{serialize_stmt-Extends}
use ast_serialize.Wire.{write_tagged_int}
use ast_serialize.Serialize.Module.Stripped.{serialize_module-stripped}
use ast_serialize.Serialize.Module.{stripped_body, serialize_module, join, kept_body-stripped_body}
use ast_serialize.Examples.Data.{r, chain, type_checking, version_check, self_parameters}

abbrev one_line : Source
one_line = record {
  line_index = record { line_column = λ offset. (1, suc offset); line_start = λ line. 0 };
  text = codes "import a";
  is_all_ascii = true;
  lines_with_non_ascii = [];
  location_override = none;
}

-- A parser that reads a text as `List["..."]`: the quotes hold the text without its first character,
-- and the closing parenthesis.
abbrev pub parse_list : Text → Option Expr
parse_list (_ ∷ _ ∷ _ ∷ rest) = some (
    subscript r (name r (codes "List") load)
      (string_literal r (record { value = rest; range = r } ∷ [])) load)
parse_list _ = none

abbrev context : Context
context = record {
  source = one_line;
  tokens_before = some (λ offset. []);
  skip_function_bodies = true;
  type_comments = [];
  options = default_options;
  parse_expression = parse_list;
  relocate_expr = λ e range. e;
  int_to_string = λ range n. [];
}

abbrev start : Serializer
start = record {
  bytes = [];
  imports = [];
  in_class = false;
  in_function = false;
  current_unreachable = false;
  current_mypy_only = false;
  top_level_getattr = false;
  is_evaluated = true;
  extra_errors = [];
  skipped_lines = [];
  uses_template_strings = false;
  has_surrogates = true;
}

parse_list-Shorter :
    (value : Text) (e : Expr) → parse_list (wrapped value) ≡ some e → Shorter (length value) e
unfolding Shorter string_value
parse_list-Shorter [] e h = cc
parse_list-Shorter (x ∷ []) e h = subst (Shorter 1) (some-injective _ e h) (omega arith)
parse_list-Shorter (x ∷ y ∷ ys) e h =
    subst (Shorter (suc (suc (length ys)))) (some-injective _ e h)
      (omega (arith, length-append (ys ++ codes ")") [], length-append ys (codes ")")))

serialize_string_type-unfold_example :
    serialize_string_type context (codes "L'int'") r
    ≡ serialize_parsed context
        (serialize_string_type context)
        (codes "L'int'")
        r
        (parse_list (wrapped (codes "L'int'")))
serialize_string_type-unfold_example =
    serialize_string_type-unfold context parse_list-Shorter (λ n e range h. h) (codes "L'int'") r

-- `import a`
abbrev pub import_a : Stmt
import_a =
    Stmt.import r
      (record { name = record { id = codes "a"; range = r }; asname = none; range = r } ∷ []) false

serialize_stmt-Extends_example :
    Keeps Extends
      (serialize_stmt context (if_stmt r type_checking (Stmts.cons import_a Stmts.nil) chain))
serialize_stmt-Extends_example =
    serialize_stmt-Extends context (if_stmt r type_checking (Stmts.cons import_a Stmts.nil) chain)

serialize_type-Writes_example :
    Keeps Writes (
      serialize_type context (string_literal r (record { value = codes "L'int'"; range = r } ∷ [])))
serialize_type-Writes_example =
    serialize_type-Writes context
      (string_literal r (record { value = codes "L'int'"; range = r } ∷ []))

serialize_expr-Grows_example : Keeps Grows (serialize_expr context (version_check lt 8))
serialize_expr-Grows_example = serialize_expr-Grows context (version_check lt 8)

extract_int_literal_value-bounds_example :
    (literal_value (unary_op r u_sub (number_literal r (int 9223372036854775807)))
      ≡ some (negsuc 9223372036854775806))
    × (pos_part (negsuc 9223372036854775806) < 2 ^ 63)
    × (neg_part (negsuc 9223372036854775806) < 2 ^ 63)
extract_int_literal_value-bounds_example =
    extract_int_literal_value-bounds (unary_op r u_sub (number_literal r (int 9223372036854775807)))
      (negsuc 9223372036854775806) (unfold extract_int_literal_value in refl)

-- An assert that always fails, and an import behind it.
abbrev failing : Stmt
failing = assert r (version_check lt 8) absent

failing-kept :
    kept_body default_options (Stmts.cons failing (Stmts.cons import_a Stmts.nil))
    ≡ some (Stmts.cons failing Stmts.nil)
unfolding kept_body
failing-kept = refl

failing-stripped :
    stripped_body default_options (Stmts.cons failing (Stmts.cons import_a Stmts.nil))
    ≡ some (Stmts.cons import_a Stmts.nil)
unfolding stripped_body
failing-stripped = refl

kept_body-stripped_body_example :
    join (Stmts.cons failing Stmts.nil) (Stmts.cons import_a Stmts.nil)
    ≡ Stmts.cons failing (Stmts.cons import_a Stmts.nil)
kept_body-stripped_body_example =
    kept_body-stripped_body default_options (Stmts.cons failing (Stmts.cons import_a Stmts.nil))
      (Stmts.cons failing Stmts.nil) (Stmts.cons import_a Stmts.nil) failing-kept failing-stripped

abbrev int_type : Expr
int_type = name r (codes "int") load

-- A comment with two argument types in front of the body of a function.
abbrev commented : Context
commented = record context {
  tokens_before =
      some
        (λ offset. record { kind = colon; range = r } ∷ record { kind = comment; range = r } ∷ []);
  type_comments = (1, function (int_type ∷ int_type ∷ []) int_type) ∷ [];
}

abbrev too_many : FuncComment
too_many = record {
  arg_types = none ∷ [];
  ret_type = some int_type;
  errors = codes "Type signature has too many parameters" ∷ [];
}

too_many-found :
    find_func_type_comment commented false self_parameters (Stmts.cons (pass r) Stmts.nil)
    ≡ some too_many
unfolding find_func_type_comment
too_many-found = refl

find_func_type_comment-length_example : length too_many.arg_types ≡ parameters_len self_parameters
find_func_type_comment-length_example =
    find_func_type_comment-length commented false self_parameters (Stmts.cons (pass r) Stmts.nil)
      too_many too_many-found

abbrev imported : Serializer
imported = record start {
  bytes =
      171 ∷ 20 ∷ 22 ∷ 1 ∷ 164 ∷ 3 ∷ 22 ∷ 4 ∷ 22 ∷ 97 ∷ 0 ∷ 152 ∷ 22 ∷ 20 ∷ 20 ∷ 20 ∷ 3 ∷ 26 ∷ 255
      ∷ 255 ∷ [];
  imports = import (codes "a") (pos 0) none r 3 ∷ [];
  skipped_lines = 1 ∷ [];
}

block-imported :
    serialize_block context
      (Stmts.cons import_a Stmts.nil)
      none
      (serialize_stmts context (Stmts.cons import_a Stmts.nil))
      (record start { current_unreachable = true })
    ≡ some (record imported { current_unreachable = true })
unfolding serialize_block serialize_stmts
block-imported = refl

serialize_block-skipped_example : has_line 1 imported.skipped_lines ≡ true
serialize_block-skipped_example =
    serialize_block-skipped context import_a Stmts.nil none
      (record start { current_unreachable = true }) (record imported { current_unreachable = true })
      1 refl (omega arith) (omega arith) block-imported

branch-imported :
    with_branch_flags
      (record { unreachable = true; mypy_only = false })
      (serialize_block context
        (Stmts.cons import_a Stmts.nil)
        none
        (serialize_stmts context (Stmts.cons import_a Stmts.nil)))
      start
    ≡ some imported
unfolding with_branch_flags serialize_block serialize_stmts
branch-imported = refl

with_branch_flags-imports_example :
    (added : List (ImportStatement TextRange)) × (imported.imports ≡ [] ++ added)
    × All (λ i. bit 2 (flags_of i) ≡ true) added
with_branch_flags-imports_example =
    with_branch_flags-imports context (record { unreachable = true; mypy_only = false })
      (Stmts.cons import_a Stmts.nil) none start imported refl branch-imported

abbrev literal : Serializer
literal = record start {
  bytes = 163 ∷ 4 ∷ 22 ∷ 97 ∷ 0 ∷ 152 ∷ 22 ∷ 20 ∷ 20 ∷ 20 ∷ 255 ∷ [];
  has_surrogates = false;
}

literal-serialized :
    serialize_expr context (string_literal r (record { value = codes "a"; range = r } ∷ [])) start
    ≡ some literal
unfolding serialize_expr
literal-serialized = refl

serialize_expr-string_literal_example : literal.has_surrogates ≡ false
serialize_expr-string_literal_example =
    serialize_expr-string_literal context r (record { value = codes "a"; range = r } ∷ []) start
      literal (unfold has_replacement in refl) literal-serialized

abbrev assert_written : Serializer
assert_written = record start {
  bytes =
      3 ∷ 22 ∷ 197 ∷ 177 ∷ 165 ∷ 162 ∷ 4 ∷ 26 ∷ 115 ∷ 121 ∷ 115 ∷ 152 ∷ 22 ∷ 20 ∷ 20 ∷ 20 ∷ 255 ∷ 4
      ∷ 44 ∷ 118 ∷ 101 ∷ 114 ∷ 115 ∷ 105 ∷ 111 ∷ 110 ∷ 95 ∷ 105 ∷ 110 ∷ 102 ∷ 111 ∷ 152 ∷ 22 ∷ 20
      ∷ 20 ∷ 20 ∷ 255 ∷ 21 ∷ 22 ∷ 24 ∷ 20 ∷ 22 ∷ 170 ∷ 20 ∷ 24 ∷ 167 ∷ 3 ∷ 26 ∷ 152 ∷ 22 ∷ 20 ∷ 20
      ∷ 20 ∷ 255 ∷ 167 ∷ 3 ∷ 36 ∷ 152 ∷ 22 ∷ 20 ∷ 20 ∷ 20 ∷ 255 ∷ 152 ∷ 22 ∷ 20 ∷ 20 ∷ 20 ∷ 255
      ∷ 152 ∷ 22 ∷ 20 ∷ 20 ∷ 20 ∷ 255 ∷ 0 ∷ 152 ∷ 22 ∷ 20 ∷ 20 ∷ 20 ∷ 255 ∷ [];
  skipped_lines = 1 ∷ [];
}

assert-serialized :
    serialize_module context (Stmts.cons failing (Stmts.cons import_a Stmts.nil)) start
    ≡ some assert_written
unfolding serialize_module
assert-serialized = refl

serialize_module-stripped_example :
    (has_line 1 assert_written.skipped_lines ≡ true)
    × Begins
        (write_tagged_int (pos (stmts_len (Stmts.cons failing Stmts.nil))))
        assert_written.bytes
serialize_module-stripped_example =
    serialize_module-stripped context (Stmts.cons failing Stmts.nil) import_a Stmts.nil start
      assert_written 1 failing-kept (omega arith) (omega arith) assert-serialized
