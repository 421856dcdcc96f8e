-- ===== src/Lib.antt =====
-- A model of ast_serialize, which parses a Python file and serializes it for mypy.
--
-- The program parses a file with the ruff parser, walks the syntax tree, and appends to one list of
-- bytes. On the way it decides which blocks of `if` and `match` statements mypy skips, which
-- function bodies it may leave out, and which import statements the file holds. The parts are:
--
--   Options       src/options.rs: the target version, the platform and the names given as true or
--                 false.
--   Ast           crates/ruff_python_ast: the syntax trees that the parser hands over. A list or an
--                 option of nodes inside a node is a data type of its own.
--   Reachability  src/reachability.rs: `infer_condition_value` and all that it calls. Truth holds the
--                 five truth values and `combine_bool_op`, Literals the literals that a check reads,
--                 Version `consider_sys_version_info`, Platform `consider_sys_platform`, and Infer
--                 the recursion over `not`, `and` and `or`, asserts and patterns. `none` is a panic.
--   Branches      src/serialize_ast.rs: `IfReachabilityAnalyzer` as a record that each operation
--                 returns anew, and the analysis at the head of `serialize_if_stmt` and of the match
--                 statement. Execution says which blocks run.
--   Effects       src/func_effect_visitor.rs: the visitor `EffectDetector` as a function of the
--                 tree from state to state, with the walks of crates/ruff_python_ast/src/visitor.rs
--                 that it calls, and the test for trivial bodies. Visible describes the scope of a
--                 body with no state.
--   Wire          src/serialize_ast.rs: `write_int`, `write_bytes`, `write_bool` and their kin, each
--                 as the bytes that it appends. Reader is a reader of the format.
--   Location      src/serialize_ast.rs: `floor_char_boundary`, `convert_column_to_codepoint` and
--                 `write_location`. The line index of crates/ruff_source_file is an argument.
--   Imports       src/serialize_ast.rs: `ImportStatement`, `make_import_flags`, `serialize_imports`.
--   Escape        src/serialize_ast.rs: `serialize_bytes_to_escaped_string`.
--   Surrogates    src/serialize_ast.rs: `check_surrogate_codepoint` and `parse_int`.
--   ModuleBody    src/serialize_ast.rs: the statements of a module that are serialized.
--   Serialize     src/serialize_ast.rs: the state of `Serializer`, the actions on it, and `Ser` for
--                 every node. Tags and StmtTags hold the tags; Names what reads names and literals;
--                 Types `serialize_type`, with Unbound for names with arguments, and Annotation
--                 for the recursion and for types in quotes;
--                 Exprs and Patterns the expressions and patterns, with Operators,
--                 Strings and Arguments for their parts; Signatures `serialize_type_params` and
--                 `find_func_type_comment`; Blocks `serialize_block`, `skip_lines` and
--                 `with_branch_flags`; ImportStmts the imports; Stmts the statements, with
--                 Definitions for functions and classes; Module a module. Keeps, Writes, Grows and
--                 Extends relate the state before and after an action.
--   Newlines      src/serialize_ast.rs, `serialize_python_file`: the line endings of a source text.
--   ModuleIgnore  src/serialize_ast.rs, `serialize_python_file`: an ignore for the whole module.
--   Files         src/serialize_ast.rs: `serialize_python_file`, from the source text to its results,
--                 and `serialize_type_string`. Inputs says what it is given: the file system, the digest,
--                 the line index and the parser are functions in a record.
--   TypeComment   src/type_comment.rs: `parse_type_comments_full` and what it calls. Function is
--                 `parse_func_type_comment`, whose loop is a step per token.
--   CommentLines  src/serialize_ast.rs: `extract_type_comments_and_ignores`, a step per comment token
--                 and in it a step per part. The parser is an argument.
--   InlineConfig  src/mypy_inline_config.rs: the directives of `# mypy:` comments and their merge.
--   Texts         the operations of `str` that the comment parsers use.
--   Common        Booleans, options, lists and texts, integers, and the orders that values compare
--                 by.
--   Examples      runs on small inputs.
--
-- Branches asks Infer about its conditions; Location and Imports write through Wire; CommentLines
-- hands each comment to TypeComment, and collects the comments that InlineConfig resolves into the
-- names that Options holds. Serialize writes through Wire and Location, asks Branches which blocks
-- are reachable, Effects which bodies to leave out and ModuleBody which statements to keep, collects
-- the ImportStatement of Imports, and reads the comments that CommentLines has parsed. Files calls
-- CommentLines, then InlineConfig, then Serialize, then Imports.
--
-- An action of Serialize takes the state to `some` state, or to `none` if it panics. What the code
-- takes from the crates of ruff is a field of Context: the tokens in front of an offset, the parser
-- of a type in quotes, `relocate_expr`, and the digits of an integer that an i64 does not hold. A
-- set of skipped lines is the list of what was put into it. A function of the code that takes nodes
-- apart and calls itself through a helper is a mutual block, in which the helper is given the action
-- of its recursive call.
--
-- Numbers: a u64 or an i64 is a natural number or an integer, with the bound written as a
-- hypothesis where the format needs it; `u32 as i32` and the shifts into a smaller word wrap
-- around. A text that the code compares is the list of its code points; a text whose length or
-- offsets the code takes is the list of its UTF-8 bytes. Every loop is a structural recursion,
-- save the scan for surrogates, which takes one more than the length of its text as fuel: each round
-- takes a character; and types in quotes, which take one more than the length of the text as fuel,
-- since a text in quotes inside a text is shorter than it. The column of `add_error` is a usize, and
-- wraps around. The call that `write_int` makes to itself is on a number of one byte.
--
-- Where a build with overflow checks panics on `parameters.len() - 1` for a method without parameters,
-- the model finds no match, as a build without them does. A comment comes with its line, its column and
-- the text in front of it, which the code computes from the line index; a line start that is off a
-- character, or an argument without an entry, does not occur in the code and has no panic here.
--
-- Not modelled: a reader for the tags of nodes; the Python bindings of src/lib.rs; and the crates of
-- ruff under crates/, which the program calls.
pub mod Common
pub mod Ast
pub mod Options
pub mod Reachability
pub mod Branches
pub mod Effects
pub mod Wire
pub mod Location
pub mod Imports
pub mod ModuleBody
pub mod Serialize
pub mod Newlines
pub mod ModuleIgnore
pub mod Files
pub mod Surrogates
pub mod Escape
pub mod Texts
pub mod InlineConfig
pub mod TypeComment
pub mod CommentLines
mod Examples
