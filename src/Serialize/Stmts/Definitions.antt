-- ===== src/Serialize/Stmts/Definitions.antt =====
-- src/serialize_ast.rs, `Ser` for `ast::Stmt`: functions and classes, without their bodies.
use ast_serialize.Common.{
  ℕ, suc, ◌+◌, ◌-◌, Bool, true, not, ◌&&◌, ◌||◌, List, [], ◌∷◌, Option, none, some, leb,
  if◌then◌else◌, codes, text_eq, length, any, is_some,
}
use ast_serialize.Common.Int.{pos, sub_ℕ}
use ast_serialize.Options.{cv_func_type_comment_flag}
use ast_serialize.Ast.Expr.{
  TextRange, Identifier, Exprs, OptExpr, Keywords, no_keywords, keyword, Parameters,
}
use ast_serialize.Ast.Stmt.{Stmts, nil, cons, Decorator, Arguments, TypeParam}
use ast_serialize.Ast.Ranges.{stmt_range}
use ast_serialize.Wire.{write_int, write_tagged_int, write_usize, write_bool, tag_list_gen}
use ast_serialize.Location.{Source, Location, write_fields}
use ast_serialize.Effects.Body.{has_externally_visible_effect}
use ast_serialize.Serialize.{
  Context, Action, ◌>>◌, skip, reading, append, write_tag, write_end_tag, append_location,
  write_text,
}
use ast_serialize.Serialize.StmtTags.{tag_dict_str_gen}
use ast_serialize.Serialize.StmtTags.{tag_decorator, tag_func_def, tag_class_def}
use ast_serialize.Serialize.Types.{exprs_len, typed_list}
use ast_serialize.Serialize.Exprs.Nodes.{serialize_expr, serialize_exprs, serialize_parameters}
use ast_serialize.Serialize.Exprs.Arguments.{duplicate_signature, serialize_annotation}
use ast_serialize.Serialize.Signatures.{FuncComment, add_errors}
use ast_serialize.Serialize.Blocks.{
  last_stmt, serialize_block, serialize_empty_block, within_class, within_function,
}
use ast_serialize.Serialize.Stmts.{serialize_opt_type_params}

unfoldable pub serialize_decorators : Context → List Decorator → Action
unfolding ◌>>◌ skip serialize_expr
serialize_decorators c [] = skip
serialize_decorators c (d ∷ ds) = do serialize_expr c d.expression; serialize_decorators c ds

-- The head of a decorated function. The column is from 1.
unfoldable pub serialize_decorator_head : Context → List Decorator → Action
unfolding ◌>>◌ skip write_tag append write_usize serialize_decorators write_tagged_int
serialize_decorator_head c [] = skip
serialize_decorator_head c (d ∷ ds) =
    let (line, column) = c.source.line_index.line_column d.range.start in
    (do
      write_tag tag_decorator
      write_tag tag_list_gen
      append (write_usize (length (d ∷ ds)))
      serialize_decorators c (d ∷ ds)
      append (write_tagged_int (pos line))
      append (write_tagged_int (pos column)))

unfoldable pub set_top_level_getattr : Action
set_top_level_getattr s = some (record s { top_level_getattr = true })

unfoldable pub note_getattr : Identifier → Action
unfolding reading set_top_level_getattr skip text_eq
note_getattr n = reading λ s.
    if not s.in_class && (not s.in_function && text_eq n.id (codes "__getattr__"))
    then set_top_level_getattr
    else skip

-- The range of a body that is left out.
abbrev pub body_range : TextRange → Stmts → TextRange
body_range range nil = range
body_range range (cons s rest) = record {
  start = (stmt_range s).start;
  end = (stmt_range (last_stmt s rest)).end;
}

unfoldable pub should_serialize_body : Context → Stmts → Parameters → (in_class : Bool) → Bool
unfolding has_externally_visible_effect
should_serialize_body c body params in_class =
    if c.skip_function_bodies then has_externally_visible_effect body params in_class else true

-- The body, given the action for its statements. Whether it is written is settled before
-- `in_function` is set, and from `in_class`, which that does not change.
unfoldable pub serialize_function_body :
    Context → TextRange → Parameters → Stmts → (stmts : Action) → Action
unfolding reading within_function should_serialize_body serialize_block serialize_empty_block
serialize_function_body c range params body stmts = reading λ s. within_function (
    if should_serialize_body c body params s.in_class
    then serialize_block c body (some range) stmts
    else serialize_empty_block c (body_range range body))

-- The position of `def`, counted back from the name.
abbrev pub def_location : Source → (is_async : Bool) → (name_start func_end : ℕ) → Location
def_location source is_async name_start func_end =
    let (name_line, name_column) = source.line_index.line_column name_start in
    let (end_line, end_column) = source.line_index.line_column func_end in
    let def_offset = (if is_async then 10 else 4) in
    record {
      line = pos name_line;
      column = sub_ℕ (name_column - 1) def_offset;
      line_delta = sub_ℕ end_line name_line;
      column_delta = sub_ℕ (end_column - 1 + def_offset) (name_column - 1);
    }

-- The end of a function: its location, and the end tag of the node around a decorated one.
unfoldable pub write_def_location :
    Context → List Decorator → TextRange → (is_async : Bool) → Identifier → Action
unfolding ◌>>◌ append_location append write_fields write_end_tag
write_def_location c [] range is_async n = append_location c range
write_def_location c (_ ∷ _) range is_async n = do
  append (write_fields (def_location c.source is_async n.range.start range.end))
  write_end_tag

unfoldable pub write_comment_flag : Context → FuncComment → Action
unfolding append write_bool skip
write_comment_flag c found =
    if leb cv_func_type_comment_flag c.options.cache_version
    then append (write_bool (any is_some found.arg_types || is_some found.ret_type))
    else skip

-- A function, given the action for the statements of its body.
unfoldable pub serialize_function :
    Context
    → TextRange
    → (is_async : Bool) → List Decorator
    → Identifier
    → Option (List TypeParam)
    → Parameters
    → (returns : OptExpr) → Stmts
    → FuncComment
    → (stmts : Action) → Action
unfolding ◌>>◌ add_errors serialize_decorator_head write_tag write_text serialize_parameters
    note_getattr serialize_function_body append write_bool serialize_opt_type_params
    duplicate_signature serialize_annotation write_comment_flag write_def_location write_end_tag
serialize_function c range is_async decorators n type_params params returns body found stmts = do
  add_errors c found.errors range
  serialize_decorator_head c decorators
  write_tag tag_func_def
  write_text n.id
  serialize_parameters c found.arg_types params
  note_getattr n
  serialize_function_body c range params body stmts
  append (write_bool is_async)
  serialize_opt_type_params c type_params
  duplicate_signature c range returns found.ret_type
  serialize_annotation c range returns found.ret_type
  write_comment_flag c found
  write_def_location c decorators range is_async n
  write_end_tag

abbrev pub bases_of : Option Arguments → Exprs
bases_of none = Exprs.nil
bases_of (some arguments) = arguments.args

abbrev pub keywords_of : Option Arguments → Keywords
keywords_of none = no_keywords
keywords_of (some arguments) = arguments.keywords

unfoldable pub named_len : Keywords → ℕ
named_len no_keywords = 0
named_len (keyword none _ rest) = named_len rest
named_len (keyword (some _) _ rest) = suc (named_len rest)

-- The keywords that have a name.
unfoldable pub serialize_named : Context → Keywords → Action
unfolding ◌>>◌ skip write_text serialize_expr
serialize_named c no_keywords = skip
serialize_named c (keyword none _ rest) = serialize_named c rest
serialize_named c (keyword (some arg) value rest) = do
  write_text arg.id
  serialize_expr c value
  serialize_named c rest

abbrev pub last_decorator : Decorator → List Decorator → Decorator
last_decorator d [] = d
last_decorator d (e ∷ rest) = last_decorator e rest

-- The line of the name, at the column of the last decorator.
abbrev pub class_location : Source → (decorator_start name_start class_end : ℕ) → Location
class_location source decorator_start name_start class_end =
    let decorator_column = (source.line_index.line_column decorator_start).1 in
    let name_line = (source.line_index.line_column name_start).0 in
    let (end_line, end_column) = source.line_index.line_column class_end in
    record {
      line = pos name_line;
      column = pos (decorator_column - 1);
      line_delta = sub_ℕ end_line name_line;
      column_delta = sub_ℕ (end_column - 1) (decorator_column - 1);
    }

unfoldable pub write_class_location : Context → List Decorator → TextRange → Identifier → Action
unfolding append_location append write_fields
write_class_location c [] range n = append_location c range
write_class_location c (d ∷ ds) range n = append (
    write_fields
      (class_location c.source (last_decorator d ds).range.start n.range.start range.end))

-- A class, given the action for the statements of its body.
unfoldable pub serialize_class :
    Context
    → TextRange
    → List Decorator
    → Identifier
    → Option (List TypeParam)
    → Option Arguments
    → Stmts
    → (stmts : Action) → Action
unfolding ◌>>◌ write_tag write_text within_class serialize_block typed_list exprs_len
    serialize_exprs serialize_decorators serialize_opt_type_params append write_int named_len
    serialize_named write_class_location write_end_tag
serialize_class c range decorators n type_params arguments body stmts = do
  write_tag tag_class_def
  write_text n.id
  within_class (serialize_block c body (some range) stmts)
  typed_list (exprs_len (bases_of arguments)) (serialize_exprs c (bases_of arguments))
  typed_list (length decorators) (serialize_decorators c decorators)
  serialize_opt_type_params c type_params
  write_tag tag_dict_str_gen
  append (write_int (pos (named_len (keywords_of arguments))))
  serialize_named c (keywords_of arguments)
  write_class_location c decorators range n
  write_end_tag
