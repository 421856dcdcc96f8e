-- ===== src/Serialize/Stmts.antt =====
-- src/serialize_ast.rs, `Ser` for `ast::Stmt`: what the branches write beside the statements in them.
pub mod Definitions
pub mod Nodes
pub mod Parts
pub mod Bodies
pub mod Extend
use ast_serialize.Common.{
  ℕ, zero, suc, Bool, true, false, not, ◌&&◌, ◌||◌, List, [], ◌∷◌, ◌++◌, Option, none, some, leb,
  ltb, ◌==◌, if◌then◌else◌, Text, codes, length,
}
use ast_serialize.Common.Int.{pos}
use ast_serialize.Options.{cv_handler_locations}
use ast_serialize.Ast.Expr.{
  TextRange, Identifier, Operator, add, sub, mult, mat_mult, div, mod_op, pow, l_shift, r_shift,
  bit_or, bit_xor, bit_and, floor_div, Expr, Exprs, nil, cons, OptExpr, absent, present, tuple,
}
use ast_serialize.Ast.Stmt.{Stmts, WithItem, Handlers, no_handlers, except_handler, TypeParam}
use ast_serialize.Wire.{write_int, write_tagged_int, write_bool}
use ast_serialize.CommentLines.{ParsedTypeComment, regular, function, invalid}
use ast_serialize.Serialize.{
  Context, Action, ◌>>◌, skip, append, write_tag, write_end_tag, append_location, write_text,
  unevaluated, add_error,
}
use ast_serialize.Serialize.Tags.{tag_tuple_expr}
use ast_serialize.Serialize.StmtTags.{tag_temp_node}
use ast_serialize.Serialize.Types.{exprs_len, close, typed_list}
use ast_serialize.Serialize.Types.Unbound.{invalid_type}
use ast_serialize.Serialize.Types.Annotation.{serialize_type}
use ast_serialize.Serialize.Exprs.Nodes.{serialize_expr, serialize_exprs, serialize_opt}
use ast_serialize.Serialize.Signatures.{comment_at, line_of, serialize_type_params}

-- `a.op.as_str()`
abbrev pub operator_str : Operator → Text
operator_str add = codes "+"
operator_str sub = codes "-"
operator_str mult = codes "*"
operator_str mat_mult = codes "@"
operator_str div = codes "/"
operator_str mod_op = codes "%"
operator_str pow = codes "**"
operator_str l_shift = codes "<<"
operator_str r_shift = codes ">>"
operator_str bit_or = codes "|"
operator_str bit_xor = codes "^"
operator_str bit_and = codes "&"
operator_str floor_div = codes "//"

-- The comment at the first line of an assignment, or else at its last line.
abbrev pub or_comment :
    Option ParsedTypeComment → Option ParsedTypeComment → Option ParsedTypeComment
or_comment (some found) other = some found
or_comment none other = other

unfoldable pub assign_comment : Context → TextRange → Option ParsedTypeComment
unfolding comment_at
assign_comment c range =
    or_comment (comment_at c.type_comments (line_of c range.start))
      (comment_at c.type_comments (line_of c range.end))

unfoldable pub serialize_assign_type : Context → TextRange → Option ParsedTypeComment → Action
unfolding ◌>>◌ append write_bool unevaluated serialize_type add_error close invalid_type
serialize_assign_type c range (some (regular type_expr)) = do
  append (write_bool true)
  unevaluated (serialize_type c (c.relocate_expr type_expr range))
serialize_assign_type c range (some (invalid error)) = do
  add_error c error range false
  append (write_bool true)
  close c range (invalid_type c)
serialize_assign_type c range _ = append (write_bool false)

-- The value of an annotated assignment, or a node in its place.
unfoldable pub serialize_value_or_temp : Context → OptExpr → Action
unfolding ◌>>◌ serialize_expr write_tag write_end_tag
serialize_value_or_temp c (present value) = serialize_expr c value
serialize_value_or_temp c absent = do write_tag tag_temp_node; write_end_tag

unfoldable pub serialize_items : Context → List WithItem → Action
unfolding ◌>>◌ skip serialize_expr serialize_opt
serialize_items c [] = skip
serialize_items c (i ∷ items) = do
  serialize_expr c i.context_expr
  serialize_opt c i.optional_vars
  serialize_items c items

unfoldable pub write_identifiers : List Identifier → Action
unfolding ◌>>◌ skip write_text
write_identifiers [] = skip
write_identifiers (n ∷ ns) = do write_text n.id; write_identifiers ns

-- The targets of `del`: more than one, or none, are a tuple.
unfoldable pub serialize_targets_of_del : Context → TextRange → Exprs → Action
unfolding ◌>>◌ serialize_expr close write_tag typed_list exprs_len serialize_exprs
serialize_targets_of_del c range (cons target nil) = serialize_expr c target
serialize_targets_of_del c range targets =
    close c range
      do write_tag tag_tuple_expr; typed_list (exprs_len targets) (serialize_exprs c targets)

-- `ser.options.python_version() < (3, 14)`
abbrev pub before_3_14 : ℕ × ℕ → Bool
before_3_14 (major, minor) = ltb major 3 || (major == 3 && ltb minor 14)

abbrev pub is_unnamed : Option Identifier → Bool
is_unnamed none = true
is_unnamed (some _) = false

unfoldable pub check_handler_type : Context → Expr → Option Identifier → Action
unfolding skip add_error
check_handler_type c (tuple range _ _ parenthesized) n =
    if before_3_14 c.options.python_version && (not parenthesized && is_unnamed n)
    then add_error c (codes "multiple exception types must be parenthesized") range false
    else skip
check_handler_type c _ n = skip

unfoldable pub serialize_handler_type : Context → OptExpr → Option Identifier → Action
unfolding ◌>>◌ append write_bool serialize_expr check_handler_type
serialize_handler_type c (present type_expr) n = do
  append (write_bool true)
  serialize_expr c type_expr
  check_handler_type c type_expr n
serialize_handler_type c absent n = append (write_bool false)

unfoldable pub serialize_handler_types : Context → Handlers → Action
unfolding ◌>>◌ skip serialize_handler_type
serialize_handler_types c no_handlers = skip
serialize_handler_types c (except_handler _ type n _ rest) = do
  serialize_handler_type c type n
  serialize_handler_types c rest

unfoldable pub write_handler_name : Context → Option Identifier → Action
unfolding ◌>>◌ append write_bool write_text append_location skip
write_handler_name c (some n) = do
  append (write_bool true)
  write_text n.id
  (if leb cv_handler_locations c.options.cache_version then append_location c n.range else skip)
write_handler_name c none = append (write_bool false)

unfoldable pub write_handler_names : Context → Handlers → Action
unfolding ◌>>◌ skip write_handler_name
write_handler_names c no_handlers = skip
write_handler_names c (except_handler _ _ n _ rest) = do
  write_handler_name c n
  write_handler_names c rest

unfoldable pub handlers_len : Handlers → ℕ
handlers_len no_handlers = 0
handlers_len (except_handler _ _ _ _ rest) = suc (handlers_len rest)

-- A block that is left out if it is empty, given the action for the block.
unfoldable pub serialize_optional_block : Stmts → (block : Action) → Action
unfolding ◌>>◌ append write_bool
serialize_optional_block Stmts.nil block = append (write_bool false)
serialize_optional_block (Stmts.cons _ _) block = do append (write_bool true); block

-- The type parameters of a function or a class, and of a type alias.
unfoldable pub serialize_opt_type_params : Context → Option (List TypeParam) → Action
unfolding ◌>>◌ append write_bool write_int serialize_type_params
serialize_opt_type_params c (some ps) = do
  append (write_bool true)
  append (write_int (pos (length ps)))
  serialize_type_params c ps
serialize_opt_type_params c none = append (write_bool false)

unfoldable pub serialize_alias_type_params : Context → Option (List TypeParam) → Action
unfolding ◌>>◌ append write_int serialize_type_params
serialize_alias_type_params c (some ps) = do
  append (write_int (pos (length ps)))
  serialize_type_params c ps
serialize_alias_type_params c none = append (write_int (pos 0))
