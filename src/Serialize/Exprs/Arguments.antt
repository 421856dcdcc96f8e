-- ===== src/Serialize/Exprs/Arguments.antt =====
-- src/serialize_ast.rs, `serialize_argument` and `serialize_parameters`, without the default values,
-- which are expressions.
use ast_serialize.Common.{
  ℕ, zero, suc, ◌+◌, Bool, true, false, List, [], ◌∷◌, Option, none, some, codes, get_elem?,
}
use ast_serialize.Common.Int.{pos}
use ast_serialize.Ast.Expr.{
  TextRange, Identifier, Expr, OptExpr, absent, present, Parameter, parameter, OptParameter,
  no_parameter, one_parameter, ParametersWithDefault, no_more, with_default, Parameters, parameters,
}
use ast_serialize.Wire.{write_tagged_int, write_bool}
use ast_serialize.Serialize.{
  Context, Action, ◌>>◌, skip, panic, append, append_location, write_text, unevaluated, add_error,
}
use ast_serialize.Serialize.Types.Annotation.{serialize_type}

abbrev pub defaults_len : ParametersWithDefault → ℕ
defaults_len no_more = 0
defaults_len (with_default _ _ rest) = suc (defaults_len rest)

abbrev pub opt_len : OptParameter → ℕ
opt_len no_parameter = 0
opt_len (one_parameter _) = 1

-- `params.len()`, and the count of `serialize_parameters`.
unfoldable pub parameters_len : Parameters → ℕ
parameters_len (parameters posonlyargs args vararg kwonlyargs kwarg) =
    defaults_len posonlyargs
    + defaults_len args
    + opt_len vararg
    + defaults_len kwonlyargs
    + opt_len kwarg

-- The comments of a lambda: none for each parameter.
unfoldable pub no_comments : ℕ → List (Option Expr)
no_comments zero = []
no_comments (suc n) = none ∷ no_comments n

unfoldable pub duplicate_signature : Context → TextRange → OptExpr → Option Expr → Action
unfolding add_error skip
duplicate_signature c range (present _) (some _) =
    add_error c (codes "Function has duplicate type signatures") range false
duplicate_signature c range _ _ = skip

-- The annotation, or the type comment in its place, which is moved to `range`.
unfoldable pub serialize_annotation : Context → TextRange → OptExpr → Option Expr → Action
unfolding ◌>>◌ append write_bool serialize_type unevaluated
serialize_annotation c range (present annotation) type_comment = do
  append (write_bool true)
  serialize_type c annotation
serialize_annotation c range absent (some type_comment) = do
  append (write_bool true)
  unevaluated (serialize_type c (c.relocate_expr type_comment range))
serialize_annotation c range absent none = append (write_bool false)

abbrev pub kind_of : OptExpr → (no_default has_default : ℕ) → ℕ
kind_of absent no_default has_default = no_default
kind_of (present _) no_default has_default = has_default

-- `serialize_argument`, given the kind, and the action for the default value. An index that
-- `arg_comments` does not have is a panic.
unfoldable pub serialize_argument :
    Context
    → Parameter
    → Option (Option Expr)
    → (default : Action) → (kind : ℕ) → (pos_only : Bool) → Action
unfolding ◌>>◌ panic write_text append write_tagged_int duplicate_signature serialize_annotation
    write_bool append_location
serialize_argument c param none default kind pos_only = panic
serialize_argument c (parameter range n annotation) (some type_comment) default kind pos_only = do
  write_text n.id
  append (write_tagged_int (pos kind))
  duplicate_signature c range annotation type_comment
  serialize_annotation c range annotation type_comment
  default
  append (write_bool pos_only)
  append_location c range

abbrev pub parameter_id : Parameter → Identifier
parameter_id (parameter _ n _) = n

-- `*args` or `**kwargs`.
unfoldable pub serialize_variadic :
    Context → List (Option Expr) → (idx kind : ℕ) → OptParameter → Action
unfolding skip serialize_argument append write_bool
serialize_variadic c arg_comments idx kind no_parameter = skip
serialize_variadic c arg_comments idx kind (one_parameter param) =
    serialize_argument c param (get_elem? arg_comments idx) (append (write_bool false)) kind false
