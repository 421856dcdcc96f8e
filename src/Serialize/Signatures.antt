-- ===== src/Serialize/Signatures.antt =====
-- src/serialize_ast.rs, `serialize_type_params` and `find_func_type_comment`.
pub mod Lengths
use ast_serialize.Common.{
  ℕ, zero, suc, ◌+◌, Bool, true, false, ◌&&◌, List, [], ◌∷◌, ◌++◌, Option, none, some, ◌>>=◌, ltb,
  ◌==◌, if◌then◌else◌, Text, codes, length,
}
use ast_serialize.Common.Int.{pos}
use ast_serialize.Ast.Expr.{
  TextRange, Identifier, Expr, Exprs, nil, cons, OptExpr, absent, present, tuple, ellipsis_literal,
  Parameter, parameter, OptParameter, no_parameter, one_parameter, ParametersWithDefault, no_more,
  with_default, Parameters, parameters,
}
use ast_serialize.Ast.Stmt.{TypeParam, type_var, param_spec, type_var_tuple, Stmt, Stmts}
use ast_serialize.Ast.Ranges.{stmt_range}
use ast_serialize.Wire.{write_tagged_int, write_bool}
use ast_serialize.CommentLines.{ParsedTypeComment, regular, function, invalid}
use ast_serialize.Serialize.{
  Context, Serializer, Action, ◌>>◌, skip, panic, append, write_text, add_error, Token, TokenKind,
  colon, comment, other_kind,
}
use ast_serialize.Serialize.Tags.{type_var_kind, param_spec_kind, type_var_tuple_kind}
use ast_serialize.Serialize.Types.{exprs_len, typed_list}
use ast_serialize.Serialize.Types.Annotation.{serialize_type}
use ast_serialize.Serialize.Exprs.Arguments.{parameters_len, no_comments}

unfoldable pub serialize_each_type : Context → Exprs → Action
unfolding ◌>>◌ skip serialize_type
serialize_each_type c nil = skip
serialize_each_type c (cons e rest) = do serialize_type c e; serialize_each_type c rest

unfoldable pub serialize_opt_type : Context → OptExpr → Action
unfolding ◌>>◌ append write_bool serialize_type
serialize_opt_type c absent = append (write_bool false)
serialize_opt_type c (present e) = do append (write_bool true); serialize_type c e

-- The upper bound and the values of a type variable: a tuple is its values.
unfoldable pub serialize_bound : Context → OptExpr → Action
unfolding ◌>>◌ append write_bool skip typed_list exprs_len serialize_each_type serialize_type
serialize_bound c absent = do append (write_bool false); typed_list 0 skip
serialize_bound c (present (tuple _ elts _ _)) = do
  append (write_bool false)
  typed_list (exprs_len elts) (serialize_each_type c elts)
serialize_bound c (present bound) = do
  append (write_bool true)
  serialize_type c bound
  typed_list 0 skip

unfoldable pub serialize_type_param : Context → TypeParam → Action
unfolding ◌>>◌ append write_tagged_int write_text serialize_bound serialize_opt_type
serialize_type_param c (type_var n bound default) = do
  append (write_tagged_int (pos type_var_kind))
  write_text n.id
  serialize_bound c bound
  serialize_opt_type c default
serialize_type_param c (param_spec n default) = do
  append (write_tagged_int (pos param_spec_kind))
  write_text n.id
  serialize_bound c absent
  serialize_opt_type c default
serialize_type_param c (type_var_tuple n default) = do
  append (write_tagged_int (pos type_var_tuple_kind))
  write_text n.id
  serialize_bound c absent
  serialize_opt_type c default

unfoldable pub serialize_type_params : Context → List TypeParam → Action
unfolding ◌>>◌ skip serialize_type_param
serialize_type_params c [] = skip
serialize_type_params c (p ∷ ps) = do serialize_type_param c p; serialize_type_params c ps

-- What `find_func_type_comment` finds, and the errors that it adds, all at the function.
pub record FuncComment : Type 0 where
  pub arg_types : List (Option Expr)
  pub ret_type : Option Expr
  pub errors : List Text

-- `type_comments.get(&line)`
unfoldable pub comment_at : List (ℕ × ParsedTypeComment) → ℕ → Option ParsedTypeComment
comment_at [] line = none
comment_at ((l, found) ∷ rest) line = if l == line then some found else comment_at rest line

abbrev pub line_of : Context → ℕ → ℕ
line_of c offset = (c.source.line_index.line_column offset).0

abbrev pub all_some : List Expr → List (Option Expr)
all_some [] = []
all_some (e ∷ es) = some e ∷ all_some es

-- Whether the types are one `...`.
unfoldable pub is_ellipsis : List Expr → Bool
is_ellipsis (ellipsis_literal _ ∷ []) = true
is_ellipsis _ = false

-- A signature in a comment, for `n` parameters. In a class, `self` or `cls` may be missing.
unfoldable pub signature_comment : (in_class : Bool) → (n : ℕ) → List Expr → Expr → FuncComment
unfolding is_ellipsis no_comments
signature_comment in_class n args ret =
    if is_ellipsis args
    then record { arg_types = no_comments n; ret_type = some ret; errors = [] }
    else if length args == n
    then record { arg_types = all_some args; ret_type = some ret; errors = [] }
    else if in_class && suc (length args) == n
    then record { arg_types = none ∷ all_some args; ret_type = some ret; errors = [] }
    else record {
      arg_types = no_comments n;
      ret_type = some ret;
      errors =
          codes (
            if ltb n (length args)
            then "Type signature has too many parameters"
            else "Type signature has too few parameters")
          ∷ [];
    }

abbrev pub nothing_found : ℕ → FuncComment
nothing_found n = record { arg_types = no_comments n; ret_type = none; errors = [] }

-- What a token that is not the first tells, given the comment at its line and what the tokens before
-- it tell.
unfoldable pub read_token :
    (in_class : Bool)
    → (n : ℕ) → TokenKind
    → Option ParsedTypeComment
    → Option FuncComment
    → Option FuncComment
unfolding signature_comment no_comments
read_token in_class n colon found rest = some (nothing_found n)
read_token in_class n comment (some (function args ret)) rest =
    some (signature_comment in_class n args ret)
read_token in_class n comment (some (invalid error)) rest =
    some (record (nothing_found n) { errors = error ∷ [] })
read_token in_class n _ _ rest = rest

-- The loop over the tokens in front of the body, the last one first. The first token of the file ends
-- it unread.
unfoldable pub search_tokens :
    Context → (in_class : Bool) → (n : ℕ) → List Token → Option FuncComment
unfolding read_token comment_at no_comments
search_tokens c in_class n [] = none
search_tokens c in_class n (token ∷ []) = some (nothing_found n)
search_tokens c in_class n (token ∷ token' ∷ before) =
    read_token in_class n token.kind (comment_at c.type_comments (line_of c token.range.start))
      (search_tokens c in_class n (token' ∷ before))

abbrev pub param_start : Parameter → ℕ
param_start (parameter range _ _) = range.start

abbrev pub default_starts : ParametersWithDefault → List ℕ
default_starts no_more = []
default_starts (with_default param _ rest) = param_start param ∷ default_starts rest

abbrev pub opt_starts : OptParameter → List ℕ
opt_starts no_parameter = []
opt_starts (one_parameter param) = param_start param ∷ []

-- The starts of `parameters.iter()`.
unfoldable pub parameter_starts : Parameters → List ℕ
parameter_starts (parameters posonlyargs args vararg kwonlyargs kwarg) =
    default_starts posonlyargs
    ++ (default_starts args
        ++ (opt_starts vararg ++ (default_starts kwonlyargs ++ opt_starts kwarg)))

-- The type of one parameter, given the comment at its line.
abbrev pub own_comment : Option ParsedTypeComment → Option Expr → Option Expr × List Text
own_comment (some (regular e)) none = (some e, [])
own_comment (some (regular e)) (some t) =
    (some t, codes "Function has duplicate type signatures" ∷ [])
own_comment _ arg_type = (arg_type, [])

-- The loop over the parameters and their own comments.
unfoldable pub own_comments : Context → List ℕ → List (Option Expr) → List (Option Expr) × List Text
unfolding comment_at
own_comments c [] arg_types = (arg_types, [])
own_comments c (start ∷ starts) [] = ([], [])
own_comments c (start ∷ starts) (arg_type ∷ arg_types) =
    let (own, errors) = own_comment (comment_at c.type_comments (line_of c start)) arg_type in
    let (later, more) = own_comments c starts arg_types in (own ∷ later, errors ++ more)

unfoldable pub with_own_comments : Context → Parameters → FuncComment → FuncComment
unfolding own_comments parameter_starts
with_own_comments c params found =
    let (arg_types, errors) = own_comments c (parameter_starts params) found.arg_types in
    record { arg_types = arg_types; ret_type = found.ret_type; errors = found.errors ++ errors }

-- The tokens, the last one first.
unfoldable pub last_first : List Token → List Token → List Token
last_first [] seen = seen
last_first (token ∷ rest) seen = last_first rest (token ∷ seen)

unfoldable pub find_func_type_comment :
    Context → (in_class : Bool) → Parameters → Stmts → Option FuncComment
unfolding search_tokens with_own_comments last_first parameters_len no_comments
find_func_type_comment c in_class params Stmts.nil = some (nothing_found (parameters_len params))
find_func_type_comment c in_class params (Stmts.cons first_stmt _) = elim c.tokens_before [
  | none ↦ some (nothing_found (parameters_len params))
  | some before ↦ do
    found ←
        search_tokens c in_class (parameters_len params)
          (last_first (before (stmt_range first_stmt).start) [])
    some (with_own_comments c params found)
]

unfoldable pub add_errors : Context → List Text → TextRange → Action
unfolding ◌>>◌ skip add_error
add_errors c [] range = skip
add_errors c (message ∷ messages) range = do
  add_error c message range false
  add_errors c messages range
