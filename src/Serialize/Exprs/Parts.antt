-- ===== src/Serialize/Exprs/Parts.antt =====
-- What the branches for expressions write beside their sub-expressions, as actions that grow the
-- state.
use mathlib.Core.Path.{subst}
use ast_serialize.Common.{refl, ℕ, Bool, List, [], ◌∷◌, Option, none, some, Text}
use ast_serialize.Common.Int.{ℤ}
use ast_serialize.Ast.Expr.{
  TextRange, StringLiteral, DebugText, Number, int, float, complex, ConversionFlag, no_conversion,
  str_conversion, ascii_conversion, repr_conversion, Expr, Exprs, OptExpr, absent, present,
  Keywords, Comprehensions, Parameter, parameter, OptParameter, no_parameter, one_parameter,
}
use ast_serialize.Serialize.{Context, Action}
use ast_serialize.Serialize.Keeps.{Keeps, some-injective}
use ast_serialize.Serialize.Writes.{Writes, writes_rules}
use ast_serialize.Serialize.Grows.{Grows, grow, grows_rules, Begins-refl}
use ast_serialize.Serialize.Types.{close, typed_list}
use ast_serialize.Serialize.Types.Append.{serialize_type-Writes}
use ast_serialize.Serialize.Exprs.{write_call_kinds, write_call_names, serialize_generators}
use ast_serialize.Serialize.Exprs.Strings.{
  write_surrogates, write_literal_parts, write_string, write_piece, write_source, write_debug,
  write_conversion, use_template_strings,
}
use ast_serialize.Serialize.Exprs.Operators.{
  write_int_literal, write_float, write_number, write_name,
}
use ast_serialize.Serialize.Exprs.Arguments.{
  duplicate_signature, serialize_annotation, serialize_argument, serialize_variadic,
}

pub close-Grows :
    (c : Context) (range : TextRange) (a : Action) → Keeps Grows a → Keeps Grows (close c range a)
unfolding close
close-Grows c range a k = search grows_rules

pub typed_list-Grows : (n : ℕ) (a : Action) → Keeps Grows a → Keeps Grows (typed_list n a)
unfolding typed_list
typed_list-Grows n a k = search grows_rules depth 8

write_int_literal-Writes :
    (c : Context) (range : TextRange) (n : ℕ) (o : Option ℤ)
    → Keeps Writes (write_int_literal c range n o)
unfolding write_int_literal
write_int_literal-Writes c range n none = search writes_rules
write_int_literal-Writes c range n (some x) = search writes_rules

write_float-Writes : (bits : ℕ) → Keeps Writes (write_float bits)
unfolding write_float
write_float-Writes bits = search writes_rules

pub write_number-Writes :
    (c : Context) (range : TextRange) (value : Number) → Keeps Writes (write_number c range value)
unfolding write_number
write_number-Writes c range (int n) = search write_int_literal-Writes
write_number-Writes c range (float bits) = search (writes_rules, write_float-Writes)
write_number-Writes c range (complex real imag) = search (writes_rules, write_float-Writes)

pub write_name-Writes :
    (c : Context) (range : TextRange) (n : List ℕ) → Keeps Writes (write_name c range n)
unfolding write_name
write_name-Writes c range n = search writes_rules

pub write_surrogates-Writes : (c : Context) → Keeps Writes (write_surrogates c)
unfolding write_surrogates
write_surrogates-Writes c = search writes_rules

write_literal_parts-Grows :
    (c : Context) (parts : List StringLiteral) → Keeps Grows (write_literal_parts c parts)
unfolding write_literal_parts
write_literal_parts-Grows c [] = search grows_rules
write_literal_parts-Grows c (part ∷ parts) =
    let k = write_literal_parts-Grows c parts in search grows_rules depth 8

pub write_string-Grows :
    (c : Context) (parts : List StringLiteral) → Keeps Grows (write_string c parts)
unfolding write_string
write_string-Grows c parts =
    search (grows_rules, write_surrogates-Writes, write_literal_parts-Grows) depth 10

pub write_piece-Grows :
    (c : Context) (value : Text) (range : TextRange) → Keeps Grows (write_piece c value range)
unfolding write_piece
write_piece-Grows c value range = search grows_rules

pub write_call_kinds-Writes :
    (args : Exprs) (kws : Keywords) → Keeps Writes (write_call_kinds args kws)
unfolding write_call_kinds
write_call_kinds-Writes args kws = search writes_rules

pub write_call_names-Writes :
    (args : Exprs) (kws : Keywords) → Keeps Writes (write_call_names args kws)
unfolding write_call_names
write_call_names-Writes args kws = search writes_rules

pub serialize_generators-Grows :
    (generators : Comprehensions) (targets iters condlists : Action)
    → Keeps Grows targets
    → Keeps Grows iters
    → Keeps Grows condlists
    → Keeps Grows (serialize_generators generators targets iters condlists)
unfolding serialize_generators
serialize_generators-Grows generators targets iters condlists k l m = search grows_rules depth 10

pub write_source-Writes :
    (leading : Text) (o : Option (List ℕ)) (trailing : Text)
    → Keeps Writes (write_source leading o trailing)
unfolding write_source
write_source-Writes leading none trailing = search writes_rules
write_source-Writes leading (some text) trailing = search writes_rules

pub write_debug-Writes :
    (c : Context) (debug : Option DebugText) (range : TextRange)
    → Keeps Writes (write_debug c debug range)
unfolding write_debug
write_debug-Writes c none range = search writes_rules
write_debug-Writes c (some debug) range = search (writes_rules, write_source-Writes)

pub write_conversion-Writes :
    (prefix : Text) (flag : ConversionFlag) → Keeps Writes (write_conversion prefix flag)
unfolding write_conversion
write_conversion-Writes prefix no_conversion = search writes_rules
write_conversion-Writes prefix str_conversion = search writes_rules
write_conversion-Writes prefix ascii_conversion = search writes_rules
write_conversion-Writes prefix repr_conversion = search writes_rules

pub use_template_strings-Grows : Keeps Grows use_template_strings
unfolding use_template_strings
use_template_strings-Grows = record {
  at = λ s t h. subst (Grows s) (some-injective _ t h) (record {
    written = Begins-refl s.bytes;
    reported = Begins-refl s.extra_errors;
    templates = λ _. refl;
    context = refl;
  });
}

pub duplicate_signature-Grows :
    (c : Context) (range : TextRange) (annotation : OptExpr) (type_comment : Option Expr)
    → Keeps Grows (duplicate_signature c range annotation type_comment)
unfolding duplicate_signature
duplicate_signature-Grows c range (present _) (some _) = search grows_rules
duplicate_signature-Grows c range _ _ = search grows_rules

pub serialize_annotation-Writes :
    (c : Context) (range : TextRange) (annotation : OptExpr) (type_comment : Option Expr)
    → Keeps Writes (serialize_annotation c range annotation type_comment)
unfolding serialize_annotation
serialize_annotation-Writes c range (present annotation) type_comment =
    search (writes_rules, serialize_type-Writes)
serialize_annotation-Writes c range absent (some type_comment) =
    search (writes_rules, serialize_type-Writes)
serialize_annotation-Writes c range absent none = search writes_rules

pub serialize_argument-Grows :
    (c : Context) (param : Parameter) (type_comment : Option (Option Expr)) (default : Action)
    (kind : ℕ) (pos_only : Bool)
    → Keeps Grows default
    → Keeps Grows (serialize_argument c param type_comment default kind pos_only)
unfolding serialize_argument
serialize_argument-Grows c param none default kind pos_only k = search grows_rules
serialize_argument-Grows c (parameter range n annotation) (some type_comment) default kind pos_only
      k =
    search (grows_rules, duplicate_signature-Grows, serialize_annotation-Writes) depth 12

pub serialize_variadic-Grows :
    (c : Context) (arg_comments : List (Option Expr)) (idx kind : ℕ) (param : OptParameter)
    → Keeps Grows (serialize_variadic c arg_comments idx kind param)
unfolding serialize_variadic
serialize_variadic-Grows c arg_comments idx kind no_parameter = search grows_rules
serialize_variadic-Grows c arg_comments idx kind (one_parameter param) =
    search (grows_rules, serialize_argument-Grows)

pub ruleset expr_rules = (
  grows_rules, close-Grows, typed_list-Grows, write_number-Writes, write_name-Writes,
  write_surrogates-Writes, write_string-Grows, write_piece-Grows, write_call_kinds-Writes,
  write_call_names-Writes, serialize_generators-Grows, write_source-Writes, write_debug-Writes,
  write_conversion-Writes, use_template_strings-Grows, serialize_argument-Grows,
  serialize_variadic-Grows,
)
