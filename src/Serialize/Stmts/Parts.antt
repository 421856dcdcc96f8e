-- ===== src/Serialize/Stmts/Parts.antt =====
-- What the branches for statements write beside the statements in them, as actions that extend the
-- state.
use ast_serialize.Common.{Bool, List, [], ◌∷◌, Option, none, some, Text}
use ast_serialize.Ast.Expr.{
  TextRange, Identifier, Expr, Exprs, nil, cons, OptExpr, absent, present, Keywords, no_keywords,
  keyword, tuple,
}
use ast_serialize.Ast.Stmt.{
  Handlers, no_handlers, except_handler, Decorator, TypeParam, type_var, param_spec, type_var_tuple,
  WithItem,
}
use ast_serialize.CommentLines.{ParsedTypeComment, regular, invalid}
use ast_serialize.Serialize.{Context}
use ast_serialize.Serialize.Keeps.{Keeps}
use ast_serialize.Serialize.Writes.{Writes, writes_rules}
use ast_serialize.Serialize.Grows.{Grows, grow, grows_rules}
use ast_serialize.Serialize.Types.Writes.{type_rules, typed_list-Writes, invalid_type-Writes}
use ast_serialize.Serialize.Types.Append.{serialize_type-Writes}
use ast_serialize.Serialize.Exprs.Parts.{expr_rules, close-Grows}
use ast_serialize.Serialize.Exprs.Grow.{
  serialize_expr-Grows, serialize_exprs-Grows, serialize_opt-Grows,
}
use ast_serialize.Serialize.Signatures.{
  serialize_each_type, serialize_opt_type, serialize_bound, serialize_type_param,
  serialize_type_params, add_errors, FuncComment,
}
use ast_serialize.Serialize.Stmts.{
  serialize_assign_type, serialize_value_or_temp, serialize_items, write_identifiers,
  serialize_targets_of_del, check_handler_type, serialize_handler_type, serialize_handler_types,
  write_handler_name, write_handler_names, serialize_opt_type_params, serialize_alias_type_params,
}
use ast_serialize.Serialize.Stmts.Definitions.{
  serialize_decorators, serialize_decorator_head, write_def_location, write_comment_flag,
  serialize_named, write_class_location,
}

serialize_each_type-Writes : (c : Context) (es : Exprs) → Keeps Writes (serialize_each_type c es)
unfolding serialize_each_type
serialize_each_type-Writes c nil = search writes_rules
serialize_each_type-Writes c (cons e rest) =
    let k = serialize_each_type-Writes c rest in search (writes_rules, serialize_type-Writes)

serialize_opt_type-Writes : (c : Context) (e : OptExpr) → Keeps Writes (serialize_opt_type c e)
unfolding serialize_opt_type
serialize_opt_type-Writes c absent = search writes_rules
serialize_opt_type-Writes c (present e) = search (writes_rules, serialize_type-Writes)

serialize_bound-Writes : (c : Context) (e : OptExpr) → Keeps Writes (serialize_bound c e)
unfolding serialize_bound
serialize_bound-Writes c (present (tuple _ _ _ _)) =
    search (type_rules, typed_list-Writes, serialize_each_type-Writes)
serialize_bound-Writes c _ = search (type_rules, typed_list-Writes, serialize_type-Writes) depth 8

serialize_type_param-Writes :
    (c : Context) (p : TypeParam) → Keeps Writes (serialize_type_param c p)
unfolding serialize_type_param
serialize_type_param-Writes c (type_var _ _ _) =
    search (writes_rules, serialize_bound-Writes, serialize_opt_type-Writes) depth 8
serialize_type_param-Writes c (param_spec _ _) =
    search (writes_rules, serialize_bound-Writes, serialize_opt_type-Writes) depth 8
serialize_type_param-Writes c (type_var_tuple _ _) =
    search (writes_rules, serialize_bound-Writes, serialize_opt_type-Writes) depth 8

serialize_type_params-Writes :
    (c : Context) (ps : List TypeParam) → Keeps Writes (serialize_type_params c ps)
unfolding serialize_type_params
serialize_type_params-Writes c [] = search writes_rules
serialize_type_params-Writes c (p ∷ ps) =
    let k = serialize_type_params-Writes c ps in search (writes_rules, serialize_type_param-Writes)

pub add_errors-Grows :
    (c : Context) (messages : List Text) (range : TextRange)
    → Keeps Grows (add_errors c messages range)
unfolding add_errors
add_errors-Grows c [] range = search grows_rules
add_errors-Grows c (message ∷ messages) range =
    let k = add_errors-Grows c messages range in search grows_rules

pub serialize_assign_type-Grows :
    (c : Context) (range : TextRange) (found : Option ParsedTypeComment)
    → Keeps Grows (serialize_assign_type c range found)
unfolding serialize_assign_type
serialize_assign_type-Grows c range (some (regular e)) =
    search (writes_rules, grow, serialize_type-Writes)
serialize_assign_type-Grows c range (some (invalid error)) =
    search (grows_rules, close-Grows, invalid_type-Writes)
serialize_assign_type-Grows c range _ = search grows_rules

pub serialize_value_or_temp-Grows :
    (c : Context) (value : OptExpr) → Keeps Grows (serialize_value_or_temp c value)
unfolding serialize_value_or_temp
serialize_value_or_temp-Grows c absent = search grows_rules
serialize_value_or_temp-Grows c (present value) = serialize_expr-Grows c value

pub serialize_items-Grows :
    (c : Context) (items : List WithItem) → Keeps Grows (serialize_items c items)
unfolding serialize_items
serialize_items-Grows c [] = search grows_rules
serialize_items-Grows c (i ∷ items) =
    let k = serialize_items-Grows c items in
    search (grows_rules, serialize_expr-Grows, serialize_opt-Grows)

pub write_identifiers-Writes : (ns : List Identifier) → Keeps Writes (write_identifiers ns)
unfolding write_identifiers
write_identifiers-Writes [] = search writes_rules
write_identifiers-Writes (n ∷ ns) = let k = write_identifiers-Writes ns in search writes_rules

pub serialize_targets_of_del-Grows :
    (c : Context) (range : TextRange) (targets : Exprs)
    → Keeps Grows (serialize_targets_of_del c range targets)
unfolding serialize_targets_of_del
serialize_targets_of_del-Grows c range nil = search (expr_rules, serialize_exprs-Grows) depth 8
serialize_targets_of_del-Grows c range (cons target nil) = serialize_expr-Grows c target
serialize_targets_of_del-Grows c range (cons _ (cons _ _)) =
    search (expr_rules, serialize_exprs-Grows) depth 8

check_handler_type-Grows :
    (c : Context) (e : Expr) (n : Option Identifier) → Keeps Grows (check_handler_type c e n)
unfolding check_handler_type
check_handler_type-Grows c (tuple _ _ _ _) n = search grows_rules
check_handler_type-Grows c _ n = search grows_rules

serialize_handler_type-Grows :
    (c : Context) (e : OptExpr) (n : Option Identifier) → Keeps Grows (serialize_handler_type c e n)
unfolding serialize_handler_type
serialize_handler_type-Grows c absent n = search grows_rules
serialize_handler_type-Grows c (present e) n =
    search (grows_rules, serialize_expr-Grows, check_handler_type-Grows)

pub serialize_handler_types-Grows :
    (c : Context) (handlers : Handlers) → Keeps Grows (serialize_handler_types c handlers)
unfolding serialize_handler_types
serialize_handler_types-Grows c no_handlers = search grows_rules
serialize_handler_types-Grows c (except_handler _ _ _ _ rest) =
    let k = serialize_handler_types-Grows c rest in
    search (grows_rules, serialize_handler_type-Grows)

write_handler_name-Writes :
    (c : Context) (n : Option Identifier) → Keeps Writes (write_handler_name c n)
unfolding write_handler_name
write_handler_name-Writes c none = search writes_rules
write_handler_name-Writes c (some n) = search writes_rules

pub write_handler_names-Writes :
    (c : Context) (handlers : Handlers) → Keeps Writes (write_handler_names c handlers)
unfolding write_handler_names
write_handler_names-Writes c no_handlers = search writes_rules
write_handler_names-Writes c (except_handler _ _ _ _ rest) =
    let k = write_handler_names-Writes c rest in search (writes_rules, write_handler_name-Writes)

pub serialize_opt_type_params-Writes :
    (c : Context) (o : Option (List TypeParam)) → Keeps Writes (serialize_opt_type_params c o)
unfolding serialize_opt_type_params
serialize_opt_type_params-Writes c none = search writes_rules
serialize_opt_type_params-Writes c (some ps) = search (writes_rules, serialize_type_params-Writes)

pub serialize_alias_type_params-Writes :
    (c : Context) (o : Option (List TypeParam)) → Keeps Writes (serialize_alias_type_params c o)
unfolding serialize_alias_type_params
serialize_alias_type_params-Writes c none = search writes_rules
serialize_alias_type_params-Writes c (some ps) = search (writes_rules, serialize_type_params-Writes)

pub serialize_decorators-Grows :
    (c : Context) (ds : List Decorator) → Keeps Grows (serialize_decorators c ds)
unfolding serialize_decorators
serialize_decorators-Grows c [] = search grows_rules
serialize_decorators-Grows c (d ∷ ds) =
    let k = serialize_decorators-Grows c ds in search (grows_rules, serialize_expr-Grows)

pub serialize_decorator_head-Grows :
    (c : Context) (ds : List Decorator) → Keeps Grows (serialize_decorator_head c ds)
unfolding serialize_decorator_head
serialize_decorator_head-Grows c [] = search grows_rules
serialize_decorator_head-Grows c (d ∷ ds) =
    search (grows_rules, serialize_decorators-Grows) depth 10

pub write_def_location-Writes :
    (c : Context) (ds : List Decorator) (range : TextRange) (is_async : Bool) (n : Identifier)
    → Keeps Writes (write_def_location c ds range is_async n)
unfolding write_def_location
write_def_location-Writes c [] range is_async n = search writes_rules
write_def_location-Writes c (d ∷ ds) range is_async n = search writes_rules

pub write_comment_flag-Writes :
    (c : Context) (found : FuncComment) → Keeps Writes (write_comment_flag c found)
unfolding write_comment_flag
write_comment_flag-Writes c found = search writes_rules

pub serialize_named-Grows : (c : Context) (kws : Keywords) → Keeps Grows (serialize_named c kws)
unfolding serialize_named
serialize_named-Grows c no_keywords = search grows_rules
serialize_named-Grows c (keyword none _ rest) = serialize_named-Grows c rest
serialize_named-Grows c (keyword (some _) _ rest) =
    let k = serialize_named-Grows c rest in search (grows_rules, serialize_expr-Grows)

pub write_class_location-Writes :
    (c : Context) (ds : List Decorator) (range : TextRange) (n : Identifier)
    → Keeps Writes (write_class_location c ds range n)
unfolding write_class_location
write_class_location-Writes c [] range n = search writes_rules
write_class_location-Writes c (d ∷ ds) range n = search writes_rules
