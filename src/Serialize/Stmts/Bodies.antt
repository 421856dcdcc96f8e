-- ===== src/Serialize/Stmts/Bodies.antt =====
-- Blocks, branches, functions and classes, as actions that extend the state if the statements in them
-- do.
use ast_serialize.Common.{ℕ, Bool, List, Option, none, some}
use ast_serialize.Ast.Expr.{TextRange, Identifier, OptExpr, Parameters}
use ast_serialize.Ast.Stmt.{Stmts, nil, cons, Clauses, Decorator, Arguments, TypeParam}
use ast_serialize.Branches.{Flags, IfFlags}
use ast_serialize.Serialize.{Context, Action, ◌>>◌, skip, append, write_end_tag, append_location}
use ast_serialize.Serialize.Keeps.{Keeps, Keeps-panic, Keeps-then, Keeps-reading, Keeps-if}
use ast_serialize.Serialize.Writes.{
  append-Writes, write_tag-Writes, write_text-Writes, append_location-Writes,
}
use ast_serialize.Serialize.Grows.{Grows, grow, grows_rules}
use ast_serialize.Serialize.Extends.{
  Extends, Extends-IsPreorder, extend, skip_lines-Extends, set_top_level_getattr-Extends,
}
use ast_serialize.Serialize.Surroundings.{
  with_branch_flags-Extends, within_class-Extends, within_function-Extends,
}
use ast_serialize.Serialize.Types.{close}
use ast_serialize.Serialize.Exprs.Parts.{
  typed_list-Grows, duplicate_signature-Grows, serialize_annotation-Writes,
}
use ast_serialize.Serialize.Exprs.Grow.{serialize_exprs-Grows, serialize_parameters-Grows}
use ast_serialize.Serialize.Signatures.{FuncComment}
use ast_serialize.Serialize.Blocks.{
  skip_unreachable, write_fallback, serialize_block, serialize_empty_block,
  serialize_synthetic_else, serialize_if_stmt,
}
use ast_serialize.Serialize.Stmts.{serialize_optional_block}
use ast_serialize.Serialize.Stmts.Definitions.{
  note_getattr, serialize_function_body, serialize_function, serialize_class,
}
use ast_serialize.Serialize.Stmts.Nodes.{with_found, serialize_match}
use ast_serialize.Serialize.Stmts.Parts.{
  add_errors-Grows, serialize_decorators-Grows, serialize_decorator_head-Grows,
  serialize_opt_type_params-Writes, write_def_location-Writes, write_comment_flag-Writes,
  serialize_named-Grows, write_class_location-Writes,
}

pub skip_unreachable-Extends :
    (c : Context) (block : Stmts) (b : Bool) → Keeps Extends (skip_unreachable c block b)
unfolding skip_unreachable
skip_unreachable-Extends c nil b = search (extend, grows_rules)
skip_unreachable-Extends c (cons s rest) b = search (extend, grows_rules, skip_lines-Extends)

pub write_fallback-Grows :
    (c : Context) (block : Stmts) (fallback : Option TextRange)
    → Keeps Grows (write_fallback c block fallback)
unfolding write_fallback
write_fallback-Grows c nil (some range) = search grows_rules
write_fallback-Grows c nil none = search grows_rules
write_fallback-Grows c (cons _ _) fallback = search grows_rules

pub then-Grows : (a b : Action) → Keeps Grows a → Keeps Extends b → Keeps Extends (a >> b)
then-Grows a b k l = Keeps-then a b Extends-IsPreorder (extend a k) l

pub then-Extends : (a b : Action) → Keeps Extends a → Keeps Extends b → Keeps Extends (a >> b)
then-Extends a b k l = Keeps-then a b Extends-IsPreorder k l

pub append-Extends : (written : List ℕ) → Keeps Extends (append written)
append-Extends written = extend _ (search grows_rules)

pub write_end_tag-Extends : Keeps Extends write_end_tag
write_end_tag-Extends = extend _ (search grows_rules)

pub append_location-Extends :
    (c : Context) (range : TextRange) → Keeps Extends (append_location c range)
append_location-Extends c range = extend _ (search grows_rules)

pub skip-Extends : Keeps Extends skip
skip-Extends = extend _ (search grows_rules)

-- The steps of a statement: those that an expression could take come first.
pub ruleset body_rules = (
  then-Grows, then-Extends, write_end_tag-Extends, skip-Extends, Keeps-reading, Keeps-if, grow,
  append-Writes, write_tag-Writes, write_text-Writes, append_location-Writes, write_fallback-Grows,
  skip_unreachable-Extends,
)

pub serialize_block-Extends :
    (c : Context) (block : Stmts) (fallback : Option TextRange) (stmts : Action)
    → Keeps Extends stmts
    → Keeps Extends (serialize_block c block fallback stmts)
unfolding serialize_block
serialize_block-Extends c block fallback stmts k = search body_rules depth 14

pub serialize_empty_block-Extends :
    (c : Context) (range : TextRange) → Keeps Extends (serialize_empty_block c range)
unfolding serialize_empty_block
serialize_empty_block-Extends c range = search (extend, grows_rules) depth 14

serialize_synthetic_else-Extends :
    (c : Context) (range : TextRange) (o : Option Flags)
    → Keeps Extends (serialize_synthetic_else c range o)
unfolding serialize_synthetic_else
serialize_synthetic_else-Extends c range none = search (extend, grows_rules)
serialize_synthetic_else-Extends c range (some flags) =
    search (body_rules, append-Extends, with_branch_flags-Extends, serialize_empty_block-Extends)
      depth 8

pub serialize_if_stmt-Extends :
    (c : Context) (range : TextRange) (branches : Clauses) (o : Option IfFlags) (test body : Action)
    (rest : List Flags → Action)
    → Keeps Extends test
    → Keeps Extends body
    → ((flags : List Flags) → Keeps Extends (rest flags))
    → Keeps Extends (serialize_if_stmt c range branches o test body rest)
unfolding serialize_if_stmt
serialize_if_stmt-Extends c range branches none test body rest k l m = Keeps-panic
serialize_if_stmt-Extends c range branches (some flags) test body rest k l m =
    search
      (
        body_rules, append_location-Extends, with_branch_flags-Extends,
        serialize_synthetic_else-Extends, m,
      )
      depth 14

pub close-Extends :
    (c : Context) (range : TextRange) (a : Action)
    → Keeps Extends a
    → Keeps Extends (close c range a)
unfolding close
close-Extends c range a k = search body_rules depth 8

pub serialize_optional_block-Extends :
    (block : Stmts) (a : Action)
    → Keeps Extends a
    → Keeps Extends (serialize_optional_block block a)
unfolding serialize_optional_block
serialize_optional_block-Extends nil a k = search append-Extends
serialize_optional_block-Extends (cons _ _) a k = search body_rules

note_getattr-Extends : (n : Identifier) → Keeps Extends (note_getattr n)
unfolding note_getattr
note_getattr-Extends n = search (body_rules, set_top_level_getattr-Extends)

serialize_function_body-Extends :
    (c : Context) (range : TextRange) (params : Parameters) (body : Stmts) (stmts : Action)
    → Keeps Extends stmts
    → Keeps Extends (serialize_function_body c range params body stmts)
unfolding serialize_function_body
serialize_function_body-Extends c range params body stmts k =
    search
      (body_rules, within_function-Extends, serialize_block-Extends, serialize_empty_block-Extends)
      depth 8

pub serialize_function-Extends :
    (c : Context) (range : TextRange) (is_async : Bool) (decorators : List Decorator)
    (n : Identifier) (type_params : Option (List TypeParam)) (params : Parameters)
    (returns : OptExpr) (body : Stmts) (found : FuncComment) (stmts : Action)
    → Keeps Extends stmts
    → Keeps Extends (
        serialize_function c range is_async decorators n type_params params returns body found
          stmts)
unfolding serialize_function
serialize_function-Extends c range is_async decorators n type_params params returns body found stmts
      k =
    search
      (
        body_rules, note_getattr-Extends, serialize_function_body-Extends, add_errors-Grows,
        serialize_decorator_head-Grows, serialize_parameters-Grows,
        serialize_opt_type_params-Writes, duplicate_signature-Grows, serialize_annotation-Writes,
        write_comment_flag-Writes, write_def_location-Writes,
      )
      depth 20

pub serialize_class-Extends :
    (c : Context) (range : TextRange) (decorators : List Decorator) (n : Identifier)
    (type_params : Option (List TypeParam)) (arguments : Option Arguments) (body : Stmts)
    (stmts : Action)
    → Keeps Extends stmts
    → Keeps Extends (serialize_class c range decorators n type_params arguments body stmts)
unfolding serialize_class
serialize_class-Extends c range decorators n type_params arguments body stmts k =
    search
      (
        body_rules, within_class-Extends, serialize_block-Extends, typed_list-Grows,
        serialize_exprs-Grows, serialize_decorators-Grows, serialize_opt_type_params-Writes,
        serialize_named-Grows, write_class_location-Writes,
      )
      depth 20

pub with_found-Extends :
    (o : Option FuncComment) (f : FuncComment → Action)
    → ((found : FuncComment) → Keeps Extends (f found))
    → Keeps Extends (with_found o f)
unfolding with_found
with_found-Extends none f k = Keeps-panic
with_found-Extends (some found) f k = k found

pub serialize_match-Extends :
    (c : Context) (range : TextRange) (n : ℕ) (o : Option (List Flags)) (subject : Action)
    (cases : List Flags → Action)
    → Keeps Grows subject
    → ((flags : List Flags) → Keeps Extends (cases flags))
    → Keeps Extends (serialize_match c range n o subject cases)
unfolding serialize_match
serialize_match-Extends c range n none subject cases k l = Keeps-panic
serialize_match-Extends c range n (some flags) subject cases k l = search (body_rules, l) depth 10
