-- ===== src/Ast/Pattern.antt =====
-- crates/ruff_python_ast/src/generated.rs: the patterns of `match` statements.
use ast_serialize.Common.{Option}
use ast_serialize.Ast.Expr.{TextRange, Identifier, Expr, Exprs}

pub data Singleton : Type 0 where
  none_singleton true_singleton false_singleton : Singleton

mutual
  pub data Pattern : Type 0 where
    match_value : TextRange → (value : Expr) → Pattern
    match_singleton : TextRange → (value : Singleton) → Pattern
    match_sequence : TextRange → (patterns : Patterns) → Pattern
    match_mapping :
        TextRange → (keys : Exprs) → (patterns : Patterns) → (rest : Option Identifier) → Pattern
    match_class :
        TextRange → (cls : Expr) → (patterns : Patterns) → (keywords : PatternKeywords) → Pattern
    match_star : TextRange → (name : Option Identifier) → Pattern
    match_as : TextRange → (pattern : OptPattern) → (name : Option Identifier) → Pattern
    match_or : TextRange → (patterns : Patterns) → Pattern

  pub data Patterns : Type 0 where
    nil : Patterns
    cons : Pattern → Patterns → Patterns

  pub data OptPattern : Type 0 where
    no_pattern : OptPattern
    some_pattern : Pattern → OptPattern

  pub data PatternKeywords : Type 0 where
    no_pattern_keywords : PatternKeywords
    pattern_keyword : (attr : Identifier) → Pattern → PatternKeywords → PatternKeywords
