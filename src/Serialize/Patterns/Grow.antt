-- ===== src/Serialize/Patterns/Grow.antt =====
-- The serialization of a pattern: the part of the state that it changes.
use ast_serialize.Common.{Option, none, some}
use ast_serialize.Ast.Expr.{Identifier, Exprs, nil, cons}
use ast_serialize.Ast.Pattern.{
  Singleton, none_singleton, true_singleton, false_singleton, Pattern, Patterns, OptPattern,
  no_pattern, some_pattern, PatternKeywords, no_pattern_keywords, pattern_keyword, match_value,
  match_singleton, match_sequence, match_mapping, match_class, match_star, match_as, match_or,
}
use ast_serialize.Serialize.{Context}
use ast_serialize.Serialize.Keeps.{Keeps}
use ast_serialize.Serialize.Writes.{Writes, writes_rules}
use ast_serialize.Serialize.Grows.{Grows}
use ast_serialize.Serialize.Exprs.Parts.{expr_rules}
use ast_serialize.Serialize.Exprs.Grow.{serialize_expr-Grows}
use ast_serialize.Serialize.Patterns.{
  write_capture, write_singleton, serialize_pattern, serialize_opt_pattern, serialize_patterns,
  serialize_pairs, serialize_pattern_keywords,
}

write_capture-Writes : (c : Context) (n : Option Identifier) → Keeps Writes (write_capture c n)
unfolding write_capture
write_capture-Writes c none = search writes_rules
write_capture-Writes c (some n) = search writes_rules

write_singleton-Writes : (value : Singleton) → Keeps Writes (write_singleton value)
unfolding write_singleton
write_singleton-Writes none_singleton = search writes_rules
write_singleton-Writes true_singleton = search writes_rules
write_singleton-Writes false_singleton = search writes_rules

ruleset pattern_rules =
    (expr_rules, serialize_expr-Grows, write_capture-Writes, write_singleton-Writes)

module _ (c : Context) where
  mutual
    unfolding serialize_pattern serialize_opt_pattern serialize_patterns serialize_pairs
        serialize_pattern_keywords

    -- The same for a pattern.
    pub serialize_pattern-Grows : (node : Pattern) → Keeps Grows (serialize_pattern c node)
    serialize_pattern-Grows (match_as range pattern n) =
        let h0 = serialize_opt_pattern-Grows pattern in search pattern_rules depth 20
    serialize_pattern-Grows (match_or range patterns) =
        let h0 = serialize_patterns-Grows patterns in search pattern_rules depth 20
    serialize_pattern-Grows (match_value range value) = search pattern_rules depth 20
    serialize_pattern-Grows (match_singleton range value) = search pattern_rules depth 20
    serialize_pattern-Grows (match_sequence range patterns) =
        let h0 = serialize_patterns-Grows patterns in search pattern_rules depth 20
    serialize_pattern-Grows (match_star range n) = search pattern_rules depth 20
    serialize_pattern-Grows (match_mapping range keys patterns rest) =
        let h0 = serialize_pairs-Grows patterns keys in search pattern_rules depth 20
    serialize_pattern-Grows (match_class range cls patterns kws) =
        let h0 = serialize_patterns-Grows patterns in
        let h1 = serialize_pattern_keywords-Grows kws in search pattern_rules depth 20

    pub serialize_opt_pattern-Grows :
        (node : OptPattern) → Keeps Grows (serialize_opt_pattern c node)
    serialize_opt_pattern-Grows (some_pattern pattern) =
        let h0 = serialize_pattern-Grows pattern in search pattern_rules depth 20
    serialize_opt_pattern-Grows no_pattern = search pattern_rules depth 20

    pub serialize_patterns-Grows : (node : Patterns) → Keeps Grows (serialize_patterns c node)
    serialize_patterns-Grows Patterns.nil = search pattern_rules depth 20
    serialize_patterns-Grows (Patterns.cons pattern rest) =
        let h0 = serialize_pattern-Grows pattern in
        let h1 = serialize_patterns-Grows rest in search pattern_rules depth 20

    pub serialize_pairs-Grows :
        (node : Patterns) (more : Exprs) → Keeps Grows (serialize_pairs c node more)
    serialize_pairs-Grows Patterns.nil keys = search pattern_rules depth 20
    serialize_pairs-Grows (Patterns.cons pattern rest) nil = search pattern_rules depth 20
    serialize_pairs-Grows (Patterns.cons pattern rest) (cons key keys) =
        let h0 = serialize_pattern-Grows pattern in
        let h1 = serialize_pairs-Grows rest keys in search pattern_rules depth 20

    pub serialize_pattern_keywords-Grows :
        (node : PatternKeywords) → Keeps Grows (serialize_pattern_keywords c node)
    serialize_pattern_keywords-Grows no_pattern_keywords = search pattern_rules depth 20
    serialize_pattern_keywords-Grows (pattern_keyword attr pattern rest) =
        let h0 = serialize_pattern-Grows pattern in
        let h1 = serialize_pattern_keywords-Grows rest in search pattern_rules depth 20
