-- ===== src/Serialize/Patterns.antt =====
-- src/serialize_ast.rs, `Ser` for `ast::Pattern`.
pub mod Grow
use ast_serialize.Common.{ℕ, suc, Bool, true, false, List, [], ◌∷◌, Option, none, some}
use ast_serialize.Common.Int.{pos}
use ast_serialize.Ast.Expr.{TextRange, Identifier, Expr, Exprs, nil, cons}
use ast_serialize.Ast.Pattern.{
  Singleton, none_singleton, true_singleton, false_singleton, Pattern, Patterns, OptPattern,
  no_pattern, some_pattern, PatternKeywords, no_pattern_keywords, pattern_keyword, match_value,
  match_singleton, match_sequence, match_mapping, match_class, match_star, match_as, match_or,
}
use ast_serialize.Wire.{write_tagged_int, write_bool, tag_literal_none}
use ast_serialize.Serialize.{
  Context, Action, ◌>>◌, skip, append, write_tag, append_location, write_text,
}
use ast_serialize.Serialize.StmtTags.{
  tag_as_pattern, tag_or_pattern, tag_value_pattern, tag_singleton_pattern, tag_sequence_pattern,
  tag_starred_pattern, tag_mapping_pattern, tag_class_pattern,
}
use ast_serialize.Serialize.Types.{exprs_len, close}
use ast_serialize.Serialize.Exprs.Nodes.{serialize_expr}

unfoldable pub patterns_len : Patterns → ℕ
patterns_len Patterns.nil = 0
patterns_len (Patterns.cons _ rest) = suc (patterns_len rest)

unfoldable pub pattern_keywords_len : PatternKeywords → ℕ
pattern_keywords_len no_pattern_keywords = 0
pattern_keywords_len (pattern_keyword _ _ rest) = suc (pattern_keywords_len rest)

-- A captured name that may be missing, with its location.
unfoldable pub write_capture : Context → Option Identifier → Action
unfolding ◌>>◌ append write_bool write_text append_location
write_capture c (some n) = do append (write_bool true); write_text n.id; append_location c n.range
write_capture c none = append (write_bool false)

unfoldable pub write_singleton : Singleton → Action
unfolding append write_bool write_tag
write_singleton true_singleton = append (write_bool true)
write_singleton false_singleton = append (write_bool false)
write_singleton none_singleton = write_tag tag_literal_none

module _ (c : Context) where
  unfoldable mutual
    unfolding ◌>>◌ skip append write_tag write_text append_location close exprs_len patterns_len
        pattern_keywords_len write_capture write_singleton serialize_expr

    pub serialize_pattern : Pattern → Action
    serialize_pattern (match_as range pattern n) =
        close c range do write_tag tag_as_pattern; serialize_opt_pattern pattern; write_capture c n
    serialize_pattern (match_or range patterns) = close c range do
      write_tag tag_or_pattern
      append (write_tagged_int (pos (patterns_len patterns)))
      serialize_patterns patterns
    serialize_pattern (match_value range value) =
        close c range do write_tag tag_value_pattern; serialize_expr c value
    serialize_pattern (match_singleton range value) =
        close c range do write_tag tag_singleton_pattern; write_singleton value
    serialize_pattern (match_sequence range patterns) = close c range do
      write_tag tag_sequence_pattern
      append (write_tagged_int (pos (patterns_len patterns)))
      serialize_patterns patterns
    serialize_pattern (match_star range n) =
        close c range do write_tag tag_starred_pattern; write_capture c n
    serialize_pattern (match_mapping range keys patterns rest) = close c range do
      write_tag tag_mapping_pattern
      append (write_tagged_int (pos (exprs_len keys)))
      serialize_pairs patterns keys
      write_capture c rest
    serialize_pattern (match_class range cls patterns kws) = close c range do
      write_tag tag_class_pattern
      serialize_expr c cls
      append (write_tagged_int (pos (patterns_len patterns)))
      serialize_patterns patterns
      append (write_tagged_int (pos (pattern_keywords_len kws)))
      serialize_pattern_keywords kws

    pub serialize_opt_pattern : OptPattern → Action
    serialize_opt_pattern (some_pattern pattern) = do
      append (write_bool true)
      serialize_pattern pattern
    serialize_opt_pattern no_pattern = append (write_bool false)

    pub serialize_patterns : Patterns → Action
    serialize_patterns Patterns.nil = skip
    serialize_patterns (Patterns.cons pattern rest) = do
      serialize_pattern pattern
      serialize_patterns rest

    -- `p.keys.iter().zip(&p.patterns)`
    pub serialize_pairs : Patterns → Exprs → Action
    serialize_pairs Patterns.nil keys = skip
    serialize_pairs (Patterns.cons pattern rest) nil = skip
    serialize_pairs (Patterns.cons pattern rest) (cons key keys) = do
      serialize_expr c key
      serialize_pattern pattern
      serialize_pairs rest keys

    pub serialize_pattern_keywords : PatternKeywords → Action
    serialize_pattern_keywords no_pattern_keywords = skip
    serialize_pattern_keywords (pattern_keyword attr pattern rest) = do
      write_text attr.id
      serialize_pattern pattern
      serialize_pattern_keywords rest
