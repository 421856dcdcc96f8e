-- ===== src/Serialize/Names.antt =====
-- src/serialize_ast.rs: the small functions on names and literals that types and signatures use.
pub mod Literals
use ast_serialize.Common.{
  ℕ, zero, suc, ◌^◌, Bool, true, false, not, ◌&&◌, List, [], ◌∷◌, ◌++◌, Option, none, some, ◌>>=◌,
  ltb, ◌==◌, if◌then◌else◌, Text, codes, starts_with, text_eq, ◌||◌,
}
use ast_serialize.Common.Int.{ℤ, pos, negsuc}
use ast_serialize.Ast.Expr.{
  Identifier, Number, int, float, complex, UnaryOp, u_sub, Expr, OptExpr, absent, present, name,
  attribute, number_literal, unary_op, string_literal, DictItems, no_items, item,
}
use ast_serialize.Serialize.{utf8}

-- The name that is appended to, and whether `e` is a dotted name.
unfoldable pub get_qualified_type_name : List ℕ → Expr → List ℕ × Bool
unfolding utf8
get_qualified_type_name v (name _ id _) = (v ++ utf8 id, true)
get_qualified_type_name v (attribute _ value attr _) =
    let (w, is_name) = get_qualified_type_name v value in
    if is_name then (w ++ (codes "." ++ utf8 attr.id), true) else (w, false)
get_qualified_type_name v _ = (v, false)

-- `Int::as_i64`
unfoldable pub as_i64 : ℕ → Option ℤ
as_i64 n = if ltb n (2 ^ 63) then some (pos n) else none

-- `-v` of an i64, which wraps around at the least one.
unfoldable pub neg_i64 : ℤ → ℤ
neg_i64 (pos zero) = pos zero
neg_i64 (pos (suc n)) = negsuc n
neg_i64 (negsuc n) = if suc n == 2 ^ 63 then negsuc n else pos (suc n)

unfoldable pub extract_int_literal_value : Expr → Option ℤ
unfolding as_i64 neg_i64
extract_int_literal_value (number_literal _ (int n)) = as_i64 n
extract_int_literal_value (unary_op _ u_sub operand) = do
  v ← extract_int_literal_value operand
  some (neg_i64 v)
extract_int_literal_value _ = none

-- `name.ends_with(suffix)`
unfoldable pub ends_with : Text → Text → Bool
unfolding text_eq
ends_with [] suffix = text_eq [] suffix
ends_with (c ∷ s) suffix = text_eq (c ∷ s) suffix || ends_with s suffix

unfoldable pub argument_elide_name : Text → Bool
unfolding starts_with ends_with
argument_elide_name n = starts_with n (codes "__") && not (ends_with n (codes "__"))

unfoldable pub is_string_or_none : OptExpr → Bool
is_string_or_none absent = true
is_string_or_none (present (string_literal _ _)) = true
is_string_or_none (present _) = false

-- `!e.items.is_empty() && e.items.iter().all(…)`
unfoldable pub all_string_or_none : DictItems → Bool
unfolding is_string_or_none
all_string_or_none no_items = true
all_string_or_none (item key _ rest) = is_string_or_none key && all_string_or_none rest

unfoldable pub is_typed_dict : DictItems → Bool
unfolding all_string_or_none
is_typed_dict no_items = false
is_typed_dict (item key value rest) = all_string_or_none (item key value rest)
