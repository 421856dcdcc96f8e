-- ===== src/Reachability/Literals.antt =====
-- src/reachability.rs: the literals and the accesses to `sys` that a condition is made of.
use ast_serialize.Common.{
  ℕ, ◌^◌, Bool, false, ◌&&◌, ◌||◌, List, [], ◌∷◌, Option, none, some, ◌>>=◌, ltb, if◌then◌else◌,
  Text, codes, text_eq, ◌++◌,
}
use ast_serialize.Common.Int.{ℤ, pos}
use ast_serialize.Common.Order.{int_ord}
use ast_serialize.Ast.Expr.{
  Expr, Exprs, to_list, int, StringLiteral, number_literal, string_literal, tuple, list_display,
  set_display, attribute, name,
}

-- crates/ruff_python_ast/src/int.rs, `as_i32`
unfoldable pub as_i32 : ℕ → Option ℤ
as_i32 n = if ltb n (2 ^ 31) then some (pos n) else none

unfoldable pub expr_to_int : Expr → Option ℤ
unfolding as_i32
expr_to_int (number_literal _ (int n)) = as_i32 n
expr_to_int _ = none

pub data IntOrTuple : Type 0 where
  int_value : ℤ → IntOrTuple
  tuple_value : List ℤ → IntOrTuple

-- The loop over the elements, left at the first that is no small integer.
unfoldable pub ints_of : List Expr → Option (List ℤ)
unfolding expr_to_int
ints_of [] = some []
ints_of (item ∷ items) = do
  int_val ← expr_to_int item
  values ← ints_of items
  some (int_val ∷ values)

unfoldable pub tuple_of_ints : Expr → Option IntOrTuple
unfolding ints_of
tuple_of_ints (tuple _ elts _ _) = do values ← ints_of (to_list elts); some (tuple_value values)
tuple_of_ints _ = none

unfoldable pub contains_int_or_tuple_of_ints : Expr → Option IntOrTuple
unfolding expr_to_int tuple_of_ints
contains_int_or_tuple_of_ints e = elim (expr_to_int e) [
  | some int_val ↦ some (int_value int_val)
  | none ↦ tuple_of_ints e
]

-- `value.to_str()`: the parts of a string literal, joined.
unfoldable pub to_str : List StringLiteral → Text
to_str [] = []
to_str (part ∷ parts) = part.value ++ to_str parts

unfoldable pub string_of : Expr → Option Text
unfolding to_str
string_of (string_literal _ parts) = some (to_str parts)
string_of _ = none

-- The loop `contains |= item == value`, left with `None` at an item that is no string.
unfoldable pub items_contain : List Expr → Text → Bool → Option Bool
unfolding string_of text_eq
items_contain [] value contains = some contains
items_contain (item ∷ items) value contains = do
  s ← string_of item
  items_contain items value (contains || text_eq s value)

unfoldable pub container_items : Expr → Option Exprs
container_items (tuple _ elts _ _) = some elts
container_items (list_display _ elts _) = some elts
container_items (set_display _ elts) = some elts
container_items _ = none

unfoldable pub string_literal_container_contains : Expr → Text → Option Bool
unfolding items_contain container_items
string_literal_container_contains e value = do
  items ← container_items e
  items_contain (to_list items) value false

abbrev pub sys : Text
sys = codes "sys"

unfoldable pub is_name : Expr → Text → Bool
unfolding text_eq
is_name (name _ id _) wanted = text_eq id wanted
is_name _ wanted = false

unfoldable pub is_sys_attr : Expr → Text → Bool
unfolding is_name
is_sys_attr (attribute _ value attr _) wanted = text_eq attr.id wanted && is_name value sys
is_sys_attr _ wanted = false
