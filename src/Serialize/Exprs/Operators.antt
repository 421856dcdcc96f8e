-- ===== src/Serialize/Exprs/Operators.antt =====
-- src/serialize_ast.rs, `Ser` for `ast::Expr`: operators, numbers and names.
use ast_serialize.Common.{ℕ, Bool, true, false, List, [], ◌∷◌, ◌++◌, Option, none, some, codes}
use ast_serialize.Common.Int.{ℤ, pos}
use ast_serialize.Ast.Expr.{
  TextRange, BoolOp, and_op, or_op, UnaryOp, invert_op, not_op, u_add, u_sub, CmpOp, eq, not_eq, lt,
  lt_e, gt, gt_e, is_op, is_not, in_op, not_in, Operator, add, sub, mult, mat_mult, div, mod_op,
  pow, l_shift, r_shift, bit_or, bit_xor, bit_and, floor_div, ExprContext, store, Number, int,
  float, complex,
}
use ast_serialize.Wire.{le_bytes, write_int, write_tagged_int, write_bytes}
use ast_serialize.Serialize.{Context, Action, ◌>>◌, append, write_tag, append_location}
use ast_serialize.Serialize.Tags.{
  tag_literal_float, tag_float_expr, tag_complex_expr, tag_int_expr, tag_big_int_expr,
  tag_tuple_expr, tag_list_expr, tag_name_expr,
}
use ast_serialize.Serialize.Names.{as_i64}

-- `e.op as i64`, the place of the operator in its enum.
abbrev pub operator_code : Operator → ℕ
operator_code add = 0
operator_code sub = 1
operator_code mult = 2
operator_code mat_mult = 3
operator_code div = 4
operator_code mod_op = 5
operator_code pow = 6
operator_code l_shift = 7
operator_code r_shift = 8
operator_code bit_or = 9
operator_code bit_xor = 10
operator_code bit_and = 11
operator_code floor_div = 12

abbrev pub unary_code : UnaryOp → ℕ
unary_code invert_op = 0
unary_code not_op = 1
unary_code u_add = 2
unary_code u_sub = 3

abbrev pub bool_code : BoolOp → ℕ
bool_code and_op = 0
bool_code or_op = 1

abbrev pub cmp_code : CmpOp → ℕ
cmp_code eq = 0
cmp_code not_eq = 1
cmp_code lt = 2
cmp_code lt_e = 3
cmp_code gt = 4
cmp_code gt_e = 5
cmp_code is_op = 6
cmp_code is_not = 7
cmp_code in_op = 8
cmp_code not_in = 9

unfoldable pub write_cmp_ops : List CmpOp → List ℕ
unfolding write_int
write_cmp_ops [] = []
write_cmp_ops (op ∷ ops) = write_int (pos (cmp_code op)) ++ write_cmp_ops ops

-- A list in a store context is written as a tuple.
abbrev pub list_tag : ExprContext → ℕ
list_tag store = tag_tuple_expr
list_tag _ = tag_list_expr

unfoldable pub write_int_literal : Context → TextRange → ℕ → Option ℤ → Action
unfolding ◌>>◌ write_tag append write_tagged_int write_bytes
write_int_literal c range n (some x) = do write_tag tag_int_expr; append (write_tagged_int x)
write_int_literal c range n none = do
  write_tag tag_big_int_expr
  append (write_bytes (c.int_to_string range n))

unfoldable pub write_float : ℕ → Action
unfolding ◌>>◌ write_tag append le_bytes
write_float bits = do write_tag tag_literal_float; append (le_bytes 8 bits)

unfoldable pub write_number : Context → TextRange → Number → Action
unfolding ◌>>◌ write_tag write_int_literal as_i64 write_float
write_number c range (int n) = write_int_literal c range n (as_i64 n)
write_number c range (float bits) = do write_tag tag_float_expr; write_float bits
write_number c range (complex real imag) = do
  write_tag tag_complex_expr
  write_float real
  write_float imag

unfoldable pub write_name : Context → TextRange → List ℕ → Action
unfolding ◌>>◌ write_tag append write_bytes append_location
write_name c range n = do write_tag tag_name_expr; append (write_bytes n); append_location c range

abbrev pub bool_name : Bool → List ℕ
bool_name true = codes "True"
bool_name false = codes "False"
