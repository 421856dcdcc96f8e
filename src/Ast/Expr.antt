-- ===== src/Ast/Expr.antt =====
-- crates/ruff_python_ast/src/generated.rs and nodes.rs: the expressions that the parser hands over.
-- Every node has its source range first. A list or an option of nodes is a type of the block.
use ast_serialize.Common.{ℕ, Bool, List, [], ◌∷◌, Option, none, some, Text}

-- Byte offsets into the source, end excluded.
pub record TextRange : Type 0 where
  pub start : ℕ
  pub end : ℕ

pub record Identifier : Type 0 where
  pub id : Text
  pub range : TextRange

pub data BoolOp : Type 0 where
  and_op or_op : BoolOp

pub data UnaryOp : Type 0 where
  invert_op not_op u_add u_sub : UnaryOp

pub data CmpOp : Type 0 where
  eq not_eq lt lt_e gt gt_e is_op is_not in_op not_in : CmpOp

pub data Operator : Type 0 where
  add sub mult mat_mult div mod_op pow l_shift r_shift bit_or bit_xor bit_and floor_div : Operator

pub data ExprContext : Type 0 where
  load store del invalid : ExprContext

-- An integer literal of any size; a float is the pattern of its 64 bits.
pub data Number : Type 0 where
  int : ℕ → Number
  float : ℕ → Number
  complex : (real imag : ℕ) → Number

-- One part of an implicitly concatenated string.
pub record StringLiteral : Type 0 where
  pub value : Text
  pub range : TextRange

pub data ConversionFlag : Type 0 where
  no_conversion str_conversion ascii_conversion repr_conversion : ConversionFlag

-- The text of `{x = }` on both sides of the expression.
pub record DebugText : Type 0 where
  pub leading : Text
  pub trailing : Text

mutual
  pub data Expr : Type 0 where
    bool_op : TextRange → BoolOp → (values : Exprs) → Expr
    named : TextRange → (target value : Expr) → Expr
    bin_op : TextRange → (left : Expr) → Operator → (right : Expr) → Expr
    unary_op : TextRange → UnaryOp → (operand : Expr) → Expr
    lambda : TextRange → (parameters : OptParameters) → (body : Expr) → Expr
    if_expr : TextRange → (test body orelse : Expr) → Expr
    dict : TextRange → (items : DictItems) → Expr
    set_display : TextRange → (elts : Exprs) → Expr
    list_comp : TextRange → (elt : Expr) → (generators : Comprehensions) → Expr
    set_comp : TextRange → (elt : Expr) → (generators : Comprehensions) → Expr
    dict_comp : TextRange → (key : OptExpr) → (value : Expr) → (generators : Comprehensions) → Expr
    generator : TextRange → (elt : Expr) → (generators : Comprehensions) → Expr
    await : TextRange → (value : Expr) → Expr
    yield_expr : TextRange → (value : OptExpr) → Expr
    yield_from : TextRange → (value : Expr) → Expr
    compare : TextRange → (left : Expr) → (ops : List CmpOp) → (comparators : Exprs) → Expr
    call : TextRange → (func : Expr) → (args : Exprs) → (keywords : Keywords) → Expr
    f_string : TextRange → (value : FStringParts) → Expr
    t_string : TextRange → (value : TStrings) → Expr
    string_literal : TextRange → (value : List StringLiteral) → Expr
    bytes_literal : TextRange → (value : List (List ℕ)) → Expr
    number_literal : TextRange → (value : Number) → Expr
    boolean_literal : TextRange → (value : Bool) → Expr
    none_literal : TextRange → Expr
    ellipsis_literal : TextRange → Expr
    attribute : TextRange → (value : Expr) → (attr : Identifier) → ExprContext → Expr
    subscript : TextRange → (value slice : Expr) → ExprContext → Expr
    starred : TextRange → (value : Expr) → ExprContext → Expr
    name : TextRange → (id : Text) → ExprContext → Expr
    list_display : TextRange → (elts : Exprs) → ExprContext → Expr
    tuple : TextRange → (elts : Exprs) → ExprContext → (parenthesized : Bool) → Expr
    slice : TextRange → (lower upper step : OptExpr) → Expr
    ipy_escape_command : TextRange → Expr

  pub data Exprs : Type 0 where
    nil : Exprs
    cons : Expr → Exprs → Exprs

  pub data OptExpr : Type 0 where
    absent : OptExpr
    present : Expr → OptExpr

  pub data Comprehensions : Type 0 where
    no_comprehensions : Comprehensions
    comprehension :
        (target iter : Expr) → (ifs : Exprs) → (is_async : Bool) → Comprehensions → Comprehensions

  pub data DictItems : Type 0 where
    no_items : DictItems
    item : (key : OptExpr) → (value : Expr) → DictItems → DictItems

  -- `arg` is missing for `**kwargs`.
  pub data Keywords : Type 0 where
    no_keywords : Keywords
    keyword : (arg : Option Identifier) → (value : Expr) → Keywords → Keywords

  pub data Parameter : Type 0 where
    parameter : TextRange → Identifier → (annotation : OptExpr) → Parameter

  pub data OptParameter : Type 0 where
    no_parameter : OptParameter
    one_parameter : Parameter → OptParameter

  pub data ParametersWithDefault : Type 0 where
    no_more : ParametersWithDefault
    with_default : Parameter → (default : OptExpr) → ParametersWithDefault → ParametersWithDefault

  pub data Parameters : Type 0 where
    parameters :
        (posonlyargs args : ParametersWithDefault)
        → (vararg : OptParameter) → (kwonlyargs : ParametersWithDefault) → (kwarg : OptParameter)
        → Parameters

  pub data OptParameters : Type 0 where
    no_parameters : OptParameters
    some_parameters : Parameters → OptParameters

  pub data FStringParts : Type 0 where
    no_parts : FStringParts
    literal_part : StringLiteral → FStringParts → FStringParts
    f_string_part : Elements → FStringParts → FStringParts

  pub data TStrings : Type 0 where
    no_t_strings : TStrings
    t_string_part : Elements → TStrings → TStrings

  pub data Elements : Type 0 where
    no_elements : Elements
    literal_element : Text → TextRange → Elements → Elements
    interpolation :
        (expression : Expr)
        → Option DebugText
        → ConversionFlag
        → (format_spec : OptSpec) → Elements
        → Elements

  pub data OptSpec : Type 0 where
    no_spec : OptSpec
    some_spec : TextRange → Elements → OptSpec

abbrev pub to_list : Exprs → List Expr
to_list nil = []
to_list (cons e es) = e ∷ to_list es

abbrev pub to_option : OptExpr → Option Expr
to_option absent = none
to_option (present e) = some e
