-- ===== src/Serialize/Types/Fuel.antt =====
-- How deep quoted types stand inside one another, and that the fuel of `string_type` is enough.
use ast_serialize.Common.{
  ℕ, zero, suc, ◌<◌, ◌≡◌, refl, ap, ◌∙◌, Option, none, some, Text, length, arith,
}
use ast_serialize.Ast.Expr.{
  TextRange, bit_or, Expr, Exprs, nil, cons, DictItems, no_items, item, Keywords, no_keywords,
  keyword, subscript, bin_op, list_display, tuple, dict, call, starred, string_literal, unary_op,
  u_add, u_sub,
}
use ast_serialize.Serialize.{Context, Action, ◌>>◌, unevaluated, utf8}
use ast_serialize.Serialize.Types.{
  close, serialize_union_type, serialize_dict_type, slice_many, slice_one, exprs_len, string_value,
  list_type, tuple_type, unpack_type, call_type, identifier_bytes, keywords_len,
}
use ast_serialize.Serialize.Types.Unbound.{serialize_subscript_type, write_optional}
use ast_serialize.Serialize.Types.Annotation.{
  serialize_type_by, serialize_types, serialize_value_types, serialize_keyword_types,
  serialize_types_in_list, serialize_slice, serialize_parsed, string_type, serialize_string_type,
  wrapped, builtins_str,
}

-- Every string literal of `e` that can be read as a type is shorter than `n`.
unfoldable mutual
  pub Shorter : ℕ → Expr → Type 0
  Shorter n (string_literal _ parts) = length (string_value parts) < n
  Shorter n (subscript _ _ index _) = Shorter n index
  Shorter n (bin_op _ left _ right) = Shorter n left × Shorter n right
  Shorter n (list_display _ elts _) = AllShorter n elts
  Shorter n (tuple _ elts _ _) = AllShorter n elts
  Shorter n (dict _ items) = ItemsShorter n items
  Shorter n (call _ func args keywords) =
      Shorter n func × AllShorter n args × KeywordsShorter n keywords
  Shorter n (starred _ value _) = Shorter n value
  Shorter n _ = Unit

  pub AllShorter : ℕ → Exprs → Type 0
  AllShorter n nil = Unit
  AllShorter n (cons e rest) = Shorter n e × AllShorter n rest

  pub ItemsShorter : ℕ → DictItems → Type 0
  ItemsShorter n no_items = Unit
  ItemsShorter n (item _ value rest) = Shorter n value × ItemsShorter n rest

  pub KeywordsShorter : ℕ → Keywords → Type 0
  KeywordsShorter n no_keywords = Unit
  KeywordsShorter n (keyword _ value rest) = Shorter n value × KeywordsShorter n rest

ap_two : {A B C : Type 0} (f : A → B → C) {a a' : A} {b b' : B} → a ≡ a' → b ≡ b' → f a b ≡ f a' b'
ap_two f {a' = a'} {b = b} p q = ap (λ x. f x b) p ∙ ap (f a') q

-- Two ways to write a quoted type that agree on the texts shorter than `n`.
module _ (c : Context) (n : ℕ) (f g : Text → TextRange → Action)
    (agree : (t : Text) (r : TextRange) → length t < n → f t r ≡ g t r) where
  mutual
    unfolding serialize_type_by serialize_types serialize_value_types serialize_keyword_types
        serialize_types_in_list Shorter AllShorter ItemsShorter KeywordsShorter

    type-agree : (e : Expr) → Shorter n e → serialize_type_by c f e ≡ serialize_type_by c g e
    type-agree (string_literal range parts) h = ap unevaluated (agree (string_value parts) range h)
    type-agree (subscript range value (tuple _ elts _ _) _) h =
        ap
          (λ a.
            close c range
              (serialize_subscript_type c value (slice_many (exprs_len elts) a) none none))
          (types-agree elts h)
    type-agree (subscript range value index _) h =
        ap (λ a. close c range (serialize_subscript_type c value (slice_one a) none none))
          (type-agree index h)
    type-agree (bin_op range left bit_or right) h =
        ap_two (λ a b. serialize_union_type c a b range none none) (type-agree left h.0)
          (type-agree right h.1)
    type-agree (list_display range elts _) h =
        ap (λ a. close c range (list_type (exprs_len elts) a)) (in_list-agree elts h)
    type-agree (tuple range elts _ _) h =
        ap (λ a. close c range (tuple_type (exprs_len elts) a)) (types-agree elts h)
    type-agree (dict range items) h =
        ap (λ a. close c range (serialize_dict_type c items a)) (values-agree items h)
    type-agree (starred range value _) h =
        ap (λ a. close c range (unpack_type a)) (type-agree value h)
    type-agree (unary_op _ u_sub _) h = refl
    type-agree (unary_op _ u_add _) h = refl
    type-agree _ h = refl

    types-agree : (es : Exprs) → AllShorter n es → serialize_types c f es ≡ serialize_types c g es
    types-agree nil h = refl
    types-agree (cons e rest) h = ap_two ◌>>◌ (type-agree e h.0) (types-agree rest h.1)

    values-agree :
        (items : DictItems)
        → ItemsShorter n items
        → serialize_value_types c f items ≡ serialize_value_types c g items
    values-agree no_items h = refl
    values-agree (item _ value rest) h = ap_two ◌>>◌ (type-agree value h.0) (values-agree rest h.1)

    keywords-agree :
        (kws : Keywords)
        → KeywordsShorter n kws
        → serialize_keyword_types c f kws ≡ serialize_keyword_types c g kws
    keywords-agree no_keywords h = refl
    keywords-agree (keyword arg value rest) h =
        ap_two (λ a b. write_optional (identifier_bytes arg) >> (a >> b)) (type-agree value h.0)
          (keywords-agree rest h.1)

    in_list-agree :
        (es : Exprs)
        → AllShorter n es
        → serialize_types_in_list c f es ≡ serialize_types_in_list c g es
    in_list-agree nil h = refl
    in_list-agree (cons (call range func args keywords) rest) h =
        ap_two (λ a b. close c range a >> b)
          (ap_two (λ a b. a b) (ap_two call (type-agree func h.0.0) (types-agree args h.0.1))
            (keywords-agree keywords h.0.2))
          (in_list-agree rest h.1)
      where
        call : Action → Action → Action → Action
        call f a = call_type f (exprs_len args) a (keywords_len keywords)
    in_list-agree (cons e rest) h = ap_two ◌>>◌ (type-agree e h.0) (in_list-agree rest h.1)

  slice-agree : (e : Expr) → Shorter n e → serialize_slice c f e ≡ serialize_slice c g e
  unfolding serialize_slice Shorter
  slice-agree (tuple _ elts _ _) h = ap (slice_many (exprs_len elts)) (types-agree elts h)
  slice-agree e h = ap slice_one (type-agree e h)

  parsed-agree :
      (value : Text) (range : TextRange) (parsed : Option Expr)
      → ((e : Expr) → parsed ≡ some e → Shorter n e)
      → ((e : Expr) → Shorter n e → Shorter n (c.relocate_expr e range))
      → serialize_parsed c f value range parsed ≡ serialize_parsed c g value range parsed
  unfolding serialize_parsed Shorter
  parsed-agree value range (some (subscript r e index ctx)) h relocated =
      ap
        (λ a.
          close c range (serialize_subscript_type c e a (some (utf8 value)) (some builtins_str)))
        (slice-agree (c.relocate_expr index range)
          (relocated index (h (subscript r e index ctx) refl)))
  parsed-agree value range (some (bin_op r left bit_or right)) h relocated =
      let shorter = h (bin_op r left bit_or right) refl in
      ap_two (λ a b. serialize_union_type c a b range (some (utf8 value)) (some builtins_str))
        (type-agree (c.relocate_expr left range) (relocated left shorter.0))
        (type-agree (c.relocate_expr right range) (relocated right shorter.1))
  parsed-agree value range _ h relocated = refl

-- What the code relies on: a literal in a parsed text is shorter than the text, and a node that is
-- moved keeps its literals.
module _ (c : Context)
    (parsed : (value : Text) (e : Expr)
      → c.parse_expression (wrapped value) ≡ some e
      → Shorter (length value) e)
    (moved : (n : ℕ) (e : Expr) (range : TextRange)
      → Shorter n e
      → Shorter n (c.relocate_expr e range)) where
  string_type-fuel :
      (m n : ℕ) (value : Text) (range : TextRange)
      → length value < m
      → length value < n
      → string_type c m value range ≡ string_type c n value range
  unfolding string_type
  string_type-fuel (suc m) (suc n) value range h k =
      parsed-agree c (length value) (string_type c m) (string_type c n)
        (λ t r shorter. string_type-fuel m n t r (omega arith) (omega arith)) value range
        (c.parse_expression (wrapped value)) (parsed value) (λ e. moved (length value) e range)
  string_type-fuel zero n value range h k = ground arith
  string_type-fuel (suc m) zero value range h k = ground arith

  -- If a string literal of a parsed text is shorter than the text, and moving a node keeps its
  -- literals, then the fuel of `serialize_string_type` never runs out: the function satisfies the
  -- equation by which the code defines it, with its own calls on the quoted types inside.
  pub serialize_string_type-unfold :
      (value : Text) (range : TextRange)
      → serialize_string_type c value range
        ≡ serialize_parsed c
            (serialize_string_type c)
            value
            range
            (c.parse_expression (wrapped value))
  unfolding serialize_string_type string_type
  serialize_string_type-unfold value range =
      parsed-agree c (length value) (string_type c (length value))
        (λ t. string_type c (suc (length t)) t)
        (λ t r shorter. string_type-fuel (length value) (suc (length t)) t r shorter (omega arith))
        value range (c.parse_expression (wrapped value)) (parsed value)
        (λ e. moved (length value) e range)
