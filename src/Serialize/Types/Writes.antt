-- ===== src/Serialize/Types/Writes.antt =====
-- The parts of the serialization of types, as actions that only append bytes.
use ast_serialize.Common.{ℕ, List, Option, none, some}
use ast_serialize.Common.Int.{ℤ}
use ast_serialize.Ast.Expr.{
  TextRange, StringLiteral, Expr, OptExpr, present, DictItems, no_items, item, string_literal,
}
use ast_serialize.Serialize.{Context, Action}
use ast_serialize.Serialize.Keeps.{Keeps}
use ast_serialize.Serialize.Writes.{Writes, Writes-IsPreorder, writes_rules}
use ast_serialize.Serialize.Types.{
  serialize_union_type, serialize_int_type, write_string_parts, write_key, write_keys, close,
  slice_many, slice_one, typed_list, serialize_dict_type, list_type, tuple_type, unpack_type,
  call_type,
}
use ast_serialize.Serialize.Types.Unbound.{
  write_optional, write_original, write_invalid_note, write_raw_fallback, serialize_invalid_type,
  invalid_type, serialize_simple_unbound_type, serialize_attribute_type, serialize_subscript_type,
}

pub write_optional-Writes : (s : Option (List ℕ)) → Keeps Writes (write_optional s)
unfolding write_optional
write_optional-Writes none = search writes_rules
write_optional-Writes (some s) = search writes_rules

pub write_original-Writes : (e f : Option (List ℕ)) → Keeps Writes (write_original e f)
unfolding write_original
write_original-Writes e f = search (writes_rules, write_optional-Writes)

pub write_invalid_note-Writes :
    (c : Context) (n : Option (List ℕ)) → Keeps Writes (write_invalid_note c n)
unfolding write_invalid_note
write_invalid_note-Writes c n = search (writes_rules, write_optional-Writes)

pub write_raw_fallback-Writes : (f : Option (List ℕ)) → Keeps Writes (write_raw_fallback f)
unfolding write_raw_fallback
write_raw_fallback-Writes none = search writes_rules
write_raw_fallback-Writes (some f) = search writes_rules

pub serialize_invalid_type-Writes :
    (c : Context) (n e f : Option (List ℕ)) → Keeps Writes (serialize_invalid_type c n e f)
unfolding serialize_invalid_type
serialize_invalid_type-Writes c n none f = search (writes_rules, write_invalid_note-Writes) depth 10
serialize_invalid_type-Writes c n (some e) f =
    search (writes_rules, write_raw_fallback-Writes) depth 10

pub invalid_type-Writes : (c : Context) → Keeps Writes (invalid_type c)
unfolding invalid_type
invalid_type-Writes c = search serialize_invalid_type-Writes

pub serialize_simple_unbound_type-Writes :
    (n : List ℕ) (e f : Option (List ℕ)) → Keeps Writes (serialize_simple_unbound_type n e f)
unfolding serialize_simple_unbound_type
serialize_simple_unbound_type-Writes n e f = search (writes_rules, write_original-Writes) depth 10

pub serialize_attribute_type-Writes :
    (c : Context) (t : Expr) (e f : Option (List ℕ))
    → Keeps Writes (serialize_attribute_type c t e f)
unfolding serialize_attribute_type
serialize_attribute_type-Writes c t e f =
    search (writes_rules, serialize_simple_unbound_type-Writes, serialize_invalid_type-Writes)

pub serialize_subscript_type-Writes :
    (c : Context) (v : Expr) (slice : Action) (e f : Option (List ℕ))
    → Keeps Writes slice
    → Keeps Writes (serialize_subscript_type c v slice e f)
unfolding serialize_subscript_type
serialize_subscript_type-Writes c v slice e f k =
    search (writes_rules, write_original-Writes, serialize_invalid_type-Writes) depth 12

pub serialize_union_type-Writes :
    (c : Context) (left right : Action) (range : TextRange) (e f : Option (List ℕ))
    → Keeps Writes left
    → Keeps Writes right
    → Keeps Writes (serialize_union_type c left right range e f)
unfolding serialize_union_type
serialize_union_type-Writes c left right range e f k l =
    search (writes_rules, write_original-Writes) depth 14

pub serialize_int_type-Writes : (c : Context) (v : Option ℤ) → Keeps Writes (serialize_int_type c v)
unfolding serialize_int_type
serialize_int_type-Writes c none = search invalid_type-Writes
serialize_int_type-Writes c (some v) = search writes_rules depth 10

pub write_string_parts-Writes : (ps : List StringLiteral) → Keeps Writes (write_string_parts ps)
unfolding write_string_parts
write_string_parts-Writes ps = search writes_rules

pub write_key-Writes : (key : OptExpr) → Keeps Writes (write_key key)
unfolding write_key
write_key-Writes (present (string_literal _ ps)) = write_string_parts-Writes ps
write_key-Writes _ = search writes_rules

pub write_keys-Writes : (items : DictItems) → Keeps Writes (write_keys items)
unfolding write_keys
write_keys-Writes no_items = search writes_rules
write_keys-Writes (item key _ rest) =
    let k = write_keys-Writes rest in search (writes_rules, write_key-Writes)

pub close-Writes :
    (c : Context) (range : TextRange) (a : Action) → Keeps Writes a → Keeps Writes (close c range a)
unfolding close
close-Writes c range a k = search writes_rules

pub slice_many-Writes : (n : ℕ) (a : Action) → Keeps Writes a → Keeps Writes (slice_many n a)
unfolding slice_many
slice_many-Writes n a k = search writes_rules

pub slice_one-Writes : (a : Action) → Keeps Writes a → Keeps Writes (slice_one a)
unfolding slice_one
slice_one-Writes a k = search writes_rules

pub typed_list-Writes : (n : ℕ) (a : Action) → Keeps Writes a → Keeps Writes (typed_list n a)
unfolding typed_list
typed_list-Writes n a k = search writes_rules

pub serialize_dict_type-Writes :
    (c : Context) (items : DictItems) (values : Action)
    → Keeps Writes values
    → Keeps Writes (serialize_dict_type c items values)
unfolding serialize_dict_type
serialize_dict_type-Writes c items values k =
    search (writes_rules, typed_list-Writes, write_keys-Writes, invalid_type-Writes) depth 10

pub list_type-Writes : (n : ℕ) (a : Action) → Keeps Writes a → Keeps Writes (list_type n a)
unfolding list_type
list_type-Writes n a k = search (writes_rules, typed_list-Writes)

pub tuple_type-Writes : (n : ℕ) (a : Action) → Keeps Writes a → Keeps Writes (tuple_type n a)
unfolding tuple_type
tuple_type-Writes n a k = search (writes_rules, typed_list-Writes)

pub unpack_type-Writes : (a : Action) → Keeps Writes a → Keeps Writes (unpack_type a)
unfolding unpack_type
unpack_type-Writes a k = search writes_rules

pub call_type-Writes :
    (f : Action) (n : ℕ) (a : Action) (m : ℕ) (b : Action)
    → Keeps Writes f
    → Keeps Writes a
    → Keeps Writes b
    → Keeps Writes (call_type f n a m b)
unfolding call_type
call_type-Writes f n a m b k l h = search (writes_rules, typed_list-Writes) depth 8

pub ruleset type_rules = (
  writes_rules, write_optional-Writes, serialize_invalid_type-Writes, invalid_type-Writes,
  serialize_simple_unbound_type-Writes, serialize_attribute_type-Writes,
  serialize_subscript_type-Writes, serialize_union_type-Writes, serialize_int_type-Writes,
  close-Writes, slice_many-Writes, slice_one-Writes, serialize_dict_type-Writes, list_type-Writes,
  tuple_type-Writes, unpack_type-Writes, call_type-Writes,
)
