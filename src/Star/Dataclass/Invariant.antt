-- ===== src/Star/Dataclass/Invariant.antt =====
-- Every dataclass object of star/dataclass.go has the attribute `__codec__`.
use starlark_worker.Prelude.{
  ◌≡◌, true, Text, nat_eq, list_eq, Bool-cases, inl, inr, list_beq_refl, Result, ok, arith,
}
use starlark_worker.Star.Errors.{Err}
use starlark_worker.Star.Values.{Value, string, dict, Fields, empty, field, get_field, set_field}
use starlark_worker.Star.Dataclass.{
  codec_attr, dataclass_type, items, set_all, found, string_dict_to_dict, new_dataclass, truth,
  set_attr, marshal_json,
}
use starlark_worker.Star.Dataclass.Maps.{get_field-set_field, found-set_field, set_attr-cases}

-- The attributes that an object can have: NewDataclass makes it, SetField changes it.
pub data Made : Fields → Type 0 where
  made : (attrs : Fields) → Made (new_dataclass attrs)
  assigned : {a b : Fields} (name : Text) (v : Value) → Made a → set_attr name v a ≡ ok b → Made b

new_dataclass_codec : (attrs : Fields) → found (get_field codec_attr (new_dataclass attrs)) ≡ true
unfolding new_dataclass
new_dataclass_codec attrs =
    elim (Bool-cases (found (get_field codec_attr (set_all (items attrs) empty)))) [
      | inl e ↦ rw e e
      | inr e ↦ rw (
        e,
        get_field-set_field codec_attr codec_attr (string dataclass_type)
            (set_all (items attrs) empty),
        list_beq_refl nat_eq codec_attr,
      )
    ]

set_attr_codec :
    (name : Text) (v : Value) (a b : Fields)
    → found (get_field codec_attr a) ≡ true
    → set_attr name v a ≡ ok b
    → found (get_field codec_attr b) ≡ true
set_attr_codec name v a b h e = elim (set_attr-cases name v a) [
  | inl (p, q) ↦ cc
  | inr (p, q) ↦
      let same : set_field name v a ≡ b = ground (arith, q, e) in
      rw (← same) (found-set_field name v a codec_attr h)
]

Made-codec : {a : Fields} → Made a → found (get_field codec_attr a) ≡ true
Made-codec (made attrs) = new_dataclass_codec attrs
Made-codec (assigned {a} {b} name v m e) = set_attr_codec name v a b (Made-codec m) e

found-truth : (k : Text) (a : Fields) → found (get_field k a) ≡ true → truth a ≡ true
unfolding truth
found-truth k empty h = cc
found-truth k (field j v fs) h = ground arith

-- An object that NewDataclass made is never in the invalid state that MarshalJSON tests for,
-- whatever SetField did to it since: it is encoded as the dict of its attributes, and it is true.
pub Made-marshal_json :
    (encode : Value → Result Err Text) (a : Fields)
    → Made a
    → (marshal_json encode a ≡ encode (dict (string_dict_to_dict a))) × (truth a ≡ true)
unfolding marshal_json
Made-marshal_json encode a m = (rw (Made-codec m), found-truth codec_attr a (Made-codec m))
