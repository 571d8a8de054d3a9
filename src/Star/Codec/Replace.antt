-- ===== src/Star/Codec/Replace.antt =====
-- What replaceDict of star/codec.go makes of decoded JSON.
use starlark_worker.Prelude.{
  ◌≡◌, refl, Option, none, some, ◌==◌, nat_eq, list_eq, Bool-cases, inl, inr, ok,
}
use starlark_worker.Star.Values.{
  Value, null, string, bytes, list, tuple, dict, dataclass, callable, Items, nil, cons, Fields,
  empty, field, get_field,
}
use starlark_worker.Star.Dataclass.{codec_attr, dataclass_type, new_dataclass_from_dict}
use starlark_worker.Star.Codec.{codec_dict_replacer, replace_dict, replace_items, replace_fields}

-- The value is made of the types that JSON has.
abbrev mutual
  pub IsJson : Value → Type 0
  IsJson (bytes s) = ⊥
  IsJson (tuple l) = ⊥
  IsJson (dataclass a) = ⊥
  IsJson (callable n) = ⊥
  IsJson (list l) = AllJson l
  IsJson (dict d) = AllJsonFields d
  IsJson _ = Unit

  pub AllJson : Items → Type 0
  AllJson nil = Unit
  AllJson (cons v l) = IsJson v × AllJson l

  pub AllJsonFields : Fields → Type 0
  AllJsonFields empty = Unit
  AllJsonFields (field k v fs) = IsJson v × AllJsonFields fs

codec_dict_replacer_total : (d : Fields) → (v : Value) × (codec_dict_replacer d ≡ ok v)
unfolding codec_dict_replacer
codec_dict_replacer_total d = go (get_field codec_attr d) refl
  where
    go :
        (o : Option Value)
        → get_field codec_attr d ≡ o
        → (v : Value) × (codec_dict_replacer d ≡ ok v)
    go none e = (dict d, rw (e, codec_dict_replacer))
    go (some (string c)) e = elim (Bool-cases (c == dataclass_type)) [
      | inl t ↦ (dataclass (new_dataclass_from_dict d), rw (e, codec_dict_replacer) (rw t))
      | inr t ↦ (dict d, rw (e, codec_dict_replacer) (rw t))
    ]
    go (some null) e = (dict d, rw (e, codec_dict_replacer))
    go (some _) e = (dict d, rw (e, codec_dict_replacer))

mutual
  unfolding replace_dict

  replace_total : (v : Value) → IsJson v → (w : Value) × (replace_dict codec_dict_replacer v ≡ ok w)
  replace_total (dict d) h =
      let (new, e) = replace_fields_total d h in
      let (w, f) = codec_dict_replacer_total new in (w, rw e f)
  replace_total (list l) h = let (new, e) = replace_items_total l h in (list new, rw e)
  replace_total (bytes s) h = absurd h
  replace_total (tuple l) h = absurd h
  replace_total (dataclass a) h = absurd h
  replace_total (callable n) h = absurd h
  replace_total v h = (v, refl)

  replace_items_total :
      (l : Items) → AllJson l → (m : Items) × (replace_items codec_dict_replacer l ≡ ok m)
  replace_items_total nil h = (nil, refl)
  replace_items_total (cons v l) h =
      let (w, e) = replace_total v h.0 in
      let (m, f) = replace_items_total l h.1 in (cons w m, rw (e, f))

  replace_fields_total :
      (d : Fields) → AllJsonFields d → (m : Fields) × (replace_fields codec_dict_replacer d ≡ ok m)
  replace_fields_total empty h = (empty, refl)
  replace_fields_total (field k v d) h =
      let (w, e) = replace_total v h.0 in
      let (m, f) = replace_fields_total d h.1 in (field k w m, rw (e, f))

-- A value that JSON can hold is never refused.
pub replace_dict_total :
    (v : Value) → IsJson v → (w : Value) × (replace_dict codec_dict_replacer v ≡ ok w)
replace_dict_total v h = replace_total v h
