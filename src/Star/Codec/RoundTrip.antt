-- ===== src/Star/Codec/RoundTrip.antt =====
-- Encode and then Decode of star/codec.go.
use starlark_worker.Prelude.{
  ◌≡◌, refl, ap, ◌∙◌, Bool, false, Option, none, some, List, [], ◌∷◌, ◌++◌, Text, text, ◌==◌,
  nat_eq, list_eq, list_beq_refl, ok, All,
}
use starlark_worker.Star.Values.{
  Value, null, string, bytes, list, tuple, dict, dataclass, callable, Items, nil, cons, Fields,
  empty, field, get_field,
}
use starlark_worker.Star.Base64.{IsByte, b64_encode}
use starlark_worker.Star.Base64.Trip.{b64_decode-b64_encode}
use starlark_worker.Star.Dataclass.{codec_attr, dataclass_type, found, new_dataclass_from_dict}
use starlark_worker.Star.Dataclass.Maps.{NewKeys, set_all-items}
use starlark_worker.Star.Codec.{
  codec_dict_replacer, replace_dict, replace_items, replace_fields, value, keywords, bytes_out,
  value_out, keywords_out, got_value, got_keywords, Json, quote, unquote_end, encode_star,
  encode_tuples, encode, decode, keywords_from_list,
}

-- What is left of a value in JSON: a dataclass is the dict of its attributes, a tuple is a list.
abbrev mutual
  pub plain : Value → Value
  plain (list l) = list (plain_items l)
  plain (tuple l) = list (plain_items l)
  plain (dict d) = dict (plain_fields d)
  plain (dataclass a) = dict (plain_fields a)
  plain v = v

  pub plain_items : Items → Items
  plain_items nil = nil
  plain_items (cons v l) = cons (plain v) (plain_items l)

  pub plain_fields : Fields → Fields
  plain_fields empty = empty
  plain_fields (field k v fs) = field k (plain v) (plain_fields fs)

-- The value of `__codec__` names a dataclass.
abbrev pub tagged : Option Value → Bool
tagged (some (string c)) = c == dataclass_type
tagged _ = false

-- Values that JSON can carry: no byte strings, tuples or callables, no dict that looks like a
-- dataclass; a dataclass has the codec "dataclass" and one entry for a key.
abbrev mutual
  pub IsData : Value → Type 0
  IsData (bytes s) = ⊥
  IsData (tuple l) = ⊥
  IsData (callable n) = ⊥
  IsData (list l) = AllData l
  IsData (dict d) = AllDataFields d × (tagged (get_field codec_attr d) ≡ false)
  IsData (dataclass a) =
      AllDataFields a × (get_field codec_attr a ≡ some (string dataclass_type)) × NewKeys empty a
  IsData _ = Unit

  pub AllData : Items → Type 0
  AllData nil = Unit
  AllData (cons v l) = IsData v × AllData l

  pub AllDataFields : Fields → Type 0
  AllDataFields empty = Unit
  AllDataFields (field k v fs) = IsData v × AllDataFields fs

replacer_untagged :
    (d : Fields) → tagged (get_field codec_attr d) ≡ false → codec_dict_replacer d ≡ ok (dict d)
unfolding codec_dict_replacer
replacer_untagged d h = go (get_field codec_attr d) refl h
  where
    go :
        (o : Option Value)
        → get_field codec_attr d ≡ o
        → tagged o ≡ false
        → codec_dict_replacer d ≡ ok (dict d)
    go none e t = rw (e, codec_dict_replacer)
    go (some (string c)) e t = rw (e, codec_dict_replacer) (rw t)
    go (some null) e t = rw (e, codec_dict_replacer)
    go (some _) e t = rw (e, codec_dict_replacer)

new_dataclass-of_tagged :
    (a : Fields)
    → get_field codec_attr a ≡ some (string dataclass_type)
    → NewKeys empty a
    → new_dataclass_from_dict a ≡ a
unfolding new_dataclass_from_dict
new_dataclass-of_tagged a h k = rw (set_all-items a k) (rw (set_all-items a k) (rw (h, found)))

replacer_tagged :
    (a : Fields)
    → get_field codec_attr a ≡ some (string dataclass_type)
    → NewKeys empty a
    → codec_dict_replacer a ≡ ok (dataclass a)
replacer_tagged a h k =
    unfold codec_dict_replacer in
    rw (h, codec_dict_replacer)
      (rw (list_beq_refl nat_eq dataclass_type)
        (ap (λ t. ok (dataclass t)) (new_dataclass-of_tagged a h k)))

mutual
  unfolding replace_dict

  replace-plain : (v : Value) → IsData v → replace_dict codec_dict_replacer (plain v) ≡ ok v
  replace-plain (dict d) h = rw (replace_fields-plain d h.0) (replacer_untagged d h.1)
  replace-plain (dataclass a) h = rw (replace_fields-plain a h.0) (replacer_tagged a h.1 h.2)
  replace-plain (list l) h = rw (replace_items-plain l h)
  replace-plain (bytes s) h = absurd h
  replace-plain (tuple l) h = absurd h
  replace-plain (callable n) h = absurd h
  replace-plain v h = refl

  replace_items-plain :
      (l : Items) → AllData l → replace_items codec_dict_replacer (plain_items l) ≡ ok l
  replace_items-plain nil h = refl
  replace_items-plain (cons v l) h = rw (replace-plain v h.0, replace_items-plain l h.1)

  replace_fields-plain :
      (d : Fields) → AllDataFields d → replace_fields codec_dict_replacer (plain_fields d) ≡ ok d
  replace_fields-plain empty h = refl
  replace_fields-plain (field k v d) h = rw (replace-plain v h.0, replace_fields-plain d h.1)

-- Quotes put around a text come off again.
unquote_end-append : (s : Text) → unquote_end (s ++ b'"' ∷ []) ≡ some s
unquote_end-append [] = refl
unquote_end-append (c ∷ []) = refl
unquote_end-append (c ∷ d ∷ s) = rw (unquote_end-append (d ∷ s))

-- The list of the members as lists.
abbrev pub lists : List Items → Items
lists [] = nil
lists (k ∷ ks) = cons (list k) (lists ks)

abbrev pub AllTuples : List Items → Type 0
AllTuples [] = Unit
AllTuples (k ∷ ks) = AllData k × AllTuples ks

-- The texts with commas between them, and the JSON array of them.
abbrev pub commas : List Text → Text
commas [] = []
commas (t ∷ []) = t
commas (t ∷ u ∷ ts) = t ++ b',' ∷ commas (u ∷ ts)

abbrev pub array : List Text → Text
array ts = text "[" ++ commas ts ++ text "]"

module _ (json : Json) where
  open json use {encode_value, decode_value}

  -- A byte string is read back from its encoding.
  pub decode-encode_bytes :
      (s : Text)
      → All IsByte s
      → (t : Text) × (encode json (value (bytes s)) ≡ ok t)
        × (decode json t bytes_out ≡ ok (got_value (bytes s)))
  unfolding encode decode
  decode-encode_bytes s h = (
    quote (b64_encode s),
    refl,
    rw (unquote_end-append (b64_encode s), decode) (rw (b64_decode-b64_encode s h)),
  )

  encode_star-IsData : (v : Value) → IsData v → encode_star json v ≡ encode_value v
  unfolding encode_star
  encode_star-IsData (bytes s) h = absurd h
  encode_star-IsData null h = refl
  encode_star-IsData _ h = refl

  -- A value that JSON can carry, with dataclasses at any depth, is read back from its encoding, if
  -- the JSON library reads back what it wrote for it, up to dataclasses and tuples.
  pub decode-encode :
      (v : Value) (t : Text)
      → IsData v
      → encode_value v ≡ ok t
      → decode_value t ≡ ok (plain v)
      → (encode json (value v) ≡ ok t) × (decode json t value_out ≡ ok (got_value v))
  unfolding encode decode
  decode-encode v t h e d = (encode_star-IsData v h ∙ e, rw d (rw (replace-plain v h)))

  replace-lists :
      (ks : List Items)
      → AllTuples ks
      → replace_items codec_dict_replacer (plain_items (lists ks)) ≡ ok (lists ks)
  unfolding replace_dict
  replace-lists [] h = refl
  replace-lists (k ∷ ks) h = rw (replace_items-plain k h.0, replace-lists ks h.1)

  keywords_from_list-lists : (ks : List Items) → keywords_from_list (lists ks) ≡ ok ks
  unfolding keywords_from_list
  keywords_from_list-lists [] = refl
  keywords_from_list-lists (k ∷ ks) = rw (keywords_from_list-lists ks)

  -- The texts are what the JSON library writes for the tuples, one for each.
  abbrev pub Encoded : List Items → List Text → Type 0
  Encoded [] [] = Unit
  Encoded (k ∷ ks) (t ∷ ts) = (encode_value (tuple k) ≡ ok t) × Encoded ks ts
  Encoded _ _ = ⊥

  encode_tuples-Encoded :
      (ks : List Items) (ts : List Text) → Encoded ks ts → encode_tuples json ks ≡ ok (commas ts)
  unfolding encode_tuples encode_star
  encode_tuples-Encoded [] [] h = refl
  encode_tuples-Encoded [] (t ∷ ts) h = absurd h
  encode_tuples-Encoded (k ∷ ks) [] h = absurd h
  encode_tuples-Encoded (k ∷ []) (t ∷ []) h = h.0
  encode_tuples-Encoded (k ∷ []) (t ∷ u ∷ ts) h = absurd h.1
  encode_tuples-Encoded (k ∷ j ∷ ks) (t ∷ []) h = absurd h.1
  encode_tuples-Encoded (k ∷ j ∷ ks) (t ∷ u ∷ ts) h =
      rw (h.0, encode_tuples-Encoded (j ∷ ks) (u ∷ ts) h.1) refl

  -- A keyword list is read back from its encoding, the JSON array of what the JSON library writes for
  -- its members, with commas between them, if the library reads that array as the list of the members,
  -- up to dataclasses and tuples.
  pub decode-encode_keywords :
      (ks : List Items) (ts : List Text)
      → AllTuples ks
      → Encoded ks ts
      → decode_value (array ts) ≡ ok (list (plain_items (lists ks)))
      → (encode json (keywords ks) ≡ ok (array ts))
        × (decode json (array ts) keywords_out ≡ ok (got_keywords ks))
  unfolding encode decode
  decode-encode_keywords ks ts h e d = (
    rw (encode_tuples-Encoded ks ts e) refl,
    rw d (unfold replace_dict in rw (replace-lists ks h) (rw (keywords_from_list-lists ks))),
  )
