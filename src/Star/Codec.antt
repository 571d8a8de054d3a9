-- ===== src/Star/Codec.antt =====
-- star/codec.go: values to JSON and back. The JSON of Starlark values is the library's
-- starlarkjson, a parameter here.
pub mod Replace
pub mod RoundTrip
use starlark_worker.Prelude.{
  ℕ, zero, suc, Bool, true, false, Option, none, some, List, [], ◌∷◌, ◌++◌, Text, text, ◌==◌,
  nat_eq, list_eq, if◌then◌else◌, Result, ok, err, ◌>>=◌,
}
use starlark_worker.Star.Errors.{
  Err, unsupported_type, unexpected_type, incompatible_data, illegal_output, decode_panic,
  corrupt_input,
}
use starlark_worker.Star.Values.{
  Value, null, boolean, int, float, string, bytes, list, tuple, dict, dataclass, callable, Items,
  nil, cons, Fields, empty, field, get_field,
}
use starlark_worker.Star.Base64.{b64_encode, b64_decode}
use starlark_worker.Star.Dataclass.{codec_attr, dataclass_type, new_dataclass_from_dict}

-- codecDictReplacer
unfoldable pub codec_dict_replacer : Fields → Result Err Value
unfolding new_dataclass_from_dict
codec_dict_replacer d = elim (get_field codec_attr d) [
  | some (string c) ↦
      if c == dataclass_type then ok (dataclass (new_dataclass_from_dict d)) else ok (dict d)
  | _ ↦ ok (dict d)
]

-- replaceDict. It writes the new children into the decoded structure, which nothing else refers to,
-- so it is a function to the new structure.
unfoldable mutual
  pub replace_dict : (Fields → Result Err Value) → Value → Result Err Value
  replace_dict replacer (dict d) = do new ← replace_fields replacer d; replacer new
  replace_dict replacer (list l) = do new ← replace_items replacer l; ok (list new)
  replace_dict replacer (string s) = ok (string s)
  replace_dict replacer (boolean b) = ok (boolean b)
  replace_dict replacer (int n) = ok (int n)
  replace_dict replacer (float f) = ok (float f)
  replace_dict replacer null = ok null
  replace_dict replacer _ = err unexpected_type

  pub replace_items : (Fields → Result Err Value) → Items → Result Err Items
  replace_items replacer nil = ok nil
  replace_items replacer (cons v l) = do
    new ← replace_dict replacer v
    rest ← replace_items replacer l
    ok (cons new rest)

  pub replace_fields : (Fields → Result Err Value) → Fields → Result Err Fields
  replace_fields replacer empty = ok empty
  replace_fields replacer (field k v fs) = do
    new ← replace_dict replacer v
    rest ← replace_fields replacer fs
    ok (field k new rest)

-- What the argument `v any` of Encode holds. `nil_value` is a nil interface, pointer or slice.
pub data Input : Type 0 where
  value : Value → Input
  keywords : List Items → Input
  nil_keywords : Input
  nil_value : Input
  other_type : Input

-- What the argument `out any` of Decode points to: the types that the code tells apart, and
-- `typed_out`, a type that implements starlark.Value; `fits` says which values it takes.
pub data Out : Type 0 where
  raw_out : Out
  bytes_out : Out
  keywords_out : Out
  tuple_out : Out
  value_out : Out
  typed_out : (fits : Value → Bool) → Out
  unsupported_out : Out
  not_pointer : Out

-- What Decode has written to `*out`.
pub data Decoded : Type 0 where
  got_raw : Text → Decoded
  got_value : Value → Decoded
  got_keywords : List Items → Decoded
  got_nil : Decoded

-- starlarkjson's encode and decode, and encoding/json's reading of a string.
pub record Json : Type 0 where
  pub encode_value : Value → Result Err Text
  pub decode_value : Text → Result Err Value
  pub unmarshal_string : Text → Result Err Text

-- keywordsFromList; a member that is no list is a panic.
unfoldable pub keywords_from_list : Items → Result Err (List Items)
keywords_from_list nil = ok []
keywords_from_list (cons (list k) l) = do rest ← keywords_from_list l; ok (k ∷ rest)
keywords_from_list (cons v l) = err decode_panic

abbrev pub quote : Text → Text
quote s = b'"' ∷ s ++ b'"' ∷ []

-- The bytes between the quotes, if there are quotes.
abbrev pub unquote_end : Text → Option Text
unquote_end [] = none
unquote_end (c ∷ []) = if c == b'"' then some [] else none
unquote_end (c ∷ s) = elim (unquote_end s) [ none ↦ none | some r ↦ some (c ∷ r) ]

abbrev pub unquote : Text → Option Text
unquote [] = none
unquote (c ∷ s) = if c == b'"' then unquote_end s else none

abbrev pub b64_result : Option Text → Result Err Text
b64_result none = err corrupt_input
b64_result (some s) = ok s

module _ (json : Json) where
  open json use {encode_value, decode_value, unmarshal_string}

  -- Encode of a Starlark value that is not nil
  unfoldable pub encode_star : Value → Result Err Text
  encode_star (bytes s) = ok (quote (b64_encode s))
  encode_star v = encode_value v

  -- The loop of Encode over a keyword list.
  unfoldable pub encode_tuples : List Items → Result Err Text
  unfolding encode_star
  encode_tuples [] = ok []
  encode_tuples (t ∷ []) = encode_star (tuple t)
  encode_tuples (t ∷ ts) = do
    r ← encode_star (tuple t)
    rest ← encode_tuples ts
    ok (r ++ b',' ∷ rest)

  -- Encode
  unfoldable pub encode : Input → Result Err Text
  unfolding encode_star encode_tuples
  encode (value v) = encode_star v
  encode nil_keywords = ok (text "null")
  encode (keywords ts) = do r ← encode_tuples ts; ok (b'[' ∷ r ++ b']' ∷ [])
  encode nil_value = ok (text "null")
  encode other_type = err unsupported_type

  -- The default case of Decode, before the value is stored.
  unfoldable pub decode_json : Text → Result Err Value
  decode_json line = do v ← decode_value line; replace_dict codec_dict_replacer v

  store : Out → Value → Result Err Decoded
  store tuple_out (list l) = ok (got_value (tuple l))
  store tuple_out null = ok got_nil
  store tuple_out v = err incompatible_data
  store (typed_out fits) v = if fits v then ok (got_value v) else err decode_panic
  store out v = ok (got_value v)

  store_keywords : Value → Result Err Decoded
  unfolding keywords_from_list
  store_keywords null = ok got_nil
  store_keywords (list l) = do ks ← keywords_from_list l; ok (got_keywords ks)
  store_keywords v = err incompatible_data

  -- Decode, its recovered panics included
  unfoldable pub decode : Text → Out → Result Err Decoded
  unfolding decode_json store store_keywords
  decode line not_pointer = err illegal_output
  decode line raw_out = do
    s ← unmarshal_string line
    raw ← b64_result (b64_decode s)
    ok (got_raw raw)
  decode line bytes_out = elim (unquote line) [
    | none ↦ err incompatible_data
    | some s ↦ do raw ← b64_result (b64_decode s); ok (got_value (bytes raw))
  ]
  decode line keywords_out = do v ← decode_json line; store_keywords v
  decode line unsupported_out = err unsupported_type
  decode line out = do v ← decode_json line; store out v
