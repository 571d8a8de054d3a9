-- ===== src/Star/Tests.antt =====
-- Runs of the model of package star/, and its theorems at concrete values.
use starlark_worker.Prelude.{
  ◌≡◌, refl, true, some, List, [], ◌∷◌, Text, text, ◌==◌, nat_eq, list_eq, list_beq, if◌then◌else◌,
  Result, ok, err, ◌++◌, arith,
}
use starlark_worker.Star.Errors.{Err, incompatible_data}
use starlark_worker.Star.Values.{
  Value, null, boolean, string, list, tuple, dict, dataclass, Items, nil, cons, Fields, empty,
  field,
}
use starlark_worker.Star.Base64.{b64_encode, b64_decode}
use starlark_worker.Star.Base64.Trip.{b64_decode-b64_encode}
use starlark_worker.Star.Dataclass.{
  codec_attr, dataclass_type, new_dataclass, string_dict_to_dict, set_attr, truth, marshal_json,
}
use starlark_worker.Star.Dataclass.Invariant.{Made, made, assigned, Made-marshal_json}
use starlark_worker.Star.Codec.{
  value, keywords, value_out, keywords_out, got_value, got_keywords, Json, encode, decode,
}
use starlark_worker.Star.Codec.RoundTrip.{
  plain, lists, plain_items, decode-encode, decode-encode_keywords,
}

b64_decode-b64_encode_example : b64_decode (b64_encode (text "hi")) ≡ some (text "hi")
b64_decode-b64_encode_example = b64_decode-b64_encode (text "hi") (omega arith)

abbrev point : Fields
point = field (text "x") null (field codec_attr (string dataclass_type) empty)

abbrev moved : Fields
moved = field (text "x") (boolean true) (field codec_attr (string dataclass_type) empty)

point-Made : Made (new_dataclass (field (text "x") null empty))
point-Made = made (field (text "x") null empty)

moved-Made : Made moved
unfolding new_dataclass set_attr list_beq
moved-Made = assigned (text "x") (boolean true) point-Made refl

-- a stand-in for the JSON encoder
abbrev encode_any : Value → Result Err Text
encode_any v = ok (text "{}")

Made-marshal_json_example :
    (marshal_json encode_any moved ≡ encode_any (dict (string_dict_to_dict moved)))
    × (truth moved ≡ true)
Made-marshal_json_example = Made-marshal_json encode_any moved moved-Made

-- a list with a dataclass in it
abbrev sample : Value
sample = list (cons (dataclass point) (cons (boolean true) nil))

abbrev sample_keywords : List Items
sample_keywords =
    cons (string (text "k")) (cons (dataclass point) nil)
    ∷ cons (string (text "b")) (cons (boolean true) nil)
    ∷ []

-- What the library writes for a value: of a tuple, that of its first member
abbrev written : Value → Text
written (tuple (cons (string k) _)) = text "[" ++ k ++ text "]"
written _ = text "D"

-- a JSON library that knows two documents
abbrev sample_json : Json
sample_json = record {
  encode_value = λ v. ok (written v);
  decode_value = λ t.
      if t == text "D"
      then ok (plain sample)
      else if t == text "[[k],[b]]"
      then ok (list (plain_items (lists sample_keywords)))
      else err incompatible_data;
  unmarshal_string = λ t. ok t;
}

decode-encode_example :
    (encode sample_json (value sample) ≡ ok (text "D"))
    × (decode sample_json (text "D") value_out ≡ ok (got_value sample))
unfolding list_beq
decode-encode_example =
    decode-encode sample_json sample (text "D")
      (((tt, (tt, tt)), refl, (refl, (refl, tt))), (tt, tt)) refl refl

decode-encode_keywords_example :
    (encode sample_json (keywords sample_keywords) ≡ ok (text "[[k],[b]]"))
    × (decode sample_json (text "[[k],[b]]") keywords_out ≡ ok (got_keywords sample_keywords))
unfolding list_beq
decode-encode_keywords_example =
    decode-encode_keywords sample_json sample_keywords (text "[k]" ∷ text "[b]" ∷ [])
      ((tt, (((tt, (tt, tt)), refl, (refl, (refl, tt))), tt)), ((tt, (tt, tt)), tt))
      (refl, (refl, tt)) refl
