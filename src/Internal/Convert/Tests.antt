-- ===== src/Internal/Convert/Tests.antt =====
-- The theorems on the data converters at concrete values.
use starlark_worker.Prelude.{ℕ, ◌≡◌, refl, true, some, List, [], ◌∷◌, Text, text, ok, err}
use starlark_worker.Star.Errors.{unsupported_type}
use starlark_worker.Star.Values.{boolean}
use starlark_worker.Star.Codec.{
  Json, value, value_out, tuple_out, got_value, encode, encode_star, decode, decode_json,
  replace_dict,
}
use starlark_worker.Internal.Convert.{
  Arg, star, go, Dest, star_out, go_out, Got, got, got_go, GoJson, to_data, from_data, to_payloads,
  from_payloads, encode_arg, star_encode, decode_dest, star_decode,
}
use starlark_worker.Internal.Convert.Trip.{
  Trips, done, next, from_data-to_data, from_payloads-to_payloads,
}

-- a JSON library that writes true, and reads everything as true
abbrev json : Json
json = record {
  encode_value = λ v. ok (text "true");
  decode_value = λ t. ok (boolean true);
  unmarshal_string = λ t. ok t;
}

abbrev go_json : GoJson ℕ ℕ
go_json = record {
  marshal = λ v. some (text "7");
  unmarshal = λ t out. some (got_go 7);
  encode_bytes_pointer = λ s. err unsupported_type;
}

abbrev args : List (Arg ℕ)
args = star (value (boolean true)) ∷ go 7 ∷ []

abbrev outputs : List (Dest ℕ)
outputs = star_out value_out ∷ go_out 0 ∷ []

abbrev results : List (Got ℕ)
results = got (got_value (boolean true)) ∷ got_go 7 ∷ []

star_enc : encode_arg json go_json (star (value (boolean true))) ≡ ok (text "true")
unfolding encode_arg star_encode encode encode_star
star_enc = refl

star_dec :
    decode_dest json go_json (text "true") (star_out value_out)
    ≡ ok (got (got_value (boolean true)))
unfolding decode_dest star_decode decode decode_json replace_dict
star_dec = refl

go_enc : encode_arg json go_json (go 7) ≡ ok (text "7")
unfolding encode_arg star_encode
go_enc = refl

go_dec : decode_dest json go_json (text "7") (go_out 0) ≡ ok (got_go 7)
unfolding decode_dest star_decode decode
go_dec = refl

-- Data that star reads and that does not fit the output goes to jsoniter too.
unfit : decode_dest json go_json (text "true") (star_out tuple_out) ≡ ok (got_go 7)
unfolding decode_dest star_decode decode decode_json replace_dict
unfit = refl

args-Trips : Trips json go_json args outputs results
args-Trips =
    next star_enc (refl, (refl, (refl, (refl, tt)))) star_dec (next go_enc (refl, tt) go_dec done)

from_data-to_data_example :
    (s : Text) × (to_data json go_json args ≡ ok s)
    × (from_data json go_json s outputs ≡ ok results)
from_data-to_data_example = from_data-to_data json go_json args outputs results args-Trips refl refl

from_payloads-to_payloads_example :
    (ps : List Text) × (to_payloads json go_json args ≡ ok ps)
    × (from_payloads json go_json ps outputs ≡ ok results)
from_payloads-to_payloads_example =
    from_payloads-to_payloads json go_json args outputs results args-Trips refl
