-- ===== src/Plugin/Json/Tests.antt =====
-- The theorem on the module json for a library that knows one document.
use starlark_worker.Prelude.{◌≡◌, refl, true, Text, text, ok, ◌>>=◌}
use starlark_worker.Star.Values.{Value, nil, cons, boolean, string, bytes, list}
use starlark_worker.Star.Codec.{Json}
use starlark_worker.Star.Codec.RoundTrip.{plain}
use starlark_worker.Plugin.Json.{dumps, loads}
use starlark_worker.Plugin.Json.Trip.{loads-dumps}

abbrev flags : Value
flags = list (cons (boolean true) nil)

abbrev library : Json
library = record {
  encode_value = λ v. ok (text "[true]");
  decode_value = λ t. ok (plain flags);
  unmarshal_string = λ t. ok t;
}

abbrev no_words : Value → Text
no_words v = text "no document"

loads-dumps_example :
    (dumps library no_words flags ≡ ok (string (text "[true]")))
    × ((dumps library no_words flags >>= loads library no_words) ≡ ok flags)
    × (loads library no_words (bytes (text "[true]")) ≡ ok flags)
loads-dumps_example = loads-dumps library no_words flags (text "[true]") (tt, tt) refl refl
