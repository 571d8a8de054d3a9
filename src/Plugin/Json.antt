-- ===== src/Plugin/Json.antt =====
-- plugin/json/module.go, over the codec of star/. The unpacking of the one argument and logging are left
-- out.
pub mod Trip
mod Tests
use starlark_worker.Prelude.{Text, text, Result, ok, err, ◌>>=◌}
use starlark_worker.Star.Values.{Value, null, string, bytes}
use starlark_worker.Star.Errors.{Err}
use starlark_worker.Star.Codec.{Json, value, value_out, Decoded, got_value, encode, decode}

-- An error of the codec, or one of NewCustomError with its reason and details.
pub data JsonErr : Type 0 where
  codec : Err → JsonErr
  custom : Text → Text → JsonErr

-- The variable that Decode sets; decoding to a value gives a value.
abbrev pub decoded_value : Decoded → Value
decoded_value (got_value v) = v
decoded_value _ = null

-- An error of the codec is passed on.
abbrev pub passed_on : {A : Type 0} → Result Err A → Result JsonErr A
passed_on (ok a) = ok a
passed_on (err e) = err (codec e)

module _ (json : Json) (describe : Value → Text) where
  unfoldable pub dumps : Value → Result JsonErr Value
  dumps obj = do encoded ← passed_on (encode json (value obj)); ok (string encoded)

  unfoldable pub loads_text : Text → Result JsonErr Value
  loads_text s = do res ← passed_on (decode json s value_out); ok (decoded_value res)

  unfoldable pub loads : Value → Result JsonErr Value
  unfolding loads_text
  loads (string s) = loads_text s
  loads (bytes s) = loads_text s
  loads v = err (custom (text "bad-request") (describe v))
