-- ===== src/Plugin/Json/Trip.antt =====
-- What `loads` of plugin/json/module.go reads of what `dumps` wrote.
use starlark_worker.Prelude.{◌≡◌, refl, Text, ok, ◌>>=◌}
use starlark_worker.Star.Values.{Value, string, bytes}
use starlark_worker.Star.Codec.{Json}
use starlark_worker.Star.Codec.RoundTrip.{IsData, plain, decode-encode}
use starlark_worker.Plugin.Json.{dumps, loads, loads_text}

module _ (json : Json) (describe : Value → Text) where
  open json use {encode_value, decode_value}

  -- For a value that JSON can carry, with dataclasses at any depth, `dumps` gives the text that the JSON
  -- library writes for it, and `loads` gives the value back, of the text as a string and as bytes,
  -- if the library reads the text back up to dataclasses and tuples.
  pub loads-dumps :
      (v : Value) (t : Text)
      → IsData v
      → encode_value v ≡ ok t
      → decode_value t ≡ ok (plain v)
      → (dumps json describe v ≡ ok (string t))
        × ((dumps json describe v >>= loads json describe) ≡ ok v)
        × (loads json describe (bytes t) ≡ ok v)
  unfolding dumps loads loads_text
  loads-dumps v t h e d =
      let (written, read) = decode-encode json v t h e d in
      (rw written refl, rw (written, read) refl, rw read refl)
