-- ===== src/Plugin/Response/Reads.antt =====
-- Two calls of `json` on one response of plugin/request/response.go.
use starlark_worker.Prelude.{◌≡◌, refl, none, [], err, ok}
use starlark_worker.Star.Values.{Value}
use starlark_worker.Star.Errors.{Err}
use starlark_worker.Star.Codec.{Json, value_out, got_value, decode}
use starlark_worker.Plugin.Response.{Response, codec, decoded, response_json}

module _ (json : Json) where
  -- For a body that can be read and that Decode takes for a value, and a Decode that refuses the empty
  -- text: the first call of `json` gives that value, and the second one the error of the empty text,
  -- since the first has read the body to its end.
  pub response_json_twice :
      (r : Response) (v : Value) (e : Err)
      → r.read_error ≡ none
      → decode json r.unread value_out ≡ ok (got_value v)
      → decode json [] value_out ≡ err e
      → ((response_json json r).0 ≡ ok v)
        × ((response_json json (response_json json r).1).0 ≡ err (codec e))
  unfolding response_json
  response_json_twice r v e n d h =
      (rw (response_json, n, decoded, d) refl, rw (response_json, n, decoded, h) refl)
