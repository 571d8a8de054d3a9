-- ===== src/Plugin/Response/Tests.antt =====
-- The theorems on the body of a response for a library that knows one document.
use starlark_worker.Prelude.{
  true, pos, none, Text, text, Result, ok, err, nat_eq, list_eq, ◌==◌, if◌then◌else◌,
}
use starlark_worker.Star.Values.{Value, boolean}
use starlark_worker.Star.Errors.{Err, library}
use starlark_worker.Star.Codec.{Json}
use starlark_worker.Plugin.Response.{Response}

abbrev answer : Response
answer = record { status_code = pos 200; unread = text "true"; read_error = none }

abbrev read_true : Text → Result Err Value
read_true t = if t == text "true" then ok (boolean true) else err (library (text "EOF"))

abbrev true_json : Json
true_json = record {
  encode_value = λ v. ok (text "true");
  decode_value = read_true;
  unmarshal_string = λ t. ok t;
}
