-- ===== src/Plugin/Request/Tests.antt =====
-- Runs of the model of plugin/request/activities.go, and the theorems at a server that answers
-- every request with the same response.
use starlark_worker.Prelude.{
  ℕ, suc, ℤ, pos, ◌≡◌, refl, none, some, [], ◌∷◌, Text, text, ◌==◌, nat_eq, list_eq, list_beq,
  split, if◌then◌else◌, ok, err, lookup, insert, itoa,
}
use starlark_worker.Star.Values.{Value, null, string, dict, empty, field}
use starlark_worker.Ext.JsonPath.{parse_part, index, jp}
use starlark_worker.Service.Lifecycle.{returned}
use starlark_worker.Plugin.Request.{
  JsonRequest, failure, bad_status, response, check_path, Client, Headers, default_headers, do_json,
}
use starlark_worker.Plugin.Request.Checks.{Accepted, do_json-eq_ok}
use starlark_worker.Plugin.Request.Fails.{Refused, do_json-eq_err}

-- A request is its headers, the world counts the requests; a body in braces is a JSON object.
abbrev answering : ℤ → Text → Client Headers ℕ
answering status body = record {
  marshal = λ v. ok (text "{}");
  new_request = λ method url b. if url == [] then err (text "no url") else ok [];
  set_header = λ h req. h;
  send = λ req w. (ok (record { status_code = status; body = body }), suc w);
  write = λ res. ok res.body;
  decode = λ b.
      if b == text "{}"
      then ok (dict (field (text "a") (string (text "x")) empty))
      else err (text "eof");
  float_eq = λ x y. x == y;
}

abbrev object : Value
object = dict (field (text "a") (string (text "x")) empty)

abbrev request : JsonRequest
request = record {
  method = text "GET";
  url = text "http://h";
  headers = none;
  body = null;
  checks = record {
    status_codes = none;
    path = text "a";
    value = some (string (text "y") ∷ string (text "x") ∷ []);
  };
}

accepted : do_json (answering (pos 200) (text "{}")) request 0 ≡ (returned (ok object), 1)
unfolding do_json list_beq jp split parse_part index
accepted = refl

not_found : do_json (answering (pos 404) (text "{}")) request 0 ≡ (
  returned (err (failure (text "404") (bad_status (pos 200 ∷ pos 201 ∷ pos 202 ∷ []) (pos 404)))),
  1,
)
unfolding do_json list_beq itoa
not_found = refl

-- A null at the path is refused, although any value is accepted there.
null_refused :
    check_path
      (λ x y. x == y)
      (record { status_codes = none; path = text "a"; value = none })
      (dict (field (text "a") null empty))
    ≡ returned (err (failure (text "412") (response (dict (field (text "a") null empty)))))
unfolding check_path list_beq jp split parse_part index
null_refused = refl

-- A key in lower case is not found by the code: both headers are sent.
both_headers :
    lookup (text "Accept") (default_headers (pos 0) ((text "accept", text "text/html" ∷ []) ∷ []))
    ≡ some (text "application/json" ∷ [])
unfolding default_headers list_beq lookup insert
both_headers = refl

do_json-eq_ok_example : Accepted (answering (pos 200) (text "{}")) request 0 object 1
do_json-eq_ok_example =
    (do_json-eq_ok (answering (pos 200) (text "{}")) request 0 1 object).0 accepted

do_json-eq_err_example :
    Refused
      (answering (pos 404) (text "{}"))
      request
      0
      (failure (text "404") (bad_status (pos 200 ∷ pos 201 ∷ pos 202 ∷ []) (pos 404)))
      1
do_json-eq_err_example =
    do_json-eq_err (answering (pos 404) (text "{}")) request 0 1
      (failure (text "404") (bad_status (pos 200 ∷ pos 201 ∷ pos 202 ∷ []) (pos 404))) not_found
