-- ===== src/Plugin/Request.antt =====
-- plugin/request/activities.go: the activities that send HTTP requests. The functions run in a
-- context that carries the engine, so that NewCustomError makes an error; logging is left out.
pub mod Checks
pub mod Fails
pub mod Defaults
mod Tests
use starlark_worker.Prelude.{
  ℕ, ℤ, pos, Bool, true, false, ◌&&◌, Option, none, some, List, [], ◌∷◌, Text, text, ◌==◌, nat_eq,
  list_eq, int_eq, if◌then◌else◌, Result, ok, err, ◌>>=◌, lookup, insert, contains, itoa, length,
}
use starlark_worker.Star.Values.{Value, null, boolean, float, string, list, dict}
use starlark_worker.Ext.JsonPath.{PathErr, jp}
use starlark_worker.Service.Lifecycle.{Attempt, returned, panicked}

-- Nil slices are `none`, the path "" stands for no path.
pub record Assert : Type 0 where
  pub status_codes : Option (List ℤ)
  pub path : Text
  pub value : Option (List Value)

abbrev pub Headers : Type 0
Headers = List (Text × List Text)

-- A nil body is `null`.
pub record JsonRequest : Type 0 where
  pub method : Text
  pub url : Text
  pub headers : Option Headers
  pub body : Value
  pub checks : Assert

-- What an error has besides its reason: an error's text, the expected codes and the code that came,
-- the text of a decoding error, or the response.
pub data Details : Type 0 where
  error_text : Text → Details
  bad_status : List ℤ → ℤ → Details
  not_json : Text → Details
  response : Value → Details

-- workflow.CustomError
pub record Failure : Type 0 where
  pub reason : Text
  pub details : Details

pub record Response : Type 0 where
  pub status_code : ℤ
  pub body : Text

-- jsoniter, http.NewRequestWithContext, the HTTP client and Response.Write, with the texts of their errors. `World` is what the
-- servers keep; `float_eq` compares two floats by their patterns.
pub record Client (Req World : Type 0) : Type 0 where
  pub marshal : Value → Result Text Text
  pub new_request : Text → Text → Option Text → Result Text Req
  pub set_header : Headers → Req → Req
  pub send : Req → World → Result Text Response × World
  pub write : Response → Result Text Text
  pub decode : Text → Result Text Value
  pub float_eq : ℕ → ℕ → Bool

-- The texts of the yarpc codes.
abbrev pub code_invalid_argument : Text
code_invalid_argument = text "invalid-argument"

abbrev pub code_unknown : Text
code_unknown = text "unknown"

abbrev pub code_internal : Text
code_internal = text "internal"

-- header.Get at a canonical key
abbrev pub first : Option (List Text) → Text
first (some (v ∷ vs)) = v
first _ = []

-- `if header.Get(key) == "" { header.Set(key, value) }`; the keys are canonical.
unfoldable pub set_default : Text → Text → Headers → Headers
set_default key value h = if first (lookup key h) == [] then insert key (value ∷ []) h else h

-- The headers that the code adds, for a body of the given length.
unfoldable pub default_headers : ℤ → Headers → Headers
unfolding set_default
default_headers n h = set_default (text "Accept-Charset") (text "utf-8") (
    set_default (text "Accept") (text "application/json") (
      set_default (text "Content-Type") (text "application/json; charset=utf-8")
        (set_default (text "Content-Length") (itoa n) h)))

abbrev pub or_else {ℓ} : {A : Type ℓ} → A → Option A → A
or_else a none = a
or_else a (some b) = b

-- createRequest; a body of no bytes is left out.
unfoldable pub create_request :
    {Req World : Type 0} → Client Req World → Text → Text → Headers → Text → Result Text Req
create_request client method url headers body = do
  req ← client.new_request method url (if body == [] then none else some body)
  ok (client.set_header headers req)

abbrev pub failure : Text → Details → Failure
failure r d = record { reason = r; details = d }

-- `v == value` for decoded JSON; two maps or two slices cannot be compared, which is a panic.
unfoldable pub any_equal : (ℕ → ℕ → Bool) → Value → Value → Attempt Bool
any_equal float_eq null null = returned true
any_equal float_eq (boolean true) (boolean true) = returned true
any_equal float_eq (boolean false) (boolean false) = returned true
any_equal float_eq (float x) (float y) = returned (float_eq x y)
any_equal float_eq (string s) (string t) = returned (s == t)
any_equal float_eq (dict d) (dict e) = panicked (text "comparing uncomparable type")
any_equal float_eq (list d) (list e) = panicked (text "comparing uncomparable type")
any_equal float_eq _ _ = returned false

abbrev pub found_or : Attempt Bool → Attempt Bool → Attempt Bool
found_or (panicked p) rest = panicked p
found_or (returned true) rest = returned true
found_or (returned false) rest = rest

-- The loop over the expected values.
unfoldable pub find_value : (ℕ → ℕ → Bool) → Value → List Value → Attempt Bool
unfolding any_equal
find_value float_eq value [] = returned false
find_value float_eq value (v ∷ vs) =
    found_or (any_equal float_eq v value) (find_value float_eq value vs)

abbrev pub as_found : Value → Attempt Bool → Attempt (Result Failure Value)
as_found res (panicked p) = panicked p
as_found res (returned true) = returned (ok res)
as_found res (returned false) = returned (err (failure (text "412") (response res)))

-- The type assertion of ext.JP[any], which fails on nil.
abbrev pub as_any : Value → Option Value
as_any null = none
as_any v = some v

-- The test of the response against the path and the values. A null at the path is refused.
unfoldable pub check_path : (ℕ → ℕ → Bool) → Assert → Value → Attempt (Result Failure Value)
unfolding find_value
check_path float_eq a res =
    if a.path == [] then returned (ok res) else (elim (jp as_any res a.path) [
      | err e ↦ returned (err (failure (text "412") (response res)))
      | ok value ↦ elim a.value [
        | none ↦ returned (ok res)
        | some vs ↦ as_found res (find_value float_eq value vs)
      ]
    ])

-- The status codes that the response may have.
abbrev pub expected_codes : Assert → List ℤ
expected_codes a = or_else (pos 200 ∷ pos 201 ∷ pos 202 ∷ []) a.status_codes

module _ {Req World : Type 0} (client : Client Req World) where
  open client use {marshal, send, write, decode, float_eq}

  -- The body's bytes; a nil body has none.
  abbrev pub body_bytes : Value → Result Text Text
  body_bytes null = ok []
  body_bytes v = marshal v

  abbrev pub bytes_length : Text → ℤ
  bytes_length b = pos (length b)

  -- The request that is sent, or the text of an error.
  unfoldable pub build_request : JsonRequest → Result Text Req
  unfolding default_headers create_request
  build_request r = do
    b ← body_bytes r.body
    create_request client r.method r.url (default_headers (bytes_length b) (or_else [] r.headers)) b

  -- What is made of the response.
  unfoldable pub read_response : Assert → Response → Attempt (Result Failure Value)
  unfolding check_path
  read_response a res =
      let codes = expected_codes a in
      if contains (res.status_code) codes
      then (elim (decode res.body) [
        | err e ↦ returned (err (failure (text "400") (not_json e)))
        | ok v ↦ check_path float_eq a v
      ])
      else returned (err (failure (itoa res.status_code) (bad_status codes res.status_code)))

  abbrev pub sent : Assert → Result Text Response × World → Attempt (Result Failure Value) × World
  sent a (err e, w) = (returned (err (failure code_unknown (error_text e))), w)
  sent a (ok res, w) = (read_response a res, w)

  -- DoJSON
  unfoldable pub do_json : JsonRequest → World → Attempt (Result Failure Value) × World
  unfolding build_request read_response
  do_json r w = elim (build_request r) [
    | err e ↦ (returned (err (failure code_invalid_argument (error_text e))), w)
    | ok req ↦ sent r.checks (send req w)
  ]

  abbrev pub written : Result Text Response × World → Result Failure Text × World
  written (err e, w) = (err (failure code_unknown (error_text e)), w)
  written (ok res, w) = elim (write res) [
    | err e ↦ (err (failure code_internal (error_text e)), w)
    | ok b ↦ (ok b, w)
  ]

  -- Do, with do
  unfoldable pub do_request : Text → Text → Headers → Text → World → Result Failure Text × World
  unfolding create_request
  do_request method url headers body w = elim (create_request client method url headers body) [
    | err e ↦ (err (failure code_invalid_argument (error_text e)), w)
    | ok req ↦ written (send req w)
  ]
