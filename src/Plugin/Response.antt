-- ===== src/Plugin/Response.antt =====
-- plugin/request/module.go and plugin/request/response.go: the call `do` of a script, and the response that it gets.
-- The unpacking of the arguments and logging are left out; http.ReadResponse is a parameter.
pub mod Reads
mod Tests
use starlark_worker.Prelude.{
  ℕ, ℤ, pos, Option, none, some, List, [], ◌∷◌, Text, text, Result, ok, err, ◌>>=◌,
}
use starlark_worker.Star.Values.{Value, null, int, string}
use starlark_worker.Star.Errors.{Err}
use starlark_worker.Star.Codec.{Json, value_out, got_value, decode}

-- An http.Response: its status, and what is left to read of its body; a reader that fails does so
-- behind these bytes.
pub record Response : Type 0 where
  pub status_code : ℤ
  pub unread : Text
  pub read_error : Option Text

-- The engine: the activity `Do`, Get of its future as bytes, and http.ReadResponse.
pub record Requests (Ctx Future E World : Type 0) : Type 0 where
  pub execute_do : Ctx → List Value → World → Future × World
  pub get_bytes : Future → Ctx → World → Result E Text × World
  pub read_response : Text → Result E Response

module _ {Ctx Future E World : Type 0} (requests : Requests Ctx Future E World) where
  open requests use {execute_do, get_bytes, read_response}

  abbrev read_of : Result E Text × World → Result E Response × World
  read_of (err e, w) = (err e, w)
  read_of (ok b, w) = (read_response b, w)

  -- getResponse
  unfoldable pub get_response : Ctx → Future × World → Result E Response × World
  get_response ctx (future, w) = read_of (get_bytes future ctx w)

  -- _do; a body or headers that are not given are None.
  unfoldable pub do_call :
      Ctx → Text → Text → Option Value → Option Value → World → Result E Response × World
  unfolding get_response
  do_call ctx method url body headers w = get_response ctx (
      execute_do ctx
        (string method
          ∷ string url
          ∷ (elim headers [ none ↦ null | some h ↦ h ])
          ∷ (elim body [ none ↦ null | some b ↦ b ])
          ∷ [])
        w)

-- io.ReadAll of the body, and the response behind it.
abbrev pub read_all : Response → Result Text Text × Response
read_all r = elim r.read_error [
  | none ↦ (ok r.unread, record r { unread = [] })
  | some e ↦ (err e, record r { unread = [] })
]

-- The error of reading the body, or of the codec.
pub data ResponseErr : Type 0 where
  not_read : Text → ResponseErr
  codec : Err → ResponseErr

module _ (json : Json) where
  abbrev pub decoded : Text → Result ResponseErr Value
  decoded body = elim (decode json body value_out) [
    | ok (got_value v) ↦ ok v
    | ok _ ↦ ok null
    | err e ↦ err (codec e)
  ]

  abbrev of_body : Result Text Text × Response → Result ResponseErr Value × Response
  of_body (err e, r) = (err (not_read e), r)
  of_body (ok body, r) = (decoded body, r)

  -- _json, with the response behind the call
  unfoldable pub response_json : Response → Result ResponseErr Value × Response
  response_json r = of_body (read_all r)

-- _statusCode
unfoldable pub response_status_code : Response → Value
response_status_code r = int r.status_code
