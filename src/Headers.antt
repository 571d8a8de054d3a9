-- ===== src/Headers.antt =====
-- cadence/headers_context_propagator.go and temporal/headers_context_propagator.go: the headers of a
-- context, written to a call's header and read from it where the call arrives. The header of a call is
-- a map, as the SDKs' writers and readers keep it. A context is what it has under the headers' key; a
-- workflow context and a plain one are treated alike.
pub mod Trip
mod Tests
use starlark_worker.Prelude.{
  Option, none, some, List, [], ◌∷◌, Text, text, nat_eq, list_eq, Result, ok, err, ◌>>=◌, insert,
}
use starlark_worker.Service.Lifecycle.{Attempt, returned, panicked}

abbrev pub HeaderMap : Type 0 → Type 0
HeaderMap V = List (Text × V)

-- The value of a context under the key of the headers: there is none, it is a map of headers, or
-- it is of another type.
pub data Held : Type 0 where
  absent : Held
  headers : HeaderMap Text → Held
  other : Held

-- GetContextHeaders: the type assertion panics if the context has no headers.
unfoldable pub get_context_headers : Held → Attempt (HeaderMap Text)
get_context_headers (headers h) = returned h
get_context_headers _ = panicked (text "interface conversion")

-- The loop of Cadence's `inject` over the headers.
unfoldable pub set_headers : HeaderMap Text → HeaderMap Text → HeaderMap Text
set_headers [] fields = fields
set_headers ((k, v) ∷ h) fields = set_headers h (insert k v fields)

abbrev pub on_headers : {R : Type 0} → Attempt (HeaderMap Text) → (HeaderMap Text → R) → Attempt R
on_headers (panicked p) call = panicked p
on_headers (returned h) call = returned (call h)

-- Inject and InjectFromWorkflow of Cadence, with the fields that the writer has.
unfoldable pub cad_inject : Held → HeaderMap Text → Attempt (HeaderMap Text)
unfolding get_context_headers set_headers
cad_inject ctx fields = on_headers (get_context_headers ctx) (λ h. set_headers h fields)

-- readHeaders of Cadence, with the headers read so far.
unfoldable pub cad_read_headers : HeaderMap Text → HeaderMap Text → HeaderMap Text
cad_read_headers [] h = h
cad_read_headers ((k, v) ∷ fields) h = cad_read_headers fields (insert k v h)

-- Extract and ExtractToWorkflow of Cadence.
unfoldable pub cad_extract : HeaderMap Text → Held
unfolding cad_read_headers
cad_extract fields = headers (cad_read_headers fields [])

-- ToPayload and FromPayload of Temporal's default data converter, for bytes.
pub record Payloads (P E : Type 0) : Type 0 where
  pub to_payload : Text → Result E P
  pub from_payload : P → Result E Text

module _ {P E : Type 0} (payloads : Payloads P E) where
  open payloads use {to_payload, from_payload}

  -- The loop of Temporal's `inject`.
  unfoldable pub set_payloads : HeaderMap Text → HeaderMap P → Result E (HeaderMap P)
  set_payloads [] fields = ok fields
  set_payloads ((k, v) ∷ h) fields = to_payload v >>= λ p. set_payloads h (insert k p fields)

  -- Inject and InjectFromWorkflow of Temporal; a nil map has no headers to write.
  unfoldable pub temp_inject : Held → HeaderMap P → Attempt (Result E (HeaderMap P))
  unfolding get_context_headers set_payloads
  temp_inject ctx fields = on_headers (get_context_headers ctx) (λ h. set_payloads h fields)

  -- readHeaders of Temporal.
  unfoldable pub temp_read_headers : HeaderMap P → HeaderMap Text → Result E (HeaderMap Text)
  temp_read_headers [] h = ok h
  temp_read_headers ((k, p) ∷ fields) h =
      from_payload p >>= λ v. temp_read_headers fields (insert k v h)

  -- Extract and ExtractToWorkflow of Temporal.
  unfoldable pub temp_extract : HeaderMap P → Result E Held
  unfolding temp_read_headers
  temp_extract fields = temp_read_headers fields [] >>= λ h. ok (headers h)
