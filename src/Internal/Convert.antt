-- ===== src/Internal/Convert.antt =====
-- The data converters: values to bytes and back, CadenceDataConverter of
-- internal/internal_cadence.go and TemporalDataConverter of internal/internal_temporal.go. What is
-- written to the outputs before an error is left out.
pub mod Trip
mod Tests
use starlark_worker.Prelude.{
  ℕ, zero, suc, Bool, true, false, Option, none, some, List, [], ◌∷◌, ◌++◌, Text, ◌==◌, nat_eq,
  if◌then◌else◌, Result, ok, err, ◌>>=◌,
}
use starlark_worker.Star.Values.{bytes}
use starlark_worker.Star.Errors.{Err, unsupported_type}
use starlark_worker.Star.Codec.{
  Json, Input, value, Out, raw_out, bytes_out, unsupported_out, Decoded, got_raw, got_value, encode,
  decode,
}

-- An argument that is not nil: one that star.Encode tells apart, a []byte, a *[]byte, a
-- *starlark.Bytes, or another Go value.
pub data Arg (G : Type 0) : Type 0 where
  star : Input → Arg G
  raw raw_pointer bytes_pointer : Text → Arg G
  go : G → Arg G

-- An output: a pointer that star.Decode takes, or a pointer to a Go type that it refuses.
pub data Dest (T : Type 0) : Type 0 where
  star_out : Out → Dest T
  go_out : T → Dest T

-- What was written to an output.
pub data Got (G : Type 0) : Type 0 where
  got : Decoded → Got G
  got_go : G → Got G

-- An error of jsoniter, io.EOF, or the panic of an index out of range.
pub data ConvertErr : Type 0 where
  json_err eof index_panic : ConvertErr

-- jsoniter's Marshal and Unmarshal, and what starlarkjson makes of a *starlark.Bytes.
pub record GoJson (G T : Type 0) : Type 0 where
  pub marshal : Arg G → Option Text
  pub unmarshal : Text → Dest T → Option (Got G)
  pub encode_bytes_pointer : Text → Result Err Text

abbrev pub or_json_err : {A : Type 0} → Option A → Result ConvertErr A
or_json_err none = err json_err
or_json_err (some a) = ok a

-- cadenceDelimiter, temporalDelimiter
abbrev pub delimiter : ℕ
delimiter = 10

-- The lines of ReadBytes, without their delimiters; an empty rest at the end of the data is no line.
unfoldable pub lines : Text → List Text
lines [] = []
lines (c ∷ s) =
    if c == delimiter
    then [] ∷ lines s
    else (elim (lines s) [ [] ↦ (c ∷ []) ∷ [] | l ∷ ls ↦ (c ∷ l) ∷ ls ])

-- The first line of ReadBytes, without its delimiter.
unfoldable pub first_line : Text → Text
first_line [] = []
first_line (c ∷ s) = if c == delimiter then [] else c ∷ first_line s

module _ {G T : Type 0} (json : Json) (go_json : GoJson G T) where
  open go_json use {marshal, unmarshal, encode_bytes_pointer}

  -- star.Encode of an argument
  unfoldable pub star_encode : Arg G → Result Err Text
  star_encode (star i) = encode json i
  star_encode (bytes_pointer s) = encode_bytes_pointer s
  star_encode _ = err unsupported_type

  -- star.Encode, and jsoniter if that fails: star.UnsupportedTypeError is an interface type that every
  -- error implements, so the type assertion holds of every error.
  unfoldable pub encode_arg : Arg G → Result ConvertErr Text
  unfolding star_encode
  encode_arg v = elim (star_encode v) [ ok b ↦ ok b | err e ↦ or_json_err (marshal v) ]

  -- star.Decode to an output
  unfoldable pub star_decode : Text → Dest T → Result Err (Got G)
  star_decode line (star_out o) = do d ← decode json line o; ok (got d)
  star_decode line (go_out t) = do d ← decode json line unsupported_out; ok (got d)

  -- star.Decode, and jsoniter if that fails, whatever the error.
  unfoldable pub decode_dest : Text → Dest T → Result ConvertErr (Got G)
  unfolding star_decode
  decode_dest line out = elim (star_decode line out) [
    | ok g ↦ ok g
    | err e ↦ or_json_err (unmarshal line out)
  ]

  -- The bytes that ToData passes on as they are.
  abbrev pub lone_bytes : List (Arg G) → Option Text
  lone_bytes (raw b ∷ []) = some b
  lone_bytes (star (value (bytes b)) ∷ []) = some b
  lone_bytes _ = none

  -- The loop of ToData
  unfoldable pub encode_lines : List (Arg G) → Result ConvertErr Text
  encode_lines [] = ok []
  encode_lines (v ∷ vs) = do b ← encode_arg v; rest ← encode_lines vs; ok (b ++ delimiter ∷ rest)

  -- CadenceDataConverter.ToData
  unfoldable pub to_data : List (Arg G) → Result ConvertErr Text
  unfolding encode_lines
  to_data vs = elim (lone_bytes vs) [ some b ↦ ok b | none ↦ encode_lines vs ]

  -- The output that FromData sets to the data as they are.
  abbrev pub lone_out : List (Dest T) → Option (Text → Got G)
  lone_out (star_out raw_out ∷ []) = some (λ s. got (got_raw s))
  lone_out (star_out bytes_out ∷ []) = some (λ s. got (got_value (bytes s)))
  lone_out _ = none

  -- The loop of FromData over the lines
  unfoldable pub decode_lines : List Text → List (Dest T) → Result ConvertErr (List (Got G))
  decode_lines [] to = ok []
  decode_lines (line ∷ rest) [] = err index_panic
  decode_lines (line ∷ rest) (out ∷ to) = do
    g ← decode_dest line out
    gs ← decode_lines rest to
    ok (g ∷ gs)

  -- CadenceDataConverter.FromData: what the outputs are set to, from the first on.
  unfoldable pub from_data : Text → List (Dest T) → Result ConvertErr (List (Got G))
  unfolding decode_lines
  from_data s to = elim (lone_out to) [ some f ↦ ok (f s ∷ []) | none ↦ decode_lines (lines s) to ]

  -- TemporalDataConverter.ToPayload
  unfoldable pub to_payload : Arg G → Result ConvertErr Text
  to_payload v = do b ← encode_arg v; ok (b ++ delimiter ∷ [])

  -- TemporalDataConverter.FromPayload
  unfoldable pub from_payload : Text → Dest T → Result ConvertErr (Got G)
  from_payload payload out = decode_dest (first_line payload) out

  -- The bytes that ToPayloads passes on as they are.
  abbrev pub lone_pointer : List (Arg G) → Option Text
  lone_pointer (raw_pointer b ∷ []) = some b
  lone_pointer (bytes_pointer b ∷ []) = some b
  lone_pointer _ = none

  -- The loop of ToPayloads
  unfoldable pub payloads_of : List (Arg G) → Result ConvertErr (List Text)
  unfolding to_payload
  payloads_of [] = ok []
  payloads_of (v ∷ vs) = do p ← to_payload v; ps ← payloads_of vs; ok (p ∷ ps)

  -- TemporalDataConverter.ToPayloads
  unfoldable pub to_payloads : List (Arg G) → Result ConvertErr (List Text)
  unfolding payloads_of
  to_payloads vs = elim (lone_pointer vs) [ some b ↦ ok (b ∷ []) | none ↦ payloads_of vs ]

  -- TemporalDataConverter.FromPayloads
  unfoldable pub from_payloads : List Text → List (Dest T) → Result ConvertErr (List (Got G))
  unfolding from_payload
  from_payloads ps [] = ok []
  from_payloads [] (out ∷ to) = err eof
  from_payloads (p ∷ ps) (out ∷ to) = do
    g ← from_payload p out
    gs ← from_payloads ps to
    ok (g ∷ gs)
