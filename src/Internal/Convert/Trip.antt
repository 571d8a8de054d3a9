-- ===== src/Internal/Convert/Trip.antt =====
-- What the converters read back from what they wrote.
use starlark_worker.Prelude.{
  ◌≡◌, refl, ◌∙◌, none, List, [], ◌∷◌, ◌++◌, Text, Lacks, ok, err, ◌>>=◌, nat_eq, >>=_ok, >>=_assoc,
}
use mathlib.Core.List.{append-nil}
use starlark_worker.Star.Codec.{Json}
use starlark_worker.Internal.Convert.{
  Arg, Dest, Got, index_panic, eof, GoJson, delimiter, lines, first_line, encode_arg, decode_dest,
  lone_bytes, encode_lines, to_data, lone_out, decode_lines, from_data, to_payload, from_payload,
  lone_pointer, payloads_of, to_payloads, from_payloads,
}

lines-append : (b s : Text) → Lacks delimiter b → lines (b ++ delimiter ∷ s) ≡ b ∷ lines s
unfolding lines
lines-append [] s h = refl
lines-append (c ∷ b) s h = rw (h.0, lines-append b s h.1)

first_line-append : (b s : Text) → Lacks delimiter b → first_line (b ++ delimiter ∷ s) ≡ b
unfolding first_line
first_line-append [] s h = refl
first_line-append (c ∷ b) s h = rw (h.0, first_line-append b s h.1)

module _ {G T : Type 0} (json : Json) (go_json : GoJson G T) where
  -- Each argument has an encoding of one line, which decodes to what the output at its place gets.
  pub data Trips : List (Arg G) → List (Dest T) → List (Got G) → Type 0 where
    done : Trips [] [] []
    next :
        {v : Arg G} {vs : List (Arg G)} {out : Dest T} {to : List (Dest T)} {g : Got G}
        {gs : List (Got G)} {b : Text}
        → encode_arg json go_json v ≡ ok b
        → Lacks delimiter b
        → decode_dest json go_json b out ≡ ok g
        → Trips vs to gs
        → Trips (v ∷ vs) (out ∷ to) (g ∷ gs)

  -- With `vs` written before it, a text that is read to `more` gives the outputs of both.
  encode_lines-Trips :
      {vs : List (Arg G)} {to : List (Dest T)} {gs : List (Got G)}
      → Trips vs to gs
      → (rest : List (Arg G)) (t : Text) (others : List (Dest T))
      → encode_lines json go_json rest ≡ ok t
      → (s : Text) × (encode_lines json go_json (vs ++ rest) ≡ ok s)
        × (decode_lines json go_json (lines s) (to ++ others)
            ≡ (decode_lines json go_json (lines t) others >>= λ more. ok (gs ++ more)))
  unfolding encode_lines decode_lines
  encode_lines-Trips done rest t others e =
      (t, e, >>=_ok (decode_lines json go_json (lines t) others))
  encode_lines-Trips (next {b = b} u l d trips) rest t others e =
      let (s, f, r) = encode_lines-Trips trips rest t others e in
      (
        b ++ delimiter ∷ s,
        rw (u, f) refl,
        rw (lines-append b s l, d, r) (>>=_assoc (decode_lines json go_json (lines t) others) _ _),
      )

  payloads_of-Trips :
      {vs : List (Arg G)} {to : List (Dest T)} {gs : List (Got G)}
      → Trips vs to gs
      → (rest : List (Arg G)) (qs : List Text) (others : List (Dest T))
      → payloads_of json go_json rest ≡ ok qs
      → (ps : List Text) × (payloads_of json go_json (vs ++ rest) ≡ ok ps)
        × (from_payloads json go_json ps (to ++ others)
            ≡ (from_payloads json go_json qs others >>= λ more. ok (gs ++ more)))
  unfolding payloads_of from_payloads to_payload from_payload
  payloads_of-Trips done rest qs others e = (qs, e, >>=_ok (from_payloads json go_json qs others))
  payloads_of-Trips (next {b = b} u l d trips) rest qs others e =
      let (ps, f, r) = payloads_of-Trips trips rest qs others e in
      (
        (b ++ delimiter ∷ []) ∷ ps,
        rw (u, f) refl,
        rw (first_line-append b [] l, d, r) (>>=_assoc (from_payloads json go_json qs others) _ _),
      )

  encode_lines_one :
      (v : Arg G) (b : Text)
      → encode_arg json go_json v ≡ ok b
      → encode_lines json go_json (v ∷ []) ≡ ok (b ++ delimiter ∷ [])
  unfolding encode_lines
  encode_lines_one v b u = rw u refl

  payloads_of_one :
      (v : Arg G) (b : Text)
      → encode_arg json go_json v ≡ ok b
      → payloads_of json go_json (v ∷ []) ≡ ok ((b ++ delimiter ∷ []) ∷ [])
  unfolding payloads_of to_payload
  payloads_of_one v b u = rw u refl

  to_data-lines :
      (vs : List (Arg G))
      → lone_bytes json go_json vs ≡ none
      → to_data json go_json vs ≡ encode_lines json go_json vs
  unfolding to_data
  to_data-lines vs h = rw (h, to_data) refl

  from_data-lines :
      (s : Text) (to : List (Dest T))
      → lone_out json go_json to ≡ none
      → from_data json go_json s to ≡ decode_lines json go_json (lines s) to
  unfolding from_data
  from_data-lines s to h = rw (h, from_data) refl

  to_payloads-of :
      (vs : List (Arg G))
      → lone_pointer json go_json vs ≡ none
      → to_payloads json go_json vs ≡ payloads_of json go_json vs
  unfolding to_payloads
  to_payloads-of vs h = rw (h, to_payloads) refl

  -- The arguments are read back from what Cadence's converter wrote for them, each as its output
  -- reads it, if each argument has an encoding of one line that its output decodes, and neither
  -- side is a lone byte string.
  pub from_data-to_data :
      (vs : List (Arg G)) (to : List (Dest T)) (gs : List (Got G))
      → Trips vs to gs
      → lone_bytes json go_json vs ≡ none
      → lone_out json go_json to ≡ none
      → (s : Text) × (to_data json go_json vs ≡ ok s) × (from_data json go_json s to ≡ ok gs)
  unfolding to_data from_data lines
  from_data-to_data vs to gs trips no_bytes no_out =
      let (s, f, r) = encode_lines-Trips trips [] [] [] refl in
      (
        s,
        to_data-lines vs no_bytes ∙ (rw (append-nil vs) at f),
        from_data-lines s to no_out ∙ (rw (append-nil to, append-nil gs) at r),
      )

  -- The arguments are read back from the payloads that Temporal's converter made of them, each as
  -- its output reads it, if each argument has an encoding of one line that its output decodes, and
  -- they are not one pointer to bytes.
  pub from_payloads-to_payloads :
      (vs : List (Arg G)) (to : List (Dest T)) (gs : List (Got G))
      → Trips vs to gs
      → lone_pointer json go_json vs ≡ none
      → (ps : List Text) × (to_payloads json go_json vs ≡ ok ps)
        × (from_payloads json go_json ps to ≡ ok gs)
  unfolding to_payloads from_payloads
  from_payloads-to_payloads vs to gs trips no_pointer =
      let (ps, f, r) = payloads_of-Trips trips [] [] [] refl in
      (
        ps,
        to_payloads-of vs no_pointer ∙ (rw (append-nil vs) at f),
        rw (append-nil to, append-nil gs) at r,
      )

  -- With one argument more than outputs, Cadence's converter panics where Temporal's ignores it, if
  -- that argument has an encoding of one line as the others have.
  pub surplus_argument :
      (vs : List (Arg G)) (to : List (Dest T)) (gs : List (Got G)) (v : Arg G) (b : Text)
      → Trips vs to gs
      → encode_arg json go_json v ≡ ok b
      → Lacks delimiter b
      → lone_bytes json go_json (vs ++ v ∷ []) ≡ none
      → lone_out json go_json to ≡ none
      → lone_pointer json go_json (vs ++ v ∷ []) ≡ none
      → ((s : Text) × (to_data json go_json (vs ++ v ∷ []) ≡ ok s)
          × (from_data json go_json s to ≡ err index_panic))
        × ((ps : List Text) × (to_payloads json go_json (vs ++ v ∷ []) ≡ ok ps)
            × (from_payloads json go_json ps to ≡ ok gs))
  unfolding to_data from_data decode_lines to_payloads from_payloads
  surplus_argument vs to gs v b trips u l no_bytes no_out no_pointer =
      let (s, f, r) = encode_lines-Trips trips (v ∷ []) _ [] (encode_lines_one v b u) in
      let (ps, g, q) = payloads_of-Trips trips (v ∷ []) _ [] (payloads_of_one v b u) in
      (
        (
          s,
          to_data-lines (vs ++ v ∷ []) no_bytes ∙ f,
          from_data-lines s to no_out ∙ ((rw (append-nil to, lines-append b [] l) at r) ∙ refl),
        ),
        (ps, to_payloads-of (vs ++ v ∷ []) no_pointer ∙ g, rw (append-nil to, append-nil gs) at q),
      )

  -- With one output more than arguments, Cadence's converter leaves it unset without an error, where
  -- Temporal's returns io.EOF.
  pub surplus_output :
      (vs : List (Arg G)) (to : List (Dest T)) (gs : List (Got G)) (out : Dest T)
      → Trips vs to gs
      → lone_bytes json go_json vs ≡ none
      → lone_out json go_json (to ++ out ∷ []) ≡ none
      → lone_pointer json go_json vs ≡ none
      → ((s : Text) × (to_data json go_json vs ≡ ok s)
          × (from_data json go_json s (to ++ out ∷ []) ≡ ok gs))
        × ((ps : List Text) × (to_payloads json go_json vs ≡ ok ps)
            × (from_payloads json go_json ps (to ++ out ∷ []) ≡ err eof))
  unfolding to_data from_data decode_lines to_payloads from_payloads lines
  surplus_output vs to gs out trips no_bytes no_out no_pointer =
      let (s, f, r) = encode_lines-Trips trips [] [] (out ∷ []) refl in
      let (ps, g, q) = payloads_of-Trips trips [] [] (out ∷ []) refl in
      (
        (
          s,
          to_data-lines vs no_bytes ∙ (rw (append-nil vs) at f),
          from_data-lines s (to ++ out ∷ []) no_out ∙ (rw (append-nil gs) at r),
        ),
        (ps, to_payloads-of vs no_pointer ∙ (rw (append-nil vs) at g), q),
      )
