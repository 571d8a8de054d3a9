-- ===== src/Headers/Tests.antt =====
-- The theorem on headers, at a converter that marks its payloads.
use starlark_worker.Prelude.{
  ◌≡◌, refl, [], ◌∷◌, Text, text, nat_eq, list_eq, list_beq, lookup, Result, ok, err,
}
use starlark_worker.Service.Lifecycle.{returned, panicked}
use starlark_worker.Headers.{
  HeaderMap, absent, headers, cad_inject, cad_extract, Payloads, temp_inject, temp_extract,
}
use starlark_worker.Headers.Trip.{IsMap, extract-inject}

abbrev unmarked : Text → Result Text Text
unmarked [] = err (text "no payload")
unmarked (c ∷ s) = ok s

abbrev marking : Payloads Text Text
marking = record { to_payload = λ v. ok (b'#' ∷ v); from_payload = unmarked }

abbrev two : HeaderMap Text
two = (text "a", text "1") ∷ (text "b", text "2") ∷ []

two-IsMap : IsMap two
unfolding lookup list_beq
two-IsMap = (refl, (refl, tt))

extract-inject_example :
    ((fields : HeaderMap Text) × (cad_inject (headers two) [] ≡ returned fields)
      × (cad_extract fields ≡ headers two))
    × ((fields : HeaderMap Text) × (temp_inject marking (headers two) [] ≡ returned (ok fields))
        × (temp_extract marking fields ≡ ok (headers two)))
extract-inject_example = extract-inject marking (λ v. (b'#' ∷ v, refl, refl)) two two-IsMap

-- Without headers in the context, Inject is a panic.
no_headers : cad_inject absent [] ≡ panicked (text "interface conversion")
unfolding cad_inject
no_headers = refl
