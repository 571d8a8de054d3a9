-- ===== src/Ext/JsonPath/Tests.antt =====
-- Paths of ext/json_path_test.go, and the theorems at one of them.
use starlark_worker.Prelude.{
  negsuc, ◌≡◌, refl, Option, none, some, List, [], ◌∷◌, ◌++◌, Text, text, ok, err, ◌>>=◌, atoi,
  list_beq, split, arith, All,
}
use starlark_worker.Star.Values.{Value, dict, list, string, nil, cons, empty, field}
use starlark_worker.Ext.JsonPath.{not_found, jp, parse_part, index}
use starlark_worker.Ext.JsonPath.Follow.{Step, IsStep, render, follow, assert_type, jp-render}

abbrev sample : Value
sample = dict (
    field (text "meta")
      (dict (
        field (text "notes")
          (list (cons (dict (field (text "text") (string (text "fox")) empty)) nil)) empty))
      empty)

abbrev as_string : Value → Option Text
as_string (string s) = some s
as_string v = none

got_string : jp as_string sample (text "meta.notes[0].text") ≡ ok (text "fox")
unfolding jp list_beq split parse_part index atoi
got_string = refl

missing : jp as_string sample (text "meta.notes[100]") ≡ err not_found
unfolding jp list_beq split parse_part index atoi
missing = refl

abbrev steps : List Step
steps =
    record { name = text "meta"; index = none }
    ∷ record { name = text "notes"; index = some (text "0", 0) }
    ∷ record { name = text "text"; index = none }
    ∷ []

steps-IsStep : All IsStep steps
unfolding list_beq atoi
steps-IsStep = (ground arith, (ground arith, (ground arith, tt)))

jp-render_example :
    (jp as_string sample (render steps) ≡ (follow sample steps >>= assert_type as_string))
    × (jp as_string sample (text "$." ++ render steps)
        ≡ (follow sample steps >>= assert_type as_string))
jp-render_example = jp-render as_string sample steps steps-IsStep refl refl refl

minus_two : atoi (text "-2") ≡ some (negsuc 1)
unfolding atoi
minus_two = refl
