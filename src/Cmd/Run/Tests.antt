-- ===== src/Cmd/Run/Tests.antt =====
-- The environment of the command `run`, at a few variables.
use starlark_worker.Prelude.{
  ◌≡◌, refl, some, [], ◌∷◌, Text, text, nat_eq, list_eq, list_beq, ok, err,
}
use starlark_worker.Star.Values.{string, Fields, empty, field, get_field}
use starlark_worker.Cmd.Run.{bad_env, parse_env}
use starlark_worker.Cmd.Run.Env.{parse_env-entries}

parsed :
    parse_env {E = Text} (text "A=1" ∷ text "B=x=y" ∷ [])
    ≡ ok
        (some (field (text "A") (string (text "1")) (field (text "B") (string (text "x=y")) empty)))
unfolding parse_env list_beq
parsed = refl

parse_env-entries_example :
    ((env : Fields) × (parse_env {E = Text} (text "A=1" ∷ text "A=x=y" ∷ []) ≡ ok (some env))
      × (get_field (text "A") env ≡ some (string (text "x=y"))))
    × (parse_env {E = Text} (text "A=1" ∷ text "A=x=y" ∷ text "C" ∷ []) ≡ err (bad_env (text "C")))
unfolding list_beq
parse_env-entries_example =
    parse_env-entries (text "A", text "1") ((text "A", text "x=y") ∷ []) (text "A") (text "C") []
      ((refl, tt), ((refl, tt), tt)) (refl, tt)
