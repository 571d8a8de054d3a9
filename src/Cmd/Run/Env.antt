-- ===== src/Cmd/Run/Env.antt =====
-- The environment that the command `run` of cmd/cadence_client_main/main.go makes of its flags.
use starlark_worker.Prelude.{
  ℕ, ◌≡◌, refl, sym, ap, ◌∙◌, Option, none, some, List, [], ◌∷◌, ◌++◌, map, Text, ◌==◌, nat_eq,
  list_eq, if◌then◌else◌, ok, err, ◌>>=◌, Lacks, All, beq_refl,
}
use mathlib.Core.List.{append-nil}
use starlark_worker.Star.Values.{Value, string, Fields, empty, get_field, set_field}
use starlark_worker.Star.Dataclass.Maps.{get_field-set_field}
use starlark_worker.Cmd.Run.{bad_env, cut, set_env, parse_env}

-- The text of a variable.
abbrev pub entry : Text × Text → Text
entry (k, v) = k ++ b'=' ∷ v

-- The last value under a name, if there is one.
abbrev pub last_value : Text → Option Value → List (Text × Text) → Option Value
last_value name now [] = now
last_value name now ((k, v) ∷ kvs) =
    last_value name (if k == name then some (string v) else now) kvs

cut-Lacks : (sep : ℕ) (k v : Text) → Lacks sep k → cut sep (k ++ sep ∷ v) ≡ some (k, v)
cut-Lacks sep [] v h = rw (beq_refl sep) refl
cut-Lacks sep (c ∷ k) v h = rw (h.0, cut-Lacks sep k v h.1) refl

cut-none : (sep : ℕ) (s : Text) → Lacks sep s → cut sep s ≡ none
cut-none sep [] h = refl
cut-none sep (c ∷ s) h = rw (h.0, cut-none sep s h.1) refl

abbrev set_variables : List (Text × Text) → Fields → Fields
set_variables [] env = env
set_variables ((k, v) ∷ kvs) env = set_variables kvs (set_field k (string v) env)

get_field-set_variables :
    (name : Text) (kvs : List (Text × Text)) (env : Fields)
    → get_field name (set_variables kvs env) ≡ last_value name (get_field name env) kvs
get_field-set_variables name [] env = refl
get_field-set_variables name ((k, v) ∷ kvs) env =
    get_field-set_variables name kvs (set_field k (string v) env)
    ∙ ap (λ now. last_value name now kvs) (get_field-set_field k name (string v) env)

set_env-entries :
    {E : Type 0} (kvs : List (Text × Text)) (rest : List Text) (env : Fields)
    → All (λ kv. Lacks b'=' kv.0) kvs
    → set_env {E = E} (map entry kvs ++ rest) env ≡ set_env rest (set_variables kvs env)
unfolding set_env
set_env-entries [] rest env h = refl
set_env-entries ((k, v) ∷ kvs) rest env (l, h) =
    rw (cut-Lacks b'=' k v l, set_env) (set_env-entries kvs rest (set_field k (string v) env) h)

-- Of variables written as `name=value`, the name without `=`, the environment has under each name
-- its last value, and nothing under another name; the value may have `=` in it. A text without `=`
-- behind such variables is a fatal error that names it.
pub parse_env-entries :
    {E : Type 0} (first : Text × Text) (kvs : List (Text × Text)) (name bad : Text)
    (rest : List Text)
    → All (λ kv. Lacks b'=' kv.0) (first ∷ kvs)
    → Lacks b'=' bad
    → ((env : Fields) × (parse_env {E = E} (map entry (first ∷ kvs)) ≡ ok (some env))
        × (get_field name env ≡ last_value name none (first ∷ kvs)))
      × (parse_env {E = E} (map entry (first ∷ kvs) ++ bad ∷ rest) ≡ err (bad_env bad))
unfolding parse_env set_env
parse_env-entries {E = E} first kvs name bad rest h b =
    let all = first ∷ kvs in
    let alone : set_env {E = E} (map entry all) empty ≡ ok (set_variables all empty) =
      ap (λ l. set_env l empty) (sym (append-nil (map entry all)))
      ∙ set_env-entries all [] empty h in
    let refused : set_env {E = E} (map entry all ++ bad ∷ rest) empty ≡ err (bad_env bad) =
      set_env-entries all (bad ∷ rest) empty h ∙ rw (cut-none b'=' bad b, set_env) refl in
    (
      (
        set_variables (first ∷ kvs) empty,
        ap (λ r. r >>= λ env. ok (some env)) alone,
        get_field-set_variables name (first ∷ kvs) empty,
      ),
      ap (λ r. r >>= λ env. ok (some env)) refused,
    )
