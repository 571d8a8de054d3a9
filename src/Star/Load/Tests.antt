-- ===== src/Star/Load/Tests.antt =====
-- Runs of the model of star/star.go, and its theorems at concrete values.
use starlark_worker.Prelude.{
  ◌≡◌, refl, false, some, List, [], ◌∷◌, Text, text, ◌==◌, nat_eq, list_eq, list_beq, if◌then◌else◌,
  Result, ok, err,
}
use starlark_worker.Star.Errors.{Err, not_exist}
use starlark_worker.Star.Values.{null, string, Fields, empty, field}
use starlark_worker.Star.Load.{
  is_script, Loader, thread_load, CallableObject, callable_attr, set_callable_attr,
}
use starlark_worker.Star.Load.Dispatch.{thread_load_no_script, callable_attr-set}

abbrev loader : Loader
loader = record {
  read = λ p. ok p;
  exec = λ p s. ok (field (text "main") (string s) empty);
  decode = λ s. ok (string s);
}

abbrev no_exec : Text → Text → Result Err Fields
no_exec p s = err (not_exist p)

abbrev table : List (Text × Fields)
table = (text "json", field (text "dumps") null empty) ∷ []

data_file : is_script (text "a.txt") ≡ false
unfolding list_beq
data_file = refl

thread_load_no_script_example :
    thread_load loader table (text "a.txt")
    ≡ thread_load (record loader { exec = no_exec }) table (text "a.txt")
thread_load_no_script_example = thread_load_no_script loader no_exec table (text "a.txt") data_file

abbrev object : CallableObject
object = record { src = 0; attrs = empty }

callable_attr-set_example :
    callable_attr (set_callable_attr object (text "a") null) (text "b")
    ≡ (if text "a" == text "b" then some null else callable_attr object (text "b"))
callable_attr-set_example = callable_attr-set object (text "a") (text "b") null
