-- ===== src/Service/Threads/Tests.antt =====
-- The theorems on threads and times at concrete values.
use starlark_worker.Prelude.{
  pos, ◌≡◌, refl, some, List, [], ◌∷◌, ◌++◌, Text, text, nat_eq, list_eq, list_beq, ok, atoi,
}
use starlark_worker.Star.Values.{string, empty, field, get_field}
use starlark_worker.Service.Threads.{starlark_time, RunInfo, get_effective_time}
use starlark_worker.Service.Threads.Logs.{prints, recent, prints-recent}

abbrev messages : List Text
messages = text "a" ∷ text "b" ∷ text "c" ∷ []

prints-recent_example : prints (pos 2) messages [] ≡ recent (pos 2) messages
prints-recent_example = prints-recent (pos 2) messages

-- a run at the time 1970-01-01 00:01:40
abbrev altered : RunInfo
altered = record {
  environ = field starlark_time (string (text "unix:100")) empty;
  sys_time = pos 5;
}

altered_time : get_effective_time altered ≡ ok (pos 100000000000)
unfolding get_effective_time list_beq atoi
altered_time = refl

altered_environ :
    get_field starlark_time altered.environ ≡ some (string (text "unix" ++ b':' ∷ text "100"))
unfolding list_beq
altered_environ = refl
