-- ===== src/Plugin/RunState.antt =====
-- plugin/atexit/module.go, plugin/progress/module.go and plugin/os/module.go: the modules that reach the globals
-- of a run, service/service.go. Logging and the unpacking of report's argument are left out.
pub mod Scripts
mod Tests
use starlark_worker.Prelude.{ℕ, some, List, [], ◌∷◌, ◌++◌, Text, text, Result, ok, err}
use starlark_worker.Star.Values.{Value, Fields, null, string, callable, dict}
use starlark_worker.Service.Lifecycle.{Attempt, returned, panicked}
use starlark_worker.Service.ExitHooks.{ExitHooks}
use starlark_worker.Service.ExitHooks

-- `args[0].(starlark.Callable)` and `args[1:]`, or the panic.
abbrev pub callee : List Value → Result Text (ℕ × List Value)
callee [] = err (text "index out of range")
callee (callable fn ∷ args) = ok (fn, args)
callee (_ ∷ args) = err (text "interface conversion")

-- register of atexit; `spare` is what Go adds to the length of an array that grows.
unfoldable pub register :
    (ℕ → ℕ) → List Value → List (Text × Value) → ExitHooks Value → Attempt Value × ExitHooks Value
register spare args kwargs st = elim (callee args) [
  | err p ↦ (panicked p, st)
  | ok (fn, rest) ↦ (returned null, ExitHooks.register spare (some fn) rest kwargs st)
]

-- unregister of atexit
unfoldable pub unregister : List Value → ExitHooks Value → Attempt Value × ExitHooks Value
unregister args st = elim (callee args) [
  | err p ↦ (panicked p, st)
  | ok (fn, rest) ↦ (returned null, ExitHooks.unregister fn st)
]

-- The states of a task, as the properties of the module progress give them.
abbrev pub task_states : List (Text × Value)
task_states =
    (text "task_state_running", string (text "RUNNING"))
    ∷ (text "task_state_pending", string (text "PENDING"))
    ∷ (text "task_state_succeeded", string (text "SUCCEEDED"))
    ∷ (text "task_state_failed", string (text "FAILED"))
    ∷ (text "task_state_killed", string (text "KILLED"))
    ∷ (text "task_state_skipped", string (text "SKIPPED"))
    ∷ []

-- Report, called by Go code
unfoldable pub report_text : Text → List Text → List Text
report_text progress_str progress = progress ++ progress_str ∷ []

-- report, called by scripts
unfoldable pub report : Text → List Text → Value × List Text
report progress_str progress = (null, progress ++ progress_str ∷ [])

-- environ of os: the dict of the run
unfoldable pub environ : Fields → Value
environ e = dict e
