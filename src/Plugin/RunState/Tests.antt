-- ===== src/Plugin/RunState/Tests.antt =====
-- The theorem on the exit hooks of a script at a concrete script.
use starlark_worker.Prelude.{◌≡◌, List, [], ◌∷◌, text, arith, nat_eq}
use starlark_worker.Star.Values.{Value, string, callable}
use starlark_worker.Service.Lifecycle.{panicked}
use starlark_worker.Service.ExitHooks.{ExitHooks, new, view}
use starlark_worker.Service.ExitHooks.View.{IsValid}
use starlark_worker.Plugin.RunState.Scripts.{Call, registers, unregisters, script, script-hooks_of}

-- Two hooks, the first taken away again, and a call with a string for a callable.
abbrev calls : List Call
calls =
    registers (callable 1 ∷ string (text "a") ∷ []) []
    ∷ registers (callable 2 ∷ []) []
    ∷ unregisters (callable 1 ∷ [])
    ∷ registers (string (text "f") ∷ []) []
    ∷ registers (callable 3 ∷ []) []
    ∷ []

abbrev no_hooks : ExitHooks Value
no_hooks = new

no_hooks-IsValid : IsValid no_hooks
no_hooks-IsValid = omega arith

script-hooks_of_example :
    ((script (λ n. n) calls no_hooks).0 ≡ panicked (text "interface conversion"))
    × ((view (script (λ n. n) calls no_hooks).1 ≡ record { fn = 2; args = []; kwargs = [] } ∷ [])
        × IsValid (script (λ n. n) calls no_hooks).1)
script-hooks_of_example = script-hooks_of (λ n. n) calls no_hooks no_hooks-IsValid
