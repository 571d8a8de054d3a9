-- ===== src/Service/ExitHooks/Tests.antt =====
-- Runs of the model of service/exit_hook.go, and the theorems at concrete registries.
use starlark_worker.Prelude.{
  ℕ, ◌+◌, String, ◌≡◌, ◌⊎◌, refl, false, none, some, List, [], ◌∷◌, reverse, ◌==◌, nat_eq,
  if◌then◌else◌, length, arith,
}
use starlark_worker.Service.ExitHooks.{
  Hook, ExitHooks, reg, unreg, Outcome, Ran, new, view, register, unregister, apply, apply_all, run,
  run_from,
}
use starlark_worker.Service.ExitHooks.View.{IsValid}
use starlark_worker.Service.ExitHooks.Runs.{RunsAll, Panics, SparesEarlier, run-RunsAll}
use starlark_worker.Service.ExitHooks.Shift.{run_twice}
use starlark_worker.Service.ExitHooks.Total.{APanic, run_total}

abbrev hook : ℕ → Hook ℕ
hook n = record { fn = n; args = n ∷ []; kwargs = [] }

-- three hooks in an array of capacity four
abbrev three : ExitHooks ℕ
three = record {
  heap = record { cells = hook 1 ∷ hook 2 ∷ hook 3 ∷ []; cap = 4 } ∷ [];
  hooks = record { addr = 0; len = 3 };
}

abbrev double : ℕ → ℕ
double n = n

-- Starting from the nil slice, doubling the array as it grows.
registered :
    view (register double (some 2) (2 ∷ []) [] (register double (some 1) (1 ∷ []) [] new))
    ≡ hook 1 ∷ hook 2 ∷ []
unfolding register
registered = refl

three-IsValid : IsValid three
three-IsValid = omega arith

-- hook 2 fails, and each hook registers another one
abbrev busy : Hook ℕ → ℕ → Outcome ℕ ℕ String
busy h w = record {
  panics = false;
  world = w + h.fn;
  ops = reg (some 9) [] [] ∷ [];
  error = if h.fn == 2 then some "boom" else none;
}

busy-SparesEarlier : SparesEarlier busy (view three)
busy-SparesEarlier pre post h w e = (tt, tt)

run-RunsAll_example :
    ((r : Ran ℕ ℕ String) × (run double busy three 0 ≡ some r)
      × RunsAll busy (reverse (view three)) 0 r)
    ⊎ ((run double busy three 0 ≡ none) × Panics busy (reverse (view three)) 0)
run-RunsAll_example = run-RunsAll double busy three 0 three-IsValid busy-SparesEarlier

-- every hook unregisters the callable 1
abbrev shifting : Hook ℕ → ℕ → Outcome ℕ ℕ String
shifting h w = record { panics = false; world = w; ops = unreg 1 ∷ []; error = none }

run_total_example :
    ((r : Ran ℕ ℕ String) × (run double shifting three 0 ≡ some r)
      × (length r.called ≡ length (view three))
      × IsValid r.state)
    ⊎ ((run double shifting three 0 ≡ none) × APanic double shifting)
run_total_example = run_total double shifting three 0 three-IsValid

run_twice_example :
    (r : Ran ℕ ℕ String) × (rest : List (Hook ℕ)) × (run double shifting three 0 ≡ some r)
    × (r.called ≡ hook 3 ∷ hook 3 ∷ rest)
run_twice_example =
    run_twice double shifting (λ h v. refl) three 0 1 0 1 (hook 3) three-IsValid refl refl refl
      (omega arith) refl

-- The hook 1 is never called, and 3 is called twice.
shifted :
    (elim (run double shifting three 0) [ none ↦ [] | some r ↦ r.called ])
    ≡ hook 3 ∷ hook 3 ∷ hook 2 ∷ []
unfolding run run_from apply apply_all unregister
shifted = refl

-- The hook 2 panics, as it registers without a callable: the run panics, and the hook 1 is not called.
abbrev panicking : Hook ℕ → ℕ → Outcome ℕ ℕ String
panicking h w = record { panics = h.fn == 2; world = w; ops = []; error = none }

panicked_run : run double panicking three 0 ≡ none
unfolding run run_from apply apply_all
panicked_run = refl
