-- ===== src/Plugin/RunState/Scripts.antt =====
-- The exit hooks that a script's calls of plugin/atexit/module.go leave registered.
use starlark_worker.Prelude.{
  ℕ, ◌≡◌, refl, some, List, [], ◌∷◌, ◌++◌, Text, ok, err, Result-cases, inl, inr,
}
use starlark_worker.Star.Values.{Value}
use starlark_worker.Service.Lifecycle.{Attempt, returned, panicked}
use starlark_worker.Service.ExitHooks.{ExitHooks, Hook, view}
use starlark_worker.Service.ExitHooks.View.{
  IsValid, remove_first, unregister-view, unregister-IsValid,
}
use starlark_worker.Service.ExitHooks.Register.{register-view, register-IsValid}
use starlark_worker.Plugin.RunState.{callee, register, unregister}

pub data Call : Type 0 where
  registers : List Value → List (Text × Value) → Call
  unregisters : List Value → Call

abbrev pub goes_on :
    Attempt Value × ExitHooks Value
    → (ExitHooks Value → Attempt (Unit {0}) × ExitHooks Value)
    → Attempt (Unit {0}) × ExitHooks Value
goes_on (panicked p, st) rest = (panicked p, st)
goes_on (returned v, st) rest = rest st

-- The calls of a script, up to the first panic.
unfoldable pub script : (ℕ → ℕ) → List Call → ExitHooks Value → Attempt (Unit {0}) × ExitHooks Value
unfolding register unregister
script spare [] st = (returned tt, st)
script spare (registers args kwargs ∷ cs) st =
    goes_on (register spare args kwargs st) (script spare cs)
script spare (unregisters args ∷ cs) st = goes_on (unregister args st) (script spare cs)

-- The same on the list of the hooks, oldest first: a registration is added behind, an unregistration
-- takes away the first hook of its callable.
abbrev pub hooks_of : List Call → List (Hook Value) → Attempt (Unit {0}) × List (Hook Value)
hooks_of [] hs = (returned tt, hs)
hooks_of (registers args kwargs ∷ cs) hs = elim (callee args) [
  | err p ↦ (panicked p, hs)
  | ok (fn, rest) ↦ hooks_of cs (hs ++ record { fn = fn; args = rest; kwargs = kwargs } ∷ [])
]
hooks_of (unregisters args ∷ cs) hs = elim (callee args) [
  | err p ↦ (panicked p, hs)
  | ok (fn, rest) ↦ hooks_of cs (remove_first fn hs)
]

-- Whatever a script calls on a valid registry, its calls end as they do on the list of hooks, with the
-- same panic or none, and leave the registry valid, with the hooks of that list.
pub script-hooks_of :
    (spare : ℕ → ℕ) (cs : List Call) (st : ExitHooks Value)
    → IsValid st
    → ((script spare cs st).0 ≡ (hooks_of cs (view st)).0)
      × ((view (script spare cs st).1 ≡ (hooks_of cs (view st)).1) × IsValid (script spare cs st).1)
unfolding script register unregister
script-hooks_of spare [] st v = (refl, (refl, v))
script-hooks_of spare (registers args kwargs ∷ cs) st v = elim (Result-cases (callee args)) [
  | inl (p, e) ↦ rw (script, hooks_of, register, e) (refl, (refl, v))
  | inr ((fn, rest), e) ↦
      rw (script, hooks_of, register, e, ← register-view spare st v fn rest kwargs)
        (script-hooks_of spare cs _ (register-IsValid spare st v (some fn) rest kwargs))
]
script-hooks_of spare (unregisters args ∷ cs) st v = elim (Result-cases (callee args)) [
  | inl (p, e) ↦ rw (script, hooks_of, unregister, e) (refl, (refl, v))
  | inr ((fn, rest), e) ↦
      rw (script, hooks_of, unregister, e, ← unregister-view st v fn)
        (script-hooks_of spare cs _ (unregister-IsValid st v fn))
]
