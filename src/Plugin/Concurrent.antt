-- ===== src/Plugin/Concurrent.antt =====
-- plugin/concurrent/module.go and plugin/concurrent/callable.go: functions of a script that run
-- beside it. The engine's calls of workflow/workflow.go, the threads of service/thread.go and
-- starlark.Call are parameters; `World` is their state.
pub mod Width
mod Tests
use starlark_worker.Prelude.{
  ℕ, suc, ◌+◌, ℤ, pos, Bool, true, false, Option, none, some, List, [], ◌∷◌, map, Text, text, ◌==◌,
  nat_eq, int_eq, if◌then◌else◌, Result, ok, err, ◌>>=◌, length,
}
use starlark_worker.Service.Lifecycle.{Attempt, returned, panicked}

-- callable
pub record Callable (V : Type 0) : Type 0 where
  pub fn : V
  pub args : List V

-- What the module calls. `is_function` and `as_callable` are the type assertions to
-- starlark.Callable and to *callable, `object` makes such an object. `call` is starlark.Call in the thread, of a function or of another value,
-- which is an error of the interpreter.
pub record Engine (V Kwargs Future Settable BatchFuture Thread Error World : Type 0) : Type 0 where
  pub new_future : World → (Future × Settable) × World
  pub go : (World → World) → World → World
  pub create_thread : World → Thread × World
  pub call : Thread → V → List V → Kwargs → World → Result Error V × World
  pub set : Settable → Result Error V → World → World
  pub no_kwargs : Kwargs
  pub new_batch_future :
      ℤ → List (World → Future × World) → World → Result Error BatchFuture × World
  pub not_callable : ℕ → V → Error
  pub is_function : V → Bool
  pub as_callable : V → Option (Callable V)
  pub object : Callable V → V

module _ {V Kwargs Future Settable BatchFuture Thread Error World : Type 0}
    (engine : Engine V Kwargs Future Settable BatchFuture Thread Error World) where
  open engine use {
    new_future, go, create_thread, call, set, no_kwargs, new_batch_future, not_callable,
    is_function, as_callable, object,
  }

  -- The goroutine: the call in a thread of its own, and its result for the future.
  unfoldable pub call_and_set : Settable → V → List V → Kwargs → World → World
  call_and_set settable fn args kwargs w =
      let (thread, w1) = create_thread w in
      let (res, w2) = call thread fn args kwargs w1 in set settable res w2

  -- A future, and the goroutine that sets it.
  unfoldable pub fork : V → List V → Kwargs → World → Future × World
  unfolding call_and_set
  fork fn args kwargs w =
      let ((future, settable), w1) = new_future w in
      (future, go (call_and_set settable fn args kwargs) w1)

  -- run
  unfoldable pub run : List V → Kwargs → World → Attempt (Future × World)
  unfolding fork
  run [] kwargs w = panicked (text "index out of range")
  run (fn ∷ args) kwargs w = returned (fork fn args kwargs w)

  -- newCallable
  unfoldable pub new_callable : List V → Attempt V
  new_callable [] = panicked (text "index out of range")
  new_callable (fn ∷ args) =
      if is_function fn
      then returned (object (record { fn = fn; args = args }))
      else panicked (text "interface conversion")

  -- The callables of the list from the index `i` on, or the error of the first item that is none.
  unfoldable pub as_callables : ℕ → List V → Result Error (List (Callable V))
  as_callables i [] = ok []
  as_callables i (item ∷ items) =
      let others = as_callables (suc i) items in
      elim (as_callable item) [
        | none ↦ err (not_callable i item)
        | some c ↦ do cs ← others; ok (c ∷ cs)
      ]

  -- The factory of a callable.
  unfoldable pub factory : Callable V → World → Future × World
  unfolding fork
  factory c = fork c.fn c.args no_kwargs

  -- batchRun, behind the unpacking of its arguments
  unfoldable pub batch_run : List V → ℤ → World → Result Error BatchFuture × World
  unfolding as_callables factory
  batch_run items max_concurrency w = elim (as_callables 0 items) [
    | err e ↦ (err e, w)
    | ok cs ↦
        let size = if max_concurrency == pos 0 then pos (length cs) else max_concurrency in
        new_batch_future size (map factory cs) w
  ]
