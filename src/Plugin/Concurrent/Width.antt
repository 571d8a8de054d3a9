-- ===== src/Plugin/Concurrent/Width.antt =====
-- What batchRun of plugin/concurrent/module.go asks the engine for.
use starlark_worker.Prelude.{
  ℕ, suc, ◌+◌, ℤ, pos, ◌≡◌, refl, ap, inl, inr, none, some, List, [], ◌∷◌, ◌++◌, map, ◌==◌, nat_eq,
  int_eq, if◌then◌else◌, ok, err, Bool-cases, length, arith,
}
use starlark_worker.Plugin.Concurrent.{Callable, Engine, as_callables, factory, batch_run}

-- How many callables may run at once: all, if no bound is given.
abbrev pub width : ℕ → ℕ → ℕ
width max_concurrency n = if max_concurrency == 0 then n else max_concurrency

module _ {V Kwargs Future Settable BatchFuture Thread Error World : Type 0}
    (engine : Engine V Kwargs Future Settable BatchFuture Thread Error World) where
  open engine use {new_batch_future, not_callable, as_callable, object}

  module _ (object_callable : (c : Callable V) → as_callable (object c) ≡ some c) where
    as_callables-map :
        (i : ℕ) (cs : List (Callable V)) → as_callables engine i (map object cs) ≡ ok cs
    unfolding as_callables
    as_callables-map i [] = refl
    as_callables-map i (c ∷ cs) = rw (object_callable c, as_callables-map (suc i) cs) refl

    as_callables_refused :
        (i : ℕ) (cs : List (Callable V)) (item : V) (items : List V)
        → as_callable item ≡ none
        → as_callables engine i (map object cs ++ item ∷ items)
          ≡ err (not_callable (i + length cs) item)
    unfolding as_callables
    as_callables_refused i [] item items h =
        rw h (ap (λ n. err (not_callable n item)) (omega arith))
    as_callables_refused i (c ∷ cs) item items h =
        rw (object_callable c, as_callables_refused (suc i) cs item items h)
          (ap (λ n. err (not_callable n item)) (omega arith))

    -- Of callables, with a `max_concurrency` that is not negative, batch_run asks the engine for a batch
    -- with the batch size `max_concurrency`, or as many as there are callables if that is 0.
    batch_run-map :
        (cs : List (Callable V)) (m : ℕ) (w : World)
        → batch_run engine (map object cs) (pos m) w
          ≡ new_batch_future (pos (width m (length cs))) (map (factory engine) cs) w
    unfolding batch_run
    batch_run-map cs m w = elim (Bool-cases (m == 0)) [
      | inl e ↦ rw (as_callables-map 0 cs, e, batch_run) refl
      | inr e ↦ rw (as_callables-map 0 cs, e, batch_run) refl
    ]

    -- A list with an item that is no callable is refused, with the error of the first one and its
    -- index, and the engine is not asked for anything.
    pub batch_run_refused :
        (cs : List (Callable V)) (item : V) (items : List V) (max_concurrency : ℤ) (w : World)
        → as_callable item ≡ none
        → batch_run engine (map object cs ++ item ∷ items) max_concurrency w
          ≡ (err (not_callable (length cs) item), w)
    unfolding batch_run
    batch_run_refused cs item items max_concurrency w h =
        rw (as_callables_refused 0 cs item items h, batch_run)
          (ap (λ n. (err (not_callable n item), w)) (omega arith))
