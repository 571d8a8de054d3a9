-- ===== src/Plugin/Concurrent/Tests.antt =====
-- Runs of the model of plugin/concurrent/module.go, at a small engine.
use starlark_worker.Prelude.{
  ℕ, suc, ◌+◌, ℤ, pos, ◌≡◌, refl, true, Option, none, some, List, [], ◌∷◌, ap, map, int_eq, ok, err,
  length,
}
use starlark_worker.Star.Values.{Value, null, callable, tuple, cons, items_of, values_of}
use starlark_worker.Plugin.Concurrent.{Callable, Engine, batch_run}

-- A callable is a tuple of its function and its arguments.
abbrev as_callable : Value → Option (Callable Value)
as_callable (tuple (cons fn args)) = some (record { fn = fn; args = values_of args })
as_callable _ = none

abbrev object : Callable Value → Value
object c = tuple (cons c.fn (items_of c.args))

values_of-items_of : (vs : List Value) → values_of (items_of vs) ≡ vs
values_of-items_of [] = refl
values_of-items_of (v ∷ vs) = ap (λ l. v ∷ l) (values_of-items_of vs)

as_callable-object : (c : Callable Value) → as_callable (object c) ≡ some c
as_callable-object c = rw (values_of-items_of c.args) refl

-- The world counts the goroutines; a batch runs its factories one after the other.
abbrev engine : Engine Value (Unit {0}) ℕ ℕ ℤ (Unit {0}) ℕ ℕ
engine = record {
  new_future = λ w. ((w, w), w);
  go = λ body w. suc w;
  create_thread = λ w. (tt, w);
  call = λ thread fn args kwargs w. (ok fn, w);
  set = λ settable res w. w;
  no_kwargs = tt;
  new_batch_future = λ size factories w. (ok size, w + length factories);
  not_callable = λ i item. i;
  is_function = λ v. true;
  as_callable = as_callable;
  object = object;
}

abbrev two : List (Callable Value)
two = record { fn = callable 1; args = [] } ∷ record { fn = callable 2; args = null ∷ [] } ∷ []

-- Both run at once if no bound is given.
unbounded : batch_run engine (map object two) (pos 0) 0 ≡ (ok (pos 2), 2)
unfolding batch_run
unbounded = refl

bounded : batch_run engine (map object two) (pos 1) 0 ≡ (ok (pos 1), 2)
unfolding batch_run
bounded = refl

-- The error has the index of the item that is no callable.
refused :
    batch_run engine (object (record { fn = null; args = [] }) ∷ null ∷ []) (pos 0) 0 ≡ (err 1, 0)
unfolding batch_run
refused = refl
