-- ===== src/Internal/Batch/Tests.antt =====
-- The theorems on batch futures at concrete values.
use starlark_worker.Prelude.{
  ℕ, ◌+◌, ◌≤◌, ◌≡◌, refl, inr, Option, none, some, List, [], ◌∷◌, Result, ok, err, if◌then◌else◌,
  leb, length, arith,
}
use starlark_worker.Internal.Batch.{
  at_work, ended, Batch, start, Step, acquire, pass, Steps, stop, step,
}
use starlark_worker.Internal.Batch.Counts.{upto, Steps-bound}
use starlark_worker.Internal.Batch.Progress.{Steps_finish}
use starlark_worker.Internal.Batch.Slices.{slice, returned, get, InOrder, get_returns}

abbrev acquired : Batch
acquired = record start { submitter = at_work; tokens = 1 }

abbrev one_running : Batch
one_running = record start { next = 1; tokens = 1; started = 0 ∷ []; in_get = 0 ∷ [] }

first : Step 2 1 start acquired
first = acquire start refl (omega arith) (omega arith)

two_steps : Steps 2 1 start one_running
two_steps = step first (step (pass acquired refl refl) stop)

Steps-bound_example :
    (length one_running.in_get + length one_running.in_receive ≤ 1)
    × (one_running.started ≡ upto one_running.next)
    × (one_running.next ≤ 2)
Steps-bound_example = Steps-bound 2 1 one_running two_steps

Steps_finish_example :
    (t : Batch) × Steps 2 1 one_running t
    × (t.processor ≡ ended)
    × (t.started ≡ upto 2)
    × (length t.finished ≡ 2)
Steps_finish_example = Steps_finish 2 1 one_running (omega arith) two_steps

abbrev results : List (Result ℕ ℕ)
results = ok 7 ∷ err 1 ∷ ok 8 ∷ err 2 ∷ []

-- growing that takes what it needs, and keeps what is enough
abbrev grow : ℕ → ℕ → ℕ → ℕ
grow len cap extra = if leb (len + extra) cap then cap else len + extra

grow_room : (len cap extra : ℕ) → len + extra ≤ grow len cap extra
grow_room len cap extra = ground arith

grow_keeps : (len cap extra : ℕ) → len + extra ≤ cap → grow len cap extra ≡ cap
grow_keeps len cap extra h = ground arith

-- The second and the fourth future failed.
get_returns_example :
    (values : List (Option ℕ)) × (es : List ℕ) × (get grow (slice 0 0) results ≡ returned values es)
    × InOrder results values es
get_returns_example = get_returns grow grow_room 0 0 results (inr refl)

read_back :
    get grow (slice 0 0) results ≡ returned (some 7 ∷ none ∷ some 8 ∷ none ∷ []) (1 ∷ 2 ∷ [])
unfolding get
read_back = refl
