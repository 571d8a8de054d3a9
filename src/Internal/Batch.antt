-- ===== src/Internal/Batch.antt =====
-- internal/temporalbatch/batchfuture/batch_future.go: the goroutines of a batch future, as steps
-- between the channel operations at which the workflow's scheduler can switch. The channels are
-- those of the Temporal SDK: a Send to a buffered channel waits for room, or hands over to a waiting
-- receiver; a channel without a buffer only hands over.
pub mod Counts
pub mod Progress
pub mod Slices
mod Tests
use starlark_worker.Prelude.{ℕ, zero, suc, ◌+◌, ◌<◌, ◌≡◌, List, [], ◌∷◌, ◌++◌}

-- Where the submitter is, in its loop over the factories: at `semaphore.Send`, at `workChan.Send`, or
-- behind the loop, with the channel closed.
pub data Submitter : Type 0 where
  at_semaphore at_work closed : Submitter

-- Where the processor is: at `workChan.Receive`, at `wgForFutures.Wait`, or at its end.
pub data Processor : Type 0 where
  receiving waiting ended : Processor

-- `next` is the loop variable of the submitter, `tokens` counts what is in the semaphore's buffer.
-- The processor has started the factories `started`; those goroutines are in `f.Get`, in
-- `semaphore.Receive` or at their end.
pub record Batch : Type 0 where
  pub submitter : Submitter
  pub next : ℕ
  pub tokens : ℕ
  pub processor : Processor
  pub started : List ℕ
  pub in_get : List ℕ
  pub in_receive : List ℕ
  pub finished : List ℕ

-- NewBatchFuture and `start`, before the goroutines run.
abbrev pub start : Batch
start = record {
  submitter = at_semaphore;
  next = 0;
  tokens = 0;
  processor = receiving;
  started = [];
  in_get = [];
  in_receive = [];
  finished = [];
}

-- A step of one goroutine, for `n` factories and the batch size `size`; `resolve` is a future that
-- gets its value or its error.
pub data Step (n size : ℕ) : Batch → Batch → Type 0 where
  acquire :
      (s : Batch)
      → s.submitter ≡ at_semaphore
      → s.next < n
      → s.tokens < size
      → Step n size s (record s { submitter = at_work; tokens = s.tokens + 1 })
  hand_over :
      (s : Batch) (xs ys : List ℕ) (j : ℕ)
      → s.submitter ≡ at_semaphore
      → s.next < n
      → s.tokens ≡ 0
      → s.in_receive ≡ xs ++ j ∷ ys
      → Step n size s
          (record s { submitter = at_work; in_receive = xs ++ ys; finished = j ∷ s.finished })
  pass :
      (s : Batch)
      → s.submitter ≡ at_work
      → s.processor ≡ receiving
      → Step n size s (record s {
        submitter = at_semaphore;
        next = s.next + 1;
        started = s.started ++ s.next ∷ [];
        in_get = s.next ∷ s.in_get;
      })
  close :
      (s : Batch)
      → s.submitter ≡ at_semaphore
      → s.next ≡ n
      → Step n size s (record s { submitter = closed })
  resolve :
      (s : Batch) (xs ys : List ℕ) (j : ℕ)
      → s.in_get ≡ xs ++ j ∷ ys
      → Step n size s (record s { in_get = xs ++ ys; in_receive = j ∷ s.in_receive })
  release :
      (s : Batch) (xs ys : List ℕ) (j left : ℕ)
      → s.in_receive ≡ xs ++ j ∷ ys
      → s.tokens ≡ suc left
      → Step n size s (record s { tokens = left; in_receive = xs ++ ys; finished = j ∷ s.finished })
  drain :
      (s : Batch)
      → s.submitter ≡ closed
      → s.processor ≡ receiving
      → Step n size s (record s { processor = waiting })
  end :
      (s : Batch)
      → s.processor ≡ waiting
      → s.in_get ≡ []
      → s.in_receive ≡ []
      → Step n size s (record s { processor = ended })

pub data Steps (n size : ℕ) : Batch → Batch → Type 0 where
  stop : {s : Batch} → Steps n size s s
  step : {s t u : Batch} → Step n size s t → Steps n size t u → Steps n size s u
