-- ===== src/Internal/Batch/Counts.antt =====
-- How many futures of a batch run at once.
use starlark_worker.Prelude.{
  ℕ, zero, suc, ◌+◌, ◌≤◌, ◌≡◌, refl, sym, ap, ◌∙◌, List, [], ◌∷◌, ◌++◌, length, arith,
}
use starlark_worker.Internal.Batch.{
  Submitter, at_semaphore, at_work, closed, Processor, receiving, waiting, ended, Batch, start,
  Step, acquire, hand_over, pass, close, resolve, release, drain, end, Steps, stop, step,
}

-- The submitter holds a token that no goroutine has yet.
abbrev pub pending : Submitter → ℕ
pending at_work = 1
pending _ = 0

-- The numbers below `n`, in their order.
abbrev pub upto : ℕ → List ℕ
upto zero = []
upto (suc n) = upto n ++ n ∷ []

upto_next : (i : ℕ) → upto (i + 1) ≡ upto i ++ i ∷ []
upto_next i = ap upto {x = i + 1} {y = suc i} (omega arith)

-- The processor leaves its loop only behind the submitter.
abbrev pub Listens : Processor → Submitter → Type 0
Listens receiving p = Unit
Listens _ p = p ≡ closed

-- The processor ends with no goroutine left.
abbrev pub Rests : Processor → List ℕ → List ℕ → Type 0
Rests ended xs ys = (xs ≡ []) × (ys ≡ [])
Rests _ xs ys = Unit

-- Each token in the semaphore is that of one goroutine, or the submitter's.
pub record Counted (n size : ℕ) (s : Batch) : Type 0 where
  pub tokens_held : s.tokens ≡ length s.in_get + length s.in_receive + pending s.submitter
  pub tokens_bound : s.tokens ≤ size
  pub next_bound : s.next + pending s.submitter ≤ n
  pub all_submitted : s.submitter ≡ closed → s.next ≡ n
  pub listens : Listens s.processor s.submitter
  pub rests : Rests s.processor s.in_get s.in_receive
  pub started_upto : s.started ≡ upto s.next
  pub next_count : s.next ≡ length s.in_get + length s.in_receive + length s.finished

pub length-remove :
    (zs xs ys : List ℕ) (j : ℕ) → zs ≡ xs ++ j ∷ ys → length zs ≡ suc (length (xs ++ ys))
length-remove zs [] ys j e = ap length e
length-remove zs (x ∷ xs) ys j e = ap length e ∙ ap suc (length-remove (xs ++ j ∷ ys) xs ys j refl)

pub start-Counted : (n size : ℕ) → Counted n size start
start-Counted n size = record {
  tokens_held = refl;
  tokens_bound = omega arith;
  next_bound = omega arith;
  all_submitted = λ h. cc;
  listens = tt;
  rests = tt;
  started_upto = refl;
  next_count = refl;
}

-- A processor that another submitter state would let out of its loop is still in it.
in_loop_still : (p : Processor) (b c : Submitter) → Listens p b → (b ≡ closed → ⊥) → Listens p c
in_loop_still receiving b c h k = tt
in_loop_still waiting b c h k = absurd (k h)
in_loop_still ended b c h k = absurd (k h)

-- A processor that has not ended, as one that receives, has no rest to keep.
rest_while_receiving : (p : Processor) (xs ys : List ℕ) → p ≡ receiving → Rests p xs ys
rest_while_receiving receiving xs ys e = tt
rest_while_receiving waiting xs ys e = tt
rest_while_receiving ended xs ys e = absurd (ended-receiving e)
  where
    ended-receiving : ended ≡ receiving → ⊥
    ended-receiving h = cc

-- With a goroutine left, the processor has not ended, whatever becomes of the lists.
rest_with_goroutine :
    (p : Processor) {xs ys : List ℕ} (zs ws : List ℕ)
    → Rests p xs ys
    → ((xs ≡ []) × (ys ≡ []) → ⊥)
    → Rests p zs ws
rest_with_goroutine receiving zs ws r h = tt
rest_with_goroutine waiting zs ws r h = tt
rest_with_goroutine ended zs ws r h = absurd (h r)

cons-nil : (xs ys : List ℕ) (j : ℕ) → xs ++ j ∷ ys ≡ [] → ⊥
cons-nil [] ys j h = cc
cons-nil (x ∷ xs) ys j h = cc

pub Step-Counted :
    {n size : ℕ} {s t : Batch} → Step n size s t → Counted n size s → Counted n size t
Step-Counted {n = n} (acquire s e l r) k =
    let p : pending s.submitter ≡ 0 = ap pending e in
    record {
      tokens_held = rw (k.tokens_held, p) (omega arith);
      tokens_bound = omega arith;
      next_bound = omega arith;
      all_submitted = λ h. cc;
      listens = in_loop_still s.processor s.submitter at_work k.listens (λ h. cc);
      rests = k.rests;
      started_upto = k.started_upto;
      next_count = k.next_count;
    }
Step-Counted (hand_over s xs ys j e l z r) k =
    let m = length-remove s.in_receive xs ys j r in let held = k.tokens_held in absurd (omega arith)
Step-Counted (pass s e q) k =
    let p : pending s.submitter ≡ 1 = ap pending e in
    let held = k.tokens_held in
    let bound = k.next_bound in
    let count = k.next_count in
    record {
      tokens_held = omega arith;
      tokens_bound = k.tokens_bound;
      next_bound = omega arith;
      all_submitted = λ h. cc;
      listens = in_loop_still s.processor s.submitter at_semaphore k.listens (λ h. cc);
      rests = rest_while_receiving s.processor _ _ q;
      started_upto = ap (λ l. l ++ s.next ∷ []) k.started_upto ∙ sym (upto_next s.next);
      next_count = omega arith;
    }
Step-Counted (close s e q) k =
    let p : pending s.submitter ≡ 0 = ap pending e in
    let held = k.tokens_held in
    let bound = k.next_bound in
    record {
      tokens_held = omega arith;
      tokens_bound = k.tokens_bound;
      next_bound = omega arith;
      all_submitted = λ h. q;
      listens = in_loop_still s.processor s.submitter closed k.listens (λ h. cc);
      rests = k.rests;
      started_upto = k.started_upto;
      next_count = k.next_count;
    }
Step-Counted (resolve s xs ys j e) k =
    let m = length-remove s.in_get xs ys j e in
    let held = k.tokens_held in
    let count = k.next_count in
    record {
      tokens_held = omega arith;
      tokens_bound = k.tokens_bound;
      next_bound = k.next_bound;
      all_submitted = k.all_submitted;
      listens = k.listens;
      rests = rest_with_goroutine s.processor _ _ k.rests (λ h. cons-nil xs ys j (sym e ∙ h.0));
      started_upto = k.started_upto;
      next_count = omega arith;
    }
Step-Counted (release s xs ys j left e z) k =
    let m = length-remove s.in_receive xs ys j e in
    let held = k.tokens_held in
    let bound = k.tokens_bound in
    let count = k.next_count in
    record {
      tokens_held = omega arith;
      tokens_bound = omega arith;
      next_bound = k.next_bound;
      all_submitted = k.all_submitted;
      listens = k.listens;
      rests = rest_with_goroutine s.processor _ _ k.rests (λ h. cons-nil xs ys j (sym e ∙ h.1));
      started_upto = k.started_upto;
      next_count = omega arith;
    }
Step-Counted (drain s e q) k = record {
  tokens_held = k.tokens_held;
  tokens_bound = k.tokens_bound;
  next_bound = k.next_bound;
  all_submitted = k.all_submitted;
  listens = e;
  rests = tt;
  started_upto = k.started_upto;
  next_count = k.next_count;
}
Step-Counted (end s e g r) k = record {
  tokens_held = k.tokens_held;
  tokens_bound = k.tokens_bound;
  next_bound = k.next_bound;
  all_submitted = k.all_submitted;
  listens = rw e at k.listens;
  rests = (g, r);
  started_upto = k.started_upto;
  next_count = k.next_count;
}

pub Steps-Counted :
    {n size : ℕ} {s t : Batch} → Steps n size s t → Counted n size s → Counted n size t
Steps-Counted stop k = k
Steps-Counted (step a steps) k = Steps-Counted steps (Step-Counted a k)

-- However the goroutines are scheduled, at most `size` futures of a batch are started and not
-- through their goroutine, and the factories are started in their order, each once.
pub Steps-bound :
    (n size : ℕ) (s : Batch)
    → Steps n size start s
    → (length s.in_get + length s.in_receive ≤ size) × (s.started ≡ upto s.next) × (s.next ≤ n)
Steps-bound n size s steps =
    let k = Steps-Counted steps (start-Counted n size) in
    let held = k.tokens_held in
    let bound = k.tokens_bound in
    let below = k.next_bound in (omega arith, k.started_upto, omega arith)
