-- ===== src/Internal/Batch/Progress.antt =====
-- That a batch comes to its end.
use starlark_worker.Prelude.{
  ℕ, zero, suc, ◌+◌, ◌-◌, ◌*◌, ◌≤◌, ◌<◌, ◌≡◌, refl, ap, ◌∙◌, ◌⊎◌, inl, inr, List, [], ◌∷◌, length,
  arith,
}
use starlark_worker.Internal.Batch.{
  Submitter, at_semaphore, at_work, closed, Processor, receiving, waiting, ended, Batch, start,
  Step, acquire, hand_over, pass, close, resolve, release, drain, end, Steps, stop, step,
}
use starlark_worker.Internal.Batch.Counts.{
  pending, upto, Rests, Counted, length-remove, start-Counted, Step-Counted, Steps-Counted,
}

abbrev submitter_weight : Submitter → ℕ
submitter_weight at_semaphore = 1
submitter_weight _ = 0

abbrev processor_weight : Processor → ℕ
processor_weight receiving = 2
processor_weight waiting = 1
processor_weight ended = 0

-- What is left to do.
abbrev pub measure : ℕ → Batch → ℕ
measure n s =
    5 * (n - s.next)
    + submitter_weight s.submitter
    + 2 * length s.in_get
    + length s.in_receive
    + processor_weight s.processor

-- Every step from a state in which the tokens are counted lowers the measure of what is left to do,
-- so a batch takes finitely many steps.
pub Step-measure :
    {n size : ℕ} {s t : Batch} → Counted n size s → Step n size s t → measure n t < measure n s
Step-measure k (acquire s e l r) = let p = ap submitter_weight e in omega arith
Step-measure k (hand_over s xs ys j e l z r) =
    let p = ap submitter_weight e in let m = length-remove s.in_receive xs ys j r in omega arith
Step-measure k (pass s e q) =
    let p = ap submitter_weight e in let w = ap pending e in let bound = k.next_bound in omega arith
Step-measure k (close s e q) = let p = ap submitter_weight e in omega arith
Step-measure k (resolve s xs ys j e) = let m = length-remove s.in_get xs ys j e in omega arith
Step-measure k (release s xs ys j left e z) =
    let m = length-remove s.in_receive xs ys j e in omega arith
Step-measure k (drain s e q) = let p = ap processor_weight q in omega arith
Step-measure k (end s e g r) = let p = ap processor_weight e in omega arith

Submitter-cases : (b : Submitter) → (b ≡ at_semaphore) ⊎ ((b ≡ at_work) ⊎ (b ≡ closed))
Submitter-cases at_semaphore = inl refl
Submitter-cases at_work = inr (inl refl)
Submitter-cases closed = inr (inr refl)

Processor-cases : (p : Processor) → (p ≡ receiving) ⊎ ((p ≡ waiting) ⊎ (p ≡ ended))
Processor-cases receiving = inl refl
Processor-cases waiting = inr (inl refl)
Processor-cases ended = inr (inr refl)

List-cases : (xs : List ℕ) → (xs ≡ []) ⊎ ((j : ℕ) × (ys : List ℕ) × (xs ≡ j ∷ ys))
List-cases [] = inl refl
List-cases (x ∷ xs) = inr (x, xs, refl)

compare_cases : (a b : ℕ) → a ≤ b → (a ≡ b) ⊎ (a < b)
compare_cases zero zero h = inl refl
compare_cases zero (suc b) h = inr (omega arith)
compare_cases (suc a) zero h = absurd (omega arith)
compare_cases (suc a) (suc b) h = elim (compare_cases a b (omega arith)) [
  | inl e ↦ inl (ap suc e)
  | inr l ↦ inr (omega arith)
]

predecessor : (a b : ℕ) → b < a → (c : ℕ) × (a ≡ suc c)
predecessor zero b h = absurd (omega arith)
predecessor (suc a) b h = (a, refl)

-- A goroutine that is left can step, if it has its token.
left_steps :
    {n size : ℕ} (s : Batch)
    → length s.in_get + length s.in_receive ≤ s.tokens
    → ((s.in_get ≡ []) × (s.in_receive ≡ [])) ⊎ ((t : Batch) × Step n size s t)
left_steps s h = elim (List-cases s.in_get) [
  | inr (j, ys, e) ↦ inr (_, resolve s [] ys j e)
  | inl g ↦ elim (List-cases s.in_receive) [
    | inl r ↦ inl (g, r)
    | inr (j, ys, e) ↦
        let m = ap length e in
        let (left, z) = predecessor s.tokens (length ys) (omega arith) in
        inr (_, release s [] ys j left e z)
  ]
]

-- A batch that has not ended can take a step, if the batch size is not 0.
pub progress :
    {n size : ℕ} (s : Batch)
    → 0 < size
    → Counted n size s
    → (s.processor ≡ ended) ⊎ ((t : Batch) × Step n size s t)
progress {n = n} {size = size} s pos k =
    let held = k.tokens_held in
    let bound = k.next_bound in
    elim (left_steps {n = n} {size = size} s (omega arith)) [
      | inr found ↦ inr found
      | inl (g, r) ↦
          let a = ap length g in
          let b = ap length r in
          elim (Submitter-cases s.submitter) [
            | inl e ↦
                let p = ap pending e in
                elim (compare_cases s.next n (omega arith)) [
                  | inl q ↦ inr (_, close s e q)
                  | inr l ↦ inr (_, acquire s e l (omega arith))
                ]
            | inr (inl e) ↦ elim (Processor-cases s.processor) [
              | inl q ↦ inr (_, pass s e q)
              | inr (inl q) ↦ absurd (work_open e (rw q at k.listens))
              | inr (inr q) ↦ inl q
            ]
            | inr (inr e) ↦ elim (Processor-cases s.processor) [
              | inl q ↦ inr (_, drain s e q)
              | inr (inl q) ↦ inr (_, end s q g r)
              | inr (inr q) ↦ inl q
            ]
          ]
    ]
  where
    work_open : {b : Submitter} → b ≡ at_work → b ≡ closed → ⊥
    work_open e h = cc

run_out :
    {n size : ℕ} (fuel : ℕ) (s : Batch)
    → 0 < size
    → Counted n size s
    → measure n s < fuel
    → (t : Batch) × Steps n size s t × (t.processor ≡ ended) × Counted n size t
run_out zero s pos k h = absurd (omega arith)
run_out (suc fuel) s pos k h = elim (progress s pos k) [
  | inl e ↦ (s, stop, e, k)
  | inr (t, a) ↦
      let m = Step-measure k a in
      let (u, steps, e, c) = run_out fuel t pos (Step-Counted a k) (omega arith) in
      (u, step a steps, e, c)
]

-- With a batch size above 0, a batch can always come to its end from wherever the scheduling has
-- led it: then every factory was started once, in their order, and its goroutine is through.
pub Steps_finish :
    (n size : ℕ) (s : Batch)
    → 0 < size
    → Steps n size start s
    → (t : Batch) × Steps n size s t
      × (t.processor ≡ ended)
      × (t.started ≡ upto n)
      × (length t.finished ≡ n)
Steps_finish n size s pos steps =
    let k = Steps-Counted steps (start-Counted n size) in
    let (t, more, e, c) = run_out (suc (measure n s)) s pos k (omega arith) in
    let all = c.all_submitted (rw e at c.listens) in
    let rests : Rests ended t.in_get t.in_receive = rw e at c.rests in
    let g = ap length rests.0 in
    let r = ap length rests.1 in
    let count = c.next_count in (t, more, e, c.started_upto ∙ ap upto all, omega arith)

-- With the batch size 0 and a factory to start, nothing ever happens: no goroutine of the batch can
-- take a step, so its Get waits for ever.
pub Steps_stuck : (n : ℕ) (s : Batch) → Steps (suc n) 0 start s → s ≡ start
Steps_stuck n s stop = refl
Steps_stuck n s (step a steps) = absurd (no_step a)
  where
    no_step : {t : Batch} → Step (suc n) 0 start t → ⊥
    no_step (acquire _ e l r) = omega arith
    no_step (hand_over _ [] ys j e l z r) = cc
    no_step (hand_over _ (x ∷ xs) ys j e l z r) = cc
    no_step (pass _ e q) = cc
    no_step (close _ e q) = cc
    no_step (resolve _ [] ys j e) = cc
    no_step (resolve _ (x ∷ xs) ys j e) = cc
    no_step (release _ [] ys j left e z) = cc
    no_step (release _ (x ∷ xs) ys j left e z) = cc
    no_step (drain _ e q) = cc
    no_step (end _ e g r) = cc
