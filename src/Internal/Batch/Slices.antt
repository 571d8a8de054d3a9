-- ===== src/Internal/Batch/Slices.antt =====
-- (*BatchFuture).Get and IsReady: how the results of a batch's futures get into the caller's slice.
use starlark_worker.Prelude.{
  ℕ, zero, suc, refl, ap, get_elem?, take, ◌+◌, ◌-◌, ◌≤◌, ◌<◌, ◌≡◌, ◌⊎◌, inl, inr, Bool, true, ◌&&◌,
  Option, none, some, List, [], ◌∷◌, Result, ok, err, if◌then◌else◌, ltb, leb, length, arith,
  Bool-cases,
}

-- What `valuePtr` is: nil, no pointer to a slice, or a pointer to one of that length and capacity.
pub data Pointer : Type 0 where
  nil_pointer not_slice : Pointer
  slice : (len capacity : ℕ) → Pointer

-- How Get ends: an error on `valuePtr`, a panic of SetLen, or the values that are set, a `none` being
-- a slot that is left, and the errors.
pub data Read (V E : Type 0) : Type 0 where
  refused panicked : Read V E
  returned : List (Option V) → List E → Read V E

-- (*BatchFuture).IsReady, from whether each future is ready.
unfoldable pub is_ready : List Bool → Bool
is_ready [] = true
is_ready (b ∷ bs) = b && is_ready bs

module _ {V E : Type 0} where
  -- The slots after the loop over the futures.
  abbrev pub slots : List (Result E V) → List (Option V)
  slots [] = []
  slots (ok v ∷ rs) = some v ∷ slots rs
  slots (err e ∷ rs) = none ∷ slots rs

  -- What multierr.Append collects in the loop.
  abbrev pub errors : List (Result E V) → List E
  errors [] = []
  errors (ok v ∷ rs) = errors rs
  errors (err e ∷ rs) = e ∷ errors rs

  -- How many of the futures failed.
  abbrev pub failures : List (Result E V) → ℕ
  failures [] = 0
  failures (ok v ∷ rs) = failures rs
  failures (err e ∷ rs) = suc (failures rs)

  -- Each value stands in the slot of its future, the slot of a failed future is left, and its error
  -- stands behind those of the futures before it.
  pub record InOrder (results : List (Result E V)) (values : List (Option V)) (es : List E)
      : Type 0 where
    pub length-values : length values ≡ length results
    pub length-errors : length es ≡ failures results
    pub value_at :
        (i : ℕ) (v : V) → get_elem? results i ≡ some (ok v) → get_elem? values i ≡ some (some v)
    pub left_at :
        (i : ℕ) (e : E) → get_elem? results i ≡ some (err e) → get_elem? values i ≡ some none
    pub error_at :
        (i : ℕ) (e : E)
        → get_elem? results i ≡ some (err e)
        → get_elem? es (failures (take i results)) ≡ some e

  length-slots : (rs : List (Result E V)) → length (slots rs) ≡ length rs
  length-slots [] = refl
  length-slots (ok v ∷ rs) = ap suc (length-slots rs)
  length-slots (err e ∷ rs) = ap suc (length-slots rs)

  length-errors_lem : (rs : List (Result E V)) → length (errors rs) ≡ failures rs
  length-errors_lem [] = refl
  length-errors_lem (ok v ∷ rs) = length-errors_lem rs
  length-errors_lem (err e ∷ rs) = ap suc (length-errors_lem rs)

  slots_value :
      (rs : List (Result E V)) (i : ℕ) (v : V)
      → get_elem? rs i ≡ some (ok v)
      → get_elem? (slots rs) i ≡ some (some v)
  slots_value [] i v h = absurd (cc)
  slots_value (ok u ∷ rs) zero v h = cc
  slots_value (err e ∷ rs) zero v h = absurd (cc)
  slots_value (ok u ∷ rs) (suc i) v h = slots_value rs i v h
  slots_value (err e ∷ rs) (suc i) v h = slots_value rs i v h

  slots_left :
      (rs : List (Result E V)) (i : ℕ) (e : E)
      → get_elem? rs i ≡ some (err e)
      → get_elem? (slots rs) i ≡ some none
  slots_left [] i e h = absurd (cc)
  slots_left (ok u ∷ rs) zero e h = absurd (cc)
  slots_left (err d ∷ rs) zero e h = refl
  slots_left (ok u ∷ rs) (suc i) e h = slots_left rs i e h
  slots_left (err d ∷ rs) (suc i) e h = slots_left rs i e h

  errors_error :
      (rs : List (Result E V)) (i : ℕ) (e : E)
      → get_elem? rs i ≡ some (err e)
      → get_elem? (errors rs) (failures (take i rs)) ≡ some e
  errors_error [] i e h = absurd (cc)
  errors_error (ok u ∷ rs) zero e h = absurd (cc)
  errors_error (err d ∷ rs) zero e h = cc
  errors_error (ok u ∷ rs) (suc i) e h = errors_error rs i e h
  errors_error (err d ∷ rs) (suc i) e h = errors_error rs i e h

  slots-InOrder : (rs : List (Result E V)) → InOrder rs (slots rs) (errors rs)
  slots-InOrder rs = record {
    length-values = length-slots rs;
    length-errors = length-errors_lem rs;
    value_at = slots_value rs;
    left_at = slots_left rs;
    error_at = errors_error rs;
  }

-- `grow len capacity extra` is the capacity after reflect's Grow of a slice.
module _ (grow : ℕ → ℕ → ℕ → ℕ) where
  -- The capacity once the slice has the length `n`, or a panic of SetLen.
  unfoldable pub resize : ℕ → ℕ → ℕ → Option ℕ
  resize len capacity n =
      let capacity = (if ltb capacity n then grow len capacity (n - capacity) else capacity) in
      if leb n capacity then some capacity else none

  -- (*BatchFuture).Get, once all futures are ready: `results` is what each of them has.
  unfoldable pub get : {V E : Type 0} → Pointer → List (Result E V) → Read V E
  unfolding resize
  get nil_pointer results = returned [] (errors results)
  get not_slice results = refused
  get (slice len capacity) results = elim (resize len capacity (length results)) [
    | none ↦ panicked
    | some _ ↦ returned (slots results) (errors results)
  ]

  resize_room :
      ((len capacity extra : ℕ) → len + extra ≤ grow len capacity extra)
      → (len capacity n : ℕ) → (n ≤ capacity) ⊎ (len ≡ capacity)
      → (c : ℕ) × (resize len capacity n ≡ some c)
  unfolding resize
  resize_room grows len capacity n (inl h) = (capacity, ground arith)
  resize_room grows len capacity n (inr h) = elim (Bool-cases (ltb capacity n)) [
    | inl l ↦
        let g = grows len capacity (n - capacity) in
        (grow len capacity (n - capacity), ground arith)
    | inr l ↦ (capacity, ground arith)
  ]

  resize_full :
      ((len capacity extra : ℕ) → len + extra ≤ capacity → grow len capacity extra ≡ capacity)
      → (len capacity n : ℕ) → capacity < n
      → len + (n - capacity) ≤ capacity
      → resize len capacity n ≡ none
  unfolding resize
  resize_full keeps len capacity n h k = let g = keeps len capacity (n - capacity) k in ground arith

  -- If growing makes room behind the length of the slice, Get returns for a slice that has the capacity,
  -- or is full: the slice has as many slots as there are futures, each value in the slot of its future,
  -- with the slots of failed futures left; and each error stands behind those of the futures before it,
  -- no more of them than futures that failed.
  pub get_returns :
      {V E : Type 0}
      → ((len capacity extra : ℕ) → len + extra ≤ grow len capacity extra)
      → (len capacity : ℕ) (results : List (Result E V))
      → (length results ≤ capacity) ⊎ (len ≡ capacity)
      → (values : List (Option V)) × (es : List E) × (get (slice len capacity) results
          ≡ returned values es)
        × InOrder results values es
  unfolding get
  get_returns grows len capacity results h =
      let (c, e) = resize_room grows len capacity (length results) h in
      (slots results, errors results, rw (e, get), slots-InOrder results)

  -- If growing leaves a slice that has the room already, Get panics for a slice whose capacity is too
  -- small by no more than it has room behind its length.
  pub get_panics :
      {V E : Type 0}
      → ((len capacity extra : ℕ) → len + extra ≤ capacity → grow len capacity extra ≡ capacity)
      → (len capacity : ℕ) (results : List (Result E V)) → capacity < length results
      → len + (length results - capacity) ≤ capacity
      → get (slice len capacity) results ≡ panicked
  unfolding get
  get_panics keeps len capacity results h k =
      rw (resize_full keeps len capacity (length results) h k, get)
