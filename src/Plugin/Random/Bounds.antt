-- ===== src/Plugin/Random/Bounds.antt =====
-- The numbers that randIntFn of plugin/random/module.go gives.
use starlark_worker.Prelude.{
  ℕ, ◌+◌, ◌-◌, ◌%◌, ◌^◌, ◌<◌, ◌≤◌, ◌≡◌, inl, inr, refl, true, false, Option, [], ◌∷◌, text,
  Option-cases, arith,
}
use starlark_worker.Service.Lifecycle.{returned, panicked}
use starlark_worker.Plugin.Random.{
  add64, sub64, positive, Sources, Run, seed_fn, draw, draw_int, side_effect, rand_int_fn,
}

-- Where a pattern stands in the order of the signed numbers: 0 is the least one.
abbrev pub rank : ℕ → ℕ
rank a = (a + 2 ^ 63) % 2 ^ 64

span_positive :
    (min max : ℕ)
    → min < 2 ^ 64
    → max < 2 ^ 64
    → rank min ≤ rank max
    → rank max < rank min + (2 ^ 63 - 1)
    → (positive (add64 (sub64 max min) 1) ≡ true)
      × (add64 (sub64 max min) 1 ≡ rank max - rank min + 1)
span_positive min max a b h k = (ground arith, omega arith)

sum_rank : (min v : ℕ) → min < 2 ^ 64 → rank min + v < 2 ^ 64 → rank (add64 v min) ≡ rank min + v
sum_rank min v a h = omega arith

module _ {Source : Type 0} (sources : Sources Source) where
  open sources use {intn}

  -- A run with no history to replay.
  abbrev pub fresh : Option Source → Source → Run Source
  fresh own default = record { rand = own; default = default; recorded = [] }

  draw_from :
      (next : Source → ℕ × Source) (r : Run Source)
      → (s : Source) × ((draw sources next r).0 ≡ (next s).0)
  unfolding draw
  draw_from next r = elim (Option-cases (r.rand)) [
    | inl e ↦ (r.default, rw e refl)
    | inr (s, e) ↦ (s, rw e refl)
  ]

  -- If Intn gives numbers below its argument, randint gives a number from `min` to `max`, both
  -- included, in the order of the signed 64-bit numbers, if `min` is not above `max` and there are
  -- fewer than 2 ^ 63 numbers from the one to the other. It never panics then.
  pub rand_int_fn_bounds :
      (below : (n : ℕ) (s : Source) → 0 < n → (intn n s).0 < n) (min max : ℕ) (own : Option Source)
      (default : Source)
      → min < 2 ^ 64
      → max < 2 ^ 64
      → rank min ≤ rank max
      → rank max < rank min + (2 ^ 63 - 1)
      → (v : ℕ) × (s : Run Source) × (rand_int_fn sources min max (fresh own default)
          ≡ returned (v, s))
        × (rank min ≤ rank v)
        × (rank v ≤ rank max)
  unfolding rand_int_fn side_effect draw_int
  rand_int_fn_bounds below min max own default a b h k =
      let (pos_n, n_eq) = span_positive min max a b h k in
      let n = add64 (sub64 max min) 1 in
      let (src, e) = draw_from (intn n) (fresh own default) in
      let v = (draw sources (intn n) (fresh own default)).0 in
      let less : v < n = rw e (below n src (omega arith)) in
      let top : rank max < 2 ^ 64 = omega arith in
      let ranked = sum_rank min v a (omega arith) in
      (
        add64 v min,
        (draw sources (intn n) (fresh own default)).1,
        rw (pos_n, draw_int) refl,
        omega arith,
        omega arith,
      )

  -- Bounds the wrong way round are a panic, but where their difference overflows.
  rand_int_fn_panics :
      (min max : ℕ) (own : Option Source) (default : Source)
      → min < 2 ^ 64
      → max < 2 ^ 64
      → rank max < rank min
      → rank min ≤ rank max + 2 ^ 63
      → rand_int_fn sources min max (fresh own default) ≡ panicked (text "invalid argument to Intn")
  unfolding rand_int_fn side_effect draw_int
  rand_int_fn_panics min max own default a b h k =
      let zero_n : positive (add64 (sub64 max min) 1) ≡ false = ground arith in
      rw (zero_n, draw_int) refl

  -- A number that a replay takes from the history does not advance the module's source: if the first
  -- draw behind `seed` comes from the history, the second one draws the same number again.
  pub rand_int_fn_replayed :
      (seed min max v : ℕ) (own : Option Source) (default : Source) (s : Run Source)
      → rand_int_fn sources min max (seed_fn sources seed (fresh own default)) ≡ returned (v, s)
      → (t : Run Source) × (rand_int_fn sources min max
            (seed_fn sources seed (record (fresh own default) { recorded = v ∷ [] }))
          ≡ returned (v, t))
        × (rand_int_fn sources min max t ≡ returned (v, s))
  unfolding rand_int_fn side_effect seed_fn
  rand_int_fn_replayed seed min max v own default s h =
      (seed_fn sources seed (fresh own default), refl, h)
