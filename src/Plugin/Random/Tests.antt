-- ===== src/Plugin/Random/Tests.antt =====
-- The theorems on plugin/random/module.go, at sources that count.
use starlark_worker.Prelude.{
  ℕ, suc, ◌-◌, ◌^◌, ◌<◌, ◌≤◌, ◌≡◌, refl, none, some, [], ltb, if◌then◌else◌, arith,
}
use starlark_worker.Service.Lifecycle.{returned}
use starlark_worker.Plugin.Random.{Sources, Run, seed_fn, rand_int_fn}
use starlark_worker.Plugin.Random.Bounds.{rank, fresh, rand_int_fn_bounds}

-- A source is the next number; what is too large becomes 0.
abbrev counting : Sources ℕ
counting = record {
  new_source = λ seed. seed;
  intn = λ n s. (if ltb s n then s else 0, suc s);
  float64 = λ s. (s, suc s);
}

counting_below : (n s : ℕ) → 0 < n → (counting.intn n s).0 < n
counting_below n s h = ground arith

-- From -1 to 1.
abbrev minus_one : ℕ
minus_one = 2 ^ 64 - 1

seeded :
    rand_int_fn counting minus_one 1 (seed_fn counting 2 (fresh counting none 0))
    ≡ returned (1, record { rand = some 3; default = 0; recorded = [] })
unfolding rand_int_fn seed_fn
seeded = refl

rand_int_fn_bounds_example :
    (v : ℕ) × (s : Run ℕ) × (rand_int_fn counting minus_one 1 (fresh counting (some 2) 0)
      ≡ returned (v, s))
    × (rank minus_one ≤ rank v)
    × (rank v ≤ rank 1)
rand_int_fn_bounds_example =
    rand_int_fn_bounds counting counting_below minus_one 1 (some 2) 0 (omega arith) (omega arith)
      (omega arith) (omega arith)
