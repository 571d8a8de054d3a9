-- ===== src/Plugin/Random.antt =====
-- plugin/random/module.go: random numbers. An int64 is its pattern, a number below 2 ^ 64. A side
-- effect is run once, and a replay takes its value from the history without running it, as both
-- engines document it; `recorded` is the part of the history that a replay has still to take.
pub mod Bounds
mod Tests
use starlark_worker.Prelude.{
  ℕ, zero, suc, ◌+◌, ◌-◌, ◌%◌, ◌^◌, Bool, true, false, ◌&&◌, Option, none, some, List, [], ◌∷◌,
  text, ltb, if◌then◌else◌,
}
use starlark_worker.Service.Lifecycle.{Attempt, returned, panicked}

abbrev pub add64 : ℕ → ℕ → ℕ
add64 a b = (a + b) % 2 ^ 64

abbrev pub sub64 : ℕ → ℕ → ℕ
sub64 a b = (a + (2 ^ 64 - b)) % 2 ^ 64

-- The pattern is that of a number above 0.
abbrev pub positive : ℕ → Bool
positive a = ltb 0 a && ltb a (2 ^ 63)

-- rand.NewSource with rand.New, Intn and Float64 of a source; a float is its pattern.
pub record Sources (Source : Type 0) : Type 0 where
  pub new_source : ℕ → Source
  pub intn : ℕ → Source → ℕ × Source
  pub float64 : Source → ℕ × Source

-- The module's own source, if there is one, the default source of package rand, and the history.
pub record Run (Source : Type 0) : Type 0 where
  pub rand : Option Source
  pub default : Source
  pub recorded : List ℕ

module _ {Source : Type 0} (sources : Sources Source) where
  open sources use {new_source, intn, float64}

  -- seedFn
  unfoldable pub seed_fn : ℕ → Run Source → Run Source
  seed_fn seed r = record r { rand = some (new_source seed) }

  -- A draw from the module's source if it was seeded, or from the default source.
  unfoldable pub draw : (Source → ℕ × Source) → Run Source → ℕ × Run Source
  draw next r = elim (r.rand) [
    | none ↦ let (v, s) = next r.default in (v, record r { default = s })
    | some t ↦ let (v, s) = next t in (v, record r { rand = some s })
  ]

  -- The side effect of randIntFn; Intn panics if its argument is not above 0.
  unfoldable pub draw_int : ℕ → ℕ → Run Source → Attempt (ℕ × Run Source)
  unfolding draw
  draw_int min max r =
      let n = add64 (sub64 max min) 1 in
      if positive n
      then (let (v, s) = draw (intn n) r in returned (add64 v min, s))
      else panicked (text "invalid argument to Intn")

  -- workflow.SideEffect and Get of its value
  unfoldable pub side_effect :
      (Run Source → Attempt (ℕ × Run Source)) → Run Source → Attempt (ℕ × Run Source)
  side_effect f r = elim (r.recorded) [
    | [] ↦ f r
    | v ∷ vs ↦ returned (v, record r { recorded = vs })
  ]

  -- randIntFn
  unfoldable pub rand_int_fn : ℕ → ℕ → Run Source → Attempt (ℕ × Run Source)
  unfolding draw_int side_effect
  rand_int_fn min max r = side_effect (draw_int min max) r

  -- randFn
  unfoldable pub rand_fn : Run Source → Attempt (ℕ × Run Source)
  unfolding draw side_effect
  rand_fn r = side_effect (λ s. returned (draw float64 s)) r
