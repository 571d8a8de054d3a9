-- ===== src/Plugin/Clock/Effective.antt =====
-- The clock of a script, plugin/time/module.go over service/plugin.go.
use starlark_worker.Prelude.{
  ℕ, ◌^◌, ◌-◌, ◌<◌, ℤ, pos, negsuc, ◌+ℤ◌, ◌-ℤ◌, +ℤ-sub, ◌≡◌, sym, ap, ◌∙◌, ok, if◌then◌else◌, arith,
  ltb,
}
use starlark_worker.Service.Lifecycle.{returned}
use starlark_worker.Service.Threads.{RunInfo, get_effective_time}
use starlark_worker.Plugin.Clock.{time_sub, new_module, get_time}

-- A difference that is a duration: a signed number of 64 bits.
abbrev pub Fits : ℤ → Type 0
Fits (pos n) = n < 2 ^ 63
Fits (negsuc n) = n < 2 ^ 63

within :
    (d : ℤ)
    → Fits d
    → (elim d [
      | pos n ↦ if ltb n (2 ^ 63) then pos n else pos (2 ^ 63 - 1)
      | negsuc n ↦ if ltb n (2 ^ 63) then negsuc n else negsuc (2 ^ 63 - 1)
    ])
      ≡ d
within (pos n) h = ground arith
within (negsuc n) h = ground arith

time_sub-Fits : (t u : ℤ) → Fits (t -ℤ u) → time_sub t u ≡ t -ℤ u
unfolding time_sub
time_sub-Fits t u h = within (t -ℤ u) h

returned_injective : {a b : ℤ} → returned a ≡ returned b → a ≡ b
returned_injective h = cc

-- For a run whose effective time is `t`, at most a duration from the time at which it started: when
-- the engine's clock has moved on by `k` from the start, the script's clock is `k` behind `t`.
pub get_time-effective :
    (info : RunInfo) (t delta : ℤ) (k : ℕ)
    → get_effective_time info ≡ ok t
    → Fits (t -ℤ info.sys_time)
    → new_module info ≡ returned delta
    → get_time delta (info.sys_time +ℤ pos k) ≡ t +ℤ pos k
unfolding get_time new_module
get_time-effective info t delta k e h made =
    let same : time_sub t info.sys_time ≡ delta = returned_injective (rw (new_module, e) at made) in
    ap (λ d. (info.sys_time +ℤ pos k) +ℤ d) (sym same ∙ time_sub-Fits t info.sys_time h)
    ∙ +ℤ-sub info.sys_time t k
