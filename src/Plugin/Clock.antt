-- ===== src/Plugin/Clock.antt =====
-- plugin/time/module.go. A time is in nanoseconds since the epoch, a float its 64-bit pattern; the
-- conversions of floats and the printing of a time by a Go layout are parameters.
pub mod Formats
pub mod Effective
mod Tests
use starlark_worker.Prelude.{
  ℕ, ◌+◌, ◌*◌, ◌-◌, ◌^◌, ℤ, pos, negsuc, ◌+ℤ◌, ◌-ℤ◌, Bool, true, false, ◌||◌, Option, none, some,
  List, [], ◌∷◌, ◌++◌, Text, text, ◌==◌, nat_eq, if◌then◌else◌, ltb, Result, ok, err,
}
use starlark_worker.Star.Values.{Value, int, float, null}
use starlark_worker.Service.Lifecycle.{Attempt, returned, panicked}
use starlark_worker.Service.Threads.{RunInfo, TimeErr, get_effective_time}

-- Sub of package time: the difference, or the largest or the smallest duration if it does not fit.
unfoldable pub time_sub : ℤ → ℤ → ℤ
time_sub t u = elim (t -ℤ u) [
  | pos n ↦ if ltb n (2 ^ 63) then pos n else pos (2 ^ 63 - 1)
  | negsuc n ↦ if ltb n (2 ^ 63) then negsuc n else negsuc (2 ^ 63 - 1)
]

-- The delta that NewModule sets.
unfoldable pub new_module : RunInfo → Attempt ℤ
unfolding time_sub
new_module info = elim (get_effective_time info) [
  | err e ↦ panicked (text "invalid STARLARK_TIME")
  | ok effective ↦ returned (time_sub effective info.sys_time)
]

-- getEffectiveTime; `now` is what workflow.Now gives.
unfoldable pub get_time : ℤ → ℤ → ℤ
get_time delta now = now +ℤ delta

-- What the module gives to a script: a value, or an error of a call or of NewCustomError, with its
-- reason.
pub data ClockErr (E : Type 0) : Type 0 where
  failed : E → ClockErr E
  custom : Text → Text → ClockErr E

-- UnixNano, the conversions of an int, of nanoseconds and of seconds, the format of a time, and Sleep.
pub record Conversions (Ctx World E : Type 0) : Type 0 where
  pub unix_nano : ℤ → ℤ
  pub float_of_int : ℤ → ℕ
  pub float_seconds : ℤ → ℕ
  pub nanoseconds : ℕ → ℤ
  pub truncate : ℕ → ℤ
  pub format_unix : Text → ℤ → Text
  pub describe : Value → Text
  pub sleep : Ctx → ℤ → World → Option E × World

-- The layout of a directive of `utc_format_seconds`.
unfoldable pub directive : ℕ → Option Text
directive c =
    if c == b'Y'
    then some (text "2006")
    else if c == b'm'
    then some (text "01")
    else if c == b'd'
    then some (text "02")
    else if c == b'H'
    then some (text "15")
    else if c == b'M'
    then some (text "04")
    else if c == b'S'
    then some (text "05")
    else if c == b'y'
    then some (text "06")
    else none

-- The directive that two bytes are.
abbrev pub directive_at : ℕ → ℕ → Option Text
directive_at c d = if c == b'%' then directive d else none

-- strings.NewReplacer with the directives, and its Replace
unfoldable pub replace : Text → Text
replace [] = []
replace (c ∷ []) = c ∷ []
replace (c ∷ d ∷ s) = elim (directive_at c d) [
  | some l ↦ l ++ replace s
  | none ↦ c ∷ replace (d ∷ s)
]

-- strings.Contains for one byte
abbrev pub holds : ℕ → Text → Bool
holds c [] = false
holds c (b ∷ s) = b == c || holds c s

module _ {Ctx World E : Type 0} (conversions : Conversions Ctx World E) where
  open conversions use {
    unix_nano, float_of_int, float_seconds, nanoseconds, truncate, format_unix, describe, sleep,
  }

  abbrev slept : Option E × World → Result (ClockErr E) Value × World
  slept (none, w) = (ok null, w)
  slept (some e, w) = (err (failed e), w)

  -- _sleep of the argument `seconds`
  unfoldable pub sleep_call : Ctx → Value → World → Result (ClockErr E) Value × World
  sleep_call ctx (int n) w = slept (sleep ctx (nanoseconds (float_of_int n)) w)
  sleep_call ctx (float f) w = slept (sleep ctx (nanoseconds f) w)
  sleep_call ctx v w = (err (custom (text "bad-request") (describe v)), w)

  -- _time_ns
  unfoldable pub time_ns : ℤ → ℤ → Value
  unfolding get_time
  time_ns delta now = int (unix_nano (get_time delta now))

  -- _time
  unfoldable pub time : ℤ → ℤ → Value
  unfolding get_time
  time delta now = float (float_seconds (unix_nano (get_time delta now)))

  -- _utc_format_seconds
  unfoldable pub utc_format_seconds : Text → ℕ → Result (ClockErr E) Text
  utc_format_seconds format seconds =
      let replaced = replace format in
      if holds b'%' replaced
      then err (custom (text "400") (text "unsupported date format: " ++ replaced))
      else ok (format_unix replaced (truncate seconds))
