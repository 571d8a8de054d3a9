-- ===== src/Plugin/Clock/Tests.antt =====
-- The theorems on the clock of scripts at concrete values.
use starlark_worker.Prelude.{
  ℕ, ℤ, pos, ◌≡◌, refl, ◌↔◌, none, List, text, nat_eq, list_eq, list_beq, ok, atoi, All, arith,
}
use starlark_worker.Star.Values.{string, empty, field}
use starlark_worker.Service.Threads.{RunInfo, starlark_time, parse_time, get_effective_time}
use starlark_worker.Service.Lifecycle.{returned}
use starlark_worker.Plugin.Clock.{
  Conversions, directive, replace, time_sub, new_module, get_time, utc_format_seconds,
}
use starlark_worker.Plugin.Clock.Effective.{get_time-effective}
use starlark_worker.Plugin.Clock.Formats.{Piece, IsPiece, render, layout, utc_format_seconds-eq_ok}

-- A run that started at 9 seconds and is told that it is 2 seconds.
abbrev info : RunInfo
info = record {
  environ = field starlark_time (string (text "unix:2")) empty;
  sys_time = pos 9000000000;
}

abbrev delta : ℤ
delta = time_sub (pos 2000000000) (pos 9000000000)

info_time : get_effective_time info ≡ ok (pos 2000000000)
unfolding get_effective_time parse_time list_beq atoi
info_time = refl

info_made : new_module info ≡ returned delta
unfolding new_module get_effective_time parse_time list_beq atoi
info_made = refl

get_time-effective_example : get_time delta (pos 9000000005) ≡ pos 2000000005
get_time-effective_example =
    get_time-effective info (pos 2000000000) delta 5 info_time (omega arith) info_made

-- Conversions that keep numbers and print the layout alone.
abbrev conversions : Conversions ℕ ℕ ℕ
conversions = record {
  unix_nano = λ t. t;
  float_of_int = λ n. 0;
  float_seconds = λ t. 0;
  nanoseconds = λ f. pos f;
  truncate = λ f. pos f;
  format_unix = λ l t. l;
  describe = λ v. text "bad argument type";
  sleep = λ c d w. (none, w);
}

utc_format_seconds-eq_ok_example :
    (utc_format_seconds conversions (text "%H:%M") 60 ≡ ok (text "15:04")) ↔ (
      (ps : List Piece) × (All IsPiece ps
        × ((text "%H:%M" ≡ render ps) × (text "15:04" ≡ layout ps))))
utc_format_seconds-eq_ok_example =
    utc_format_seconds-eq_ok conversions (text "%H:%M") 60 (text "15:04")

hours_accepted : utc_format_seconds conversions (text "%H:%M") 60 ≡ ok (text "15:04")
unfolding utc_format_seconds replace directive
hours_accepted = refl
