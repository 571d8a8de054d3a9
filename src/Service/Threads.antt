-- ===== src/Service/Threads.antt =====
-- service/thread.go, the environment of service/service.go and the run's time of service/plugin.go.
pub mod Logs
pub mod Times
mod Tests
use starlark_worker.Prelude.{
  ℕ, zero, suc, ◌+◌, ◌-◌, ◌*◌, ℤ, pos, negsuc, Bool, true, false, Option, none, some, List, [], ◌∷◌,
  ◌++◌, Text, text, ◌==◌, nat_eq, list_eq, if◌then◌else◌, Result, ok, err, ◌>>=◌, atoi, leb, ltb,
  length,
}
use starlark_worker.Star.Values.{Value, string, Fields, get_field}

-- The panic of `v.(starlark.String)`.
pub data NotText : Type 0 where
  not_text : NotText

-- (*_Globals).getEnviron
unfoldable pub get_environ : Fields → Text → Result NotText (Option Text)
get_environ environ key = elim (get_field key environ) [
  | none ↦ ok none
  | some (string s) ↦ ok (some s)
  | _ ↦ err not_text
]

-- envLogLen, defaultLogLen
abbrev pub env_log_len : Text
env_log_len = text "STAR_CORE_LOG_LEN"

abbrev pub default_log_len : ℤ
default_log_len = pos 1000

-- The log length that CreateThread reads.
unfoldable pub log_len : Fields → Result NotText ℤ
unfolding get_environ
log_len environ = do
  v ← get_environ environ env_log_len
  ok (elim v [
    | none ↦ default_log_len
    | some s ↦ elim (atoi s) [ none ↦ default_log_len | some n ↦ n ]
  ])

-- `n > ll`
abbrev pub above : ℕ → ℤ → Bool
above n (pos m) = ltb m n
above n (negsuc m) = true

-- The list without its front.
abbrev pub rest_of : List Text → List Text
rest_of [] = []
rest_of (l ∷ ls) = ls

-- Print of the thread that CreateThread makes.
unfoldable pub print : ℤ → Text → List Text → List Text
print ll msg logs =
    let pushed = logs ++ msg ∷ [] in if above (length pushed) ll then rest_of pushed else pushed

-- GetContext: the thread's context, or, once the run is canceled, what NewDisconnectedContext makes
-- of it.
unfoldable pub get_context : {Ctx : Type 0} → (Ctx → Ctx) → Bool → Ctx → Ctx
get_context new_disconnected_context is_canceled ctx =
    if is_canceled then new_disconnected_context ctx else ctx

-- STARLARK_TIME
abbrev pub starlark_time : Text
starlark_time = text "STARLARK_TIME"

-- The info of a run that its time needs; a time is in nanoseconds since the epoch.
pub record RunInfo : Type 0 where
  pub environ : Fields
  pub sys_time : ℤ

pub data TimeErr : Type 0 where
  type_panic invalid_format bad_number unsupported_scheme : TimeErr

-- strings.SplitN(s, ":", 2), if that has two parts.
abbrev pub split_scheme : Text → Option (Text × Text)
split_scheme [] = none
split_scheme (c ∷ s) =
    if c == b':'
    then some ([], s)
    else (elim (split_scheme s) [ none ↦ none | some p ↦ some (c ∷ p.0, p.1) ])

-- time.Unix(seconds, 0)
abbrev pub unix : ℤ → ℤ
unix (pos n) = pos (n * 1000000000)
unix (negsuc n) = negsuc ((n + 1) * 1000000000 - 1)

-- What GetEffectiveTime makes of the variable.
unfoldable pub parse_time : Text → Result TimeErr ℤ
parse_time s = elim (split_scheme s) [
  | none ↦ err invalid_format
  | some p ↦
      if p.0 == text "unix"
      then (elim (atoi p.1) [ none ↦ err bad_number | some n ↦ ok (unix n) ])
      else err unsupported_scheme
]

-- (*RunInfo).GetEffectiveTime
unfoldable pub get_effective_time : RunInfo → Result TimeErr ℤ
unfolding parse_time
get_effective_time r = elim (get_field starlark_time r.environ) [
  | none ↦ ok r.sys_time
  | some (string s) ↦ parse_time s
  | _ ↦ err type_panic
]
