-- ===== src/Service/Threads/Times.antt =====
-- The time of a run that service/plugin.go gives.
use starlark_worker.Prelude.{
  ℤ, ◌≡◌, ap, if◌then◌else◌, refl, none, some, [], ◌∷◌, ◌++◌, Text, text, ◌==◌, nat_eq, list_eq,
  Lacks, Result, ok, err, atoi, Option,
}
use starlark_worker.Star.Values.{string, get_field}
use starlark_worker.Service.Threads.{
  starlark_time, RunInfo, TimeErr, invalid_format, bad_number, unsupported_scheme, split_scheme,
  unix, parse_time, get_effective_time,
}

split_scheme-append :
    (s rest : Text) → Lacks b':' s → split_scheme (s ++ b':' ∷ rest) ≡ some (s, rest)
split_scheme-append [] rest h = refl
split_scheme-append (c ∷ s) rest h = rw (h.0, split_scheme-append s rest h.1)

split_scheme-Lacks : (s : Text) → Lacks b':' s → split_scheme s ≡ none
split_scheme-Lacks [] h = refl
split_scheme-Lacks (c ∷ s) h = rw (h.0, split_scheme-Lacks s h.1)

-- The time of a number of seconds, if it is one.
abbrev pub seconds : Option ℤ → Result TimeErr ℤ
seconds none = err bad_number
seconds (some n) = ok (unix n)

seconds_lem : (o : Option ℤ) → (elim o [ none ↦ err bad_number | some n ↦ ok (unix n) ]) ≡ seconds o
seconds_lem none = refl
seconds_lem (some n) = refl

parse_time_scheme :
    (scheme d : Text)
    → Lacks b':' scheme
    → parse_time (scheme ++ b':' ∷ d)
      ≡ (if scheme == text "unix" then seconds (atoi d) else err unsupported_scheme)
unfolding parse_time
parse_time_scheme scheme d l =
    rw (split_scheme-append scheme d l, parse_time)
      (ap (λ t. if scheme == text "unix" then t else err unsupported_scheme) (seconds_lem (atoi d)))

-- If the variable is a text with a colon, a run has the time of the seconds behind the colon if
-- `unix` stands before it, and an error if that is no number or another scheme stands there.
pub get_effective_time_scheme :
    (r : RunInfo) (scheme d : Text)
    → Lacks b':' scheme
    → get_field starlark_time r.environ ≡ some (string (scheme ++ b':' ∷ d))
    → get_effective_time r
      ≡ (if scheme == text "unix" then seconds (atoi d) else err unsupported_scheme)
unfolding get_effective_time
get_effective_time_scheme r scheme d l e = rw (e, get_effective_time) (parse_time_scheme scheme d l)

-- A text without a colon is an error.
get_effective_time_no_scheme :
    (r : RunInfo) (s : Text)
    → Lacks b':' s
    → get_field starlark_time r.environ ≡ some (string s)
    → get_effective_time r ≡ err invalid_format
unfolding get_effective_time parse_time
get_effective_time_no_scheme r s l e =
    rw (e, get_effective_time) (rw (split_scheme-Lacks s l, parse_time) refl)
