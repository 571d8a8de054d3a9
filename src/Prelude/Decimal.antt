-- ===== src/Prelude/Decimal.antt =====
-- strconv.Atoi and strconv.ParseInt(s, 10, 64) of the Go library, on a 64-bit machine.
use Prim.Native.Nat.{ℕ, zero, suc, ◌+◌, ◌-◌, ◌*◌, ◌/◌, ◌%◌, ◌^◌, ◌<◌}
use mathlib.Core.Logic.{inl, inr}
use native.Mathlib.Omega.{arith}
use mathlib.Core.Path.{◌≡◌, refl, ap, sym, ◌∙◌}
use mathlib.Core.Bool.{Bool, true, false, ◌&&◌}
use mathlib.Core.Option.{Option, none, some}
use mathlib.Core.List.{[], ◌∷◌}
use starlark_worker.Prelude.Tests.{◌==◌, nat_eq, ltb, leb, Bool-cases, if◌then◌else◌}
use starlark_worker.Prelude.Texts.{Text, text}
use starlark_worker.Prelude.Int.{ℤ, pos, negsuc}

digits_from : ℕ → Text → Option ℕ
digits_from n [] = some n
digits_from n (c ∷ s) =
    let rest = digits_from (n * 10 + (c - 48)) s in if leb 48 c && leb c 57 then rest else none

digits : Text → Option ℕ
unfolding digits_from
digits [] = none
digits (c ∷ s) = digits_from 0 (c ∷ s)

abbrev at_most : ℕ → ℕ → ℤ → Option ℤ
at_most bound n z = if leb n bound then some z else none

abbrev negative : ℕ → ℤ
negative zero = pos 0
negative (suc n) = negsuc n

abbrev signed : Bool → Option ℕ → Option ℤ
signed minus none = none
signed true (some n) = at_most (2 ^ 63) n (negative n)
signed false (some n) = at_most (2 ^ 63 - 1) n (pos n)

-- `none` is a syntax or a range error.
unfoldable pub atoi : Text → Option ℤ
unfolding digits
atoi [] = none
atoi (c ∷ s) =
    if c == b'-'
    then signed true (digits s)
    else if c == b'+'
    then signed false (digits s)
    else signed false (digits (c ∷ s))

numbers :
    (atoi (text "+120") ≡ some (pos 120))
    × (atoi (text "-1") ≡ some (negsuc 0))
    × (atoi (text "1x") ≡ none)
unfolding atoi
numbers = (refl, refl, refl)

too_large : atoi (text "9223372036854775808") ≡ none
unfolding atoi
too_large = refl

-- The digits of a number in front of a text; the first argument is the fuel.
show_digits : ℕ → ℕ → Text → Text
show_digits zero n s = s
show_digits (suc k) n s =
    let rest = show_digits k (n / 10) ((48 + (n % 10)) ∷ s) in
    if ltb n 10 then (48 + n) ∷ s else rest

-- strconv.Itoa and `%d`; a 64-bit number has at most 19 digits.
unfoldable pub itoa : ℤ → Text
unfolding show_digits
itoa (pos n) = show_digits 19 n []
itoa (negsuc n) = b'-' ∷ show_digits 19 (suc n) []

printed : (itoa (pos 404) ≡ text "404") × (itoa (negsuc 9) ≡ text "-10")
unfolding itoa
printed = (refl, refl)

in_range : (d : ℕ) → d < 10 → (leb 48 (48 + d) && leb (48 + d) 57) ≡ true
in_range d h = ground arith

digits_from-digit :
    (m d : ℕ) (s : Text) → d < 10 → digits_from m ((48 + d) ∷ s) ≡ digits_from (m * 10 + d) s
unfolding digits_from
digits_from-digit m d s h =
    let same : m * 10 + ((48 + d) - 48) ≡ m * 10 + d = omega arith in
    rw (in_range d h) (ap (λ n. digits_from n s) same)

digits_from-show_digits :
    (k n : ℕ) (s : Text) → n < 10 ^ k → digits_from 0 (show_digits k n s) ≡ digits_from n s
unfolding digits_from show_digits
digits_from-show_digits zero n s h =
    let least : n ≡ 0 = omega arith in ap (λ m. digits_from m s) (sym least)
digits_from-show_digits (suc k) n s h = elim (Bool-cases (ltb n 10)) [
  | inl e ↦ rw e (digits_from-digit 0 n s (ground arith) ∙ ap (λ m. digits_from m s) (omega arith))
  | inr e ↦
      let rest = digits_from-show_digits k (n / 10) ((48 + n % 10) ∷ s) (omega arith) in
      let digit = digits_from-digit (n / 10) (n % 10) s (omega arith) in
      rw e (rest ∙ digit ∙ ap (λ m. digits_from m s) (omega arith))
]

-- 19 digits are enough for a 64-bit number.
digits_from-itoa : (n : ℕ) → n < 10 ^ 19 → digits_from 0 (itoa (pos n)) ≡ some n
unfolding itoa digits_from
digits_from-itoa n h = digits_from-show_digits 19 n [] h
