-- ===== src/Star/Base64/Trip.antt =====
-- Decoding base64 gives back what was encoded.
use starlark_worker.Prelude.{
  ℕ, ◌+◌, ◌*◌, ◌/◌, ◌%◌, ◌<◌, ◌≡◌, refl, ap, false, some, [], ◌∷◌, Text, ◌==◌, nat_eq, All, arith,
}
use mathlib.Core.Path.{ap₂}
use starlark_worker.Star.Base64.{
  digit, undigit, b64_encode, ◌>>=◌, first_byte, second_byte, third_byte, group, drop_newlines,
  decode_groups, b64_decode, IsByte,
}

undigit-digit : (n : ℕ) → n < 64 → undigit (digit n) ≡ some n
unfolding digit undigit
undigit-digit n h = ground arith

-- A digit is no padding and no newline.
digit_plain :
    (n : ℕ)
    → n < 64
    → ((digit n == b'=') ≡ false) × ((digit n == 10) ≡ false) × ((digit n == 13) ≡ false)
unfolding digit
digit_plain n h = ground arith

drop_newlines-digit :
    (n : ℕ) (s : Text) → n < 64 → drop_newlines (digit n ∷ s) ≡ digit n ∷ drop_newlines s
unfolding drop_newlines
drop_newlines-digit n s h = rw ((digit_plain n h).1, (digit_plain n h).2)

drop_newlines_pad : drop_newlines (b'=' ∷ []) ≡ b'=' ∷ []
unfolding drop_newlines
drop_newlines_pad = refl

drop_newlines_pads : drop_newlines (b'=' ∷ b'=' ∷ []) ≡ b'=' ∷ b'=' ∷ []
unfolding drop_newlines
drop_newlines_pads = refl

drop_newlines_nil : drop_newlines [] ≡ []
unfolding drop_newlines
drop_newlines_nil = refl

-- The clauses of `b64_encode`, with the digits shut.
encode_nil : b64_encode [] ≡ []
unfolding b64_encode
encode_nil = refl

encode_one : (a : ℕ) → b64_encode (a ∷ []) ≡ digit (a / 4) ∷ digit (a % 4 * 16) ∷ b'=' ∷ b'=' ∷ []
unfolding b64_encode
encode_one a = refl

encode_two :
    (a b : ℕ)
    → b64_encode (a ∷ b ∷ [])
      ≡ digit (a / 4) ∷ digit (a % 4 * 16 + b / 16) ∷ digit (b % 16 * 4) ∷ b'=' ∷ []
unfolding b64_encode
encode_two a b = refl

encode_three :
    (a b c : ℕ) (rest : Text)
    → b64_encode (a ∷ b ∷ c ∷ rest)
      ≡ digit (a / 4)
        ∷ digit (a % 4 * 16 + b / 16)
        ∷ digit (b % 16 * 4 + c / 64)
        ∷ digit (c % 64)
        ∷ b64_encode rest
unfolding b64_encode
encode_three a b c rest = refl

-- The encoding has no newlines.
drop_newlines-b64_encode : (s : Text) → All IsByte s → drop_newlines (b64_encode s) ≡ b64_encode s
drop_newlines-b64_encode [] h = rw (encode_nil, drop_newlines_nil)
drop_newlines-b64_encode (a ∷ []) h = rw (
  encode_one,
  drop_newlines-digit (a / 4) _ (omega arith),
  drop_newlines-digit (a % 4 * 16) _ (omega arith),
  drop_newlines_pads,
)
drop_newlines-b64_encode (a ∷ b ∷ []) h = rw (
  encode_two,
  drop_newlines-digit (a / 4) _ (omega arith),
  drop_newlines-digit (a % 4 * 16 + b / 16) _ (omega arith),
  drop_newlines-digit (b % 16 * 4) _ (omega arith),
  drop_newlines_pad,
)
drop_newlines-b64_encode (a ∷ b ∷ c ∷ rest) h = rw (
  encode_three,
  drop_newlines-digit (a / 4) _ (omega arith),
  drop_newlines-digit (a % 4 * 16 + b / 16) _ (omega arith),
  drop_newlines-digit (b % 16 * 4 + c / 64) _ (omega arith),
  drop_newlines-digit (c % 64) _ (omega arith),
  drop_newlines-b64_encode rest h.1.1.1,
)

-- A full group of digits, with anything behind it.
decode_groups-group :
    (a b c d : ℕ) (rest : Text)
    → (d == b'=') ≡ false
    → decode_groups (a ∷ b ∷ c ∷ d ∷ rest) ≡ (decode_groups rest >>= group a b c d)
unfolding decode_groups
decode_groups-group a b c d [] h = rw h
decode_groups-group a b c d (e ∷ rest) h = rw h

group-digit :
    (a b c d : ℕ) (rest : Text)
    → a < 64
    → b < 64
    → c < 64
    → d < 64
    → group (digit a) (digit b) (digit c) (digit d) rest
      ≡ some (first_byte a b ∷ second_byte b c ∷ third_byte c d ∷ rest)
unfolding group
group-digit a b c d rest h k l m =
    rw (undigit-digit a h, undigit-digit b k, undigit-digit c l, undigit-digit d m)

decode_groups_one :
    (a b : ℕ)
    → a < 64
    → b < 64
    → decode_groups (digit a ∷ digit b ∷ b'=' ∷ b'=' ∷ []) ≡ some (first_byte a b ∷ [])
unfolding decode_groups
decode_groups_one a b h k = rw (undigit-digit a h, undigit-digit b k)

decode_groups_two :
    (a b c : ℕ)
    → a < 64
    → b < 64
    → c < 64
    → decode_groups (digit a ∷ digit b ∷ digit c ∷ b'=' ∷ [])
      ≡ some (first_byte a b ∷ second_byte b c ∷ [])
unfolding decode_groups
decode_groups_two a b c h k l =
    rw (undigit-digit a h, undigit-digit b k, (digit_plain c l).0, undigit-digit c l)

decode_groups_nil : decode_groups [] ≡ some []
unfolding decode_groups
decode_groups_nil = refl

bytes_eq :
    {a b c x y z : ℕ} {rest : Text}
    → a ≡ x
    → b ≡ y
    → c ≡ z
    → some (a ∷ b ∷ c ∷ rest) ≡ some (x ∷ y ∷ z ∷ rest)
bytes_eq p q r = cc

decode_groups-b64_encode : (s : Text) → All IsByte s → decode_groups (b64_encode s) ≡ some s
decode_groups-b64_encode [] h = rw (encode_nil, decode_groups_nil)
decode_groups-b64_encode (a ∷ []) h =
    rw (encode_one, decode_groups_one (a / 4) (a % 4 * 16) (omega arith) (omega arith))
      (ap (λ t. some (t ∷ [])) (omega arith))
decode_groups-b64_encode (a ∷ b ∷ []) h =
    rw
      (
        encode_two,
        decode_groups_two (a / 4) (a % 4 * 16 + b / 16) (b % 16 * 4) (omega arith) (omega arith)
            (omega arith),
      )
      (ap₂ (λ t u. some (t ∷ u ∷ [])) (omega arith) (omega arith))
decode_groups-b64_encode (a ∷ b ∷ c ∷ rest) h =
    rw
      (
        encode_three,
        decode_groups-group _ _ _ (digit (c % 64)) (b64_encode rest)
            (digit_plain (c % 64) (omega arith)).0,
        decode_groups-b64_encode rest h.1.1.1,
        group-digit (a / 4) (a % 4 * 16 + b / 16) (b % 16 * 4 + c / 64) (c % 64) rest (omega arith)
            (omega arith) (omega arith) (omega arith),
      )
      (bytes_eq (omega arith) (omega arith) (omega arith))

-- Decoding gives back any bytes that were encoded.
pub b64_decode-b64_encode : (s : Text) → All IsByte s → b64_decode (b64_encode s) ≡ some s
unfolding b64_decode
b64_decode-b64_encode s h = rw (drop_newlines-b64_encode s h) (decode_groups-b64_encode s h)
