-- ===== src/Star/Base64.antt =====
-- base64.StdEncoding, which star/codec.go uses for byte strings.
pub mod Trip
use starlark_worker.Prelude.{
  ℕ, ◌+◌, ◌-◌, ◌*◌, ◌/◌, ◌%◌, ◌<◌, ◌≡◌, refl, ap, false, ◌&&◌, ◌||◌, Option, none, some, [], ◌∷◌,
  Text, text, ◌==◌, nat_eq, if◌then◌else◌, ltb, leb, All, arith,
}
use mathlib.Core.Path.{ap₂}

-- The digit of a six-bit number: A-Z a-z 0-9 + /.
digit : ℕ → ℕ
digit n =
    if ltb n 26
    then n + 65
    else if ltb n 52
    then n + 71
    else if ltb n 62
    then n - 4
    else if n == 62
    then 43
    else 47

undigit : ℕ → Option ℕ
undigit c =
    if leb 65 c && leb c 90
    then some (c - 65)
    else if leb 97 c && leb c 122
    then some (c - 71)
    else if leb 48 c && leb c 57
    then some (c + 4)
    else if c == 43
    then some 62
    else if c == 47
    then some 63
    else none

-- (*Encoding).Encode: three bytes are four digits, and `=` fills the last group.
unfoldable pub b64_encode : Text → Text
unfolding digit
b64_encode [] = []
b64_encode (a ∷ []) = digit (a / 4) ∷ digit (a % 4 * 16) ∷ b'=' ∷ b'=' ∷ []
b64_encode (a ∷ b ∷ []) =
    digit (a / 4) ∷ digit (a % 4 * 16 + b / 16) ∷ digit (b % 16 * 4) ∷ b'=' ∷ []
b64_encode (a ∷ b ∷ c ∷ rest) =
    digit (a / 4)
    ∷ digit (a % 4 * 16 + b / 16)
    ∷ digit (b % 16 * 4 + c / 64)
    ∷ digit (c % 64)
    ∷ b64_encode rest

infixl 5 ◌>>=◌
abbrev ◌>>=◌ : {A B : Type 0} → Option A → (A → Option B) → Option B
none >>= f = none
some a >>= f = f a

-- The bytes of the digits; what lies behind them in the last group is dropped.
abbrev first_byte : ℕ → ℕ → ℕ
first_byte a b = a * 4 + b / 16

abbrev second_byte : ℕ → ℕ → ℕ
second_byte b c = b % 16 * 16 + c / 4

abbrev third_byte : ℕ → ℕ → ℕ
third_byte c d = c % 4 * 64 + d

-- The last group, if it is filled by `=`.
last_group : ℕ → ℕ → ℕ → ℕ → Option Text
last_group a b c d = undigit a >>= λ x. undigit b >>= λ y.
    if c == b'=' && d == b'='
    then some (first_byte x y ∷ [])
    else (undigit c >>= λ z.
        if d == b'=' then some (first_byte x y ∷ second_byte y z ∷ []) else none)

group : ℕ → ℕ → ℕ → ℕ → Text → Option Text
group a b c d rest = do
  x ← undigit a
  y ← undigit b
  z ← undigit c
  u ← undigit d
  some (first_byte x y ∷ second_byte y z ∷ third_byte z u ∷ rest)

drop_newlines : Text → Text
drop_newlines [] = []
drop_newlines (c ∷ s) = if c == 10 || c == 13 then drop_newlines s else c ∷ drop_newlines s

decode_groups : Text → Option Text
unfolding last_group group
decode_groups [] = some []
decode_groups (a ∷ b ∷ c ∷ d ∷ []) = if d == b'=' then last_group a b c d else group a b c d []
decode_groups (a ∷ b ∷ c ∷ d ∷ rest) =
    let r = decode_groups rest in if d == b'=' then none else (r >>= group a b c d)
decode_groups _ = none

-- (*Encoding).Decode: newlines are skipped; `none` is a CorruptInputError.
unfoldable pub b64_decode : Text → Option Text
unfolding decode_groups drop_newlines undigit
b64_decode s = decode_groups (drop_newlines s)

abbrev pub IsByte : ℕ → Type 0
IsByte n = n < 256

hello : b64_decode (b64_encode (text "hello")) ≡ some (text "hello")
unfolding b64_decode b64_encode
hello = refl

hello_digits : b64_encode (text "hello") ≡ text "aGVsbG8="
unfolding b64_encode
hello_digits = refl
