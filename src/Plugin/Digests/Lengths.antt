-- ===== src/Plugin/Digests/Lengths.antt =====
-- The lengths of the texts of digests and UUIDs, and what they are made of.
use starlark_worker.Prelude.{
  ℕ, ◌*◌, ◌/◌, ◌%◌, ◌<◌, ◌≤◌, ℤ, pos, ◌≡◌, ◌⊎◌, refl, sym, ap, ◌∙◌, List, [], ◌∷◌, ◌++◌, Text, text,
  nat_eq, Result, ok, >>=-eq-ok, ok_injective, Lacks, All, length, arith,
}
use mathlib.Core.List.{append-nil}
use starlark_worker.Plugin.Digests.{
  hex_digit, hex_text, hash_with_blake2b, blake2b_hex, urn, hex, remove_all,
}

-- A digit or one of the letters `a` to `f`.
abbrev pub IsHexDigit : ℕ → Type 0
IsHexDigit c = ((48 ≤ c) × (c ≤ 57)) ⊎ ((97 ≤ c) × (c ≤ 102))

hex_digit-IsHexDigit : (n : ℕ) → n < 16 → IsHexDigit (hex_digit n)
hex_digit-IsHexDigit n h = ground arith

hex_text-IsHexDigit : (s : Text) → All (λ b. b < 256) s → All IsHexDigit (hex_text s)
unfolding hex_text
hex_text-IsHexDigit [] h = tt
hex_text-IsHexDigit (b ∷ s) (lt, h) = (
  hex_digit-IsHexDigit (b / 16) (omega arith),
  (hex_digit-IsHexDigit (b % 16) (omega arith), hex_text-IsHexDigit s h),
)

length-hex_text : (s : Text) → length (hex_text s) ≡ 2 * length s
unfolding hex_text
length-hex_text [] = omega arith
length-hex_text (b ∷ s) = omega (arith, length-hex_text s)

-- If the hash of size n sums to n bytes, blake2b_hex with the digest size n gives 2 * n digits, each
-- from `0` to `9` or from `a` to `f`.
pub length-blake2b_hex :
    {E : Type 0} (blake2b : ℤ → Text → Result E Text)
    (sized : (n : ℕ) (s sum : Text)
      → blake2b (pos n) s ≡ ok sum
      → (length sum ≡ n) × All (λ b. b < 256) sum)
    (s t : Text) (n : ℕ)
    → blake2b_hex blake2b s (pos n) ≡ ok t
    → (length t ≡ 2 * n) × All IsHexDigit t
unfolding blake2b_hex hash_with_blake2b
length-blake2b_hex blake2b sized s t n h =
    let (sum, e, k) = >>=-eq-ok (blake2b (pos n) s) (λ sum. ok (hex_text sum)) h in
    let (len, small) = sized n s sum e in
    let same = ok_injective k in
    (
      ap length (sym same) ∙ length-hex_text sum ∙ ap (λ m. 2 * m) len,
      rw same at (hex_text-IsHexDigit sum small),
    )

remove_all-Lacks :
    (c : ℕ) (s rest : Text) → Lacks c s → remove_all c (s ++ rest) ≡ s ++ remove_all c rest
remove_all-Lacks c [] rest h = refl
remove_all-Lacks c (b ∷ s) rest h = rw (h.0) (ap (λ t. b ∷ t) (remove_all-Lacks c s rest h.1))

-- The groups of a UUID's text, with the dash between them.
abbrev pub dashed : List Text → Text
dashed [] = []
dashed (g ∷ []) = g
dashed (g ∷ h ∷ gs) = g ++ b'-' ∷ dashed (h ∷ gs)

abbrev pub concat : List Text → Text
concat [] = []
concat (g ∷ gs) = g ++ concat gs

remove_all-dashed : (gs : List Text) → All (Lacks b'-') gs → remove_all b'-' (dashed gs) ≡ concat gs
remove_all-dashed [] h = refl
remove_all-dashed (g ∷ []) h =
    ap (remove_all b'-') (sym (append-nil g)) ∙ remove_all-Lacks b'-' g [] h.0
remove_all-dashed (g ∷ k ∷ gs) h =
    remove_all-Lacks b'-' g (b'-' ∷ dashed (k ∷ gs)) h.0
    ∙ ap (λ t. g ++ t) (remove_all-dashed (k ∷ gs) h.1)

-- The `hex` of a UUID is the groups of its text without the dashes between them, and its `urn` is the
-- text behind `urn:uuid:`.
pub hex-dashed :
    (gs : List Text)
    → All (Lacks b'-') gs
    → (hex (record { string_uuid = dashed gs }) ≡ concat gs)
      × (urn (record { string_uuid = dashed gs }) ≡ text "urn:uuid:" ++ dashed gs)
unfolding hex urn
hex-dashed gs h = (remove_all-dashed gs h, refl)
