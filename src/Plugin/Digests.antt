-- ===== src/Plugin/Digests.antt =====
-- plugin/hashlib/module.go and plugin/uuid/uuid.go: texts of digests and of UUIDs. BLAKE2b is a
-- parameter, as is the text of a new UUID, which a side effect gives.
pub mod Lengths
mod Tests
use starlark_worker.Prelude.{
  ℕ, ◌+◌, ◌-◌, ◌/◌, ◌%◌, ℤ, Bool, true, false, List, [], ◌∷◌, ◌++◌, Text, text, ◌==◌, nat_eq, ltb,
  if◌then◌else◌, Result, ok, err, ◌>>=◌,
}

-- A hexadecimal digit: `0` to `9`, `a` to `f`.
abbrev pub hex_digit : ℕ → ℕ
hex_digit n = if ltb n 10 then 48 + n else 87 + n

-- `%x` of bytes
unfoldable pub hex_text : Text → Text
hex_text [] = []
hex_text (b ∷ s) = hex_digit (b / 16) ∷ hex_digit (b % 16) ∷ hex_text s

-- hashWithBlake2b; `blake2b` makes a hash of the given size, with no key, and sums the input.
unfoldable pub hash_with_blake2b :
    {E : Type 0} → (ℤ → Text → Result E Text) → Text → ℤ → Result E Text
unfolding hex_text
hash_with_blake2b blake2b input output_size = do sum ← blake2b output_size input; ok (hex_text sum)

-- blake2b_hex, behind the unpacking of its arguments
unfoldable pub blake2b_hex : {E : Type 0} → (ℤ → Text → Result E Text) → Text → ℤ → Result E Text
unfolding hash_with_blake2b
blake2b_hex blake2b data_text digest_size = hash_with_blake2b blake2b data_text digest_size

-- UUID
pub record Uuid : Type 0 where
  pub string_uuid : Text

-- uuid4; the argument is what the side effect's value decodes to.
unfoldable pub uuid4 : {E : Type 0} → Result E Text → Result E Uuid
uuid4 got = do s ← got; ok (record { string_uuid = s })

-- _urn
unfoldable pub urn : Uuid → Text
urn u = text "urn:uuid:" ++ u.string_uuid

-- strings.ReplaceAll of one byte by the empty text.
abbrev pub remove_all : ℕ → Text → Text
remove_all c [] = []
remove_all c (b ∷ s) = if b == c then remove_all c s else b ∷ remove_all c s

-- _hex
unfoldable pub hex : Uuid → Text
hex u = remove_all b'-' u.string_uuid
