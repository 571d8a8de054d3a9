-- ===== src/Plugin/Digests/Tests.antt =====
-- Runs of plugin/hashlib/module.go and plugin/uuid/uuid.go.
use starlark_worker.Prelude.{
  nat_eq, ℤ, pos, negsuc, ◌≡◌, refl, Text, text, Result, ok, err, replicate,
}
use starlark_worker.Plugin.Digests.{hex, blake2b_hex}

-- A hash that sums to as many bytes 171 as it has.
abbrev constant : ℤ → Text → Result Text Text
constant (pos n) s = ok (replicate n 171)
constant (negsuc n) s = err (text "invalid hash size")

hashed : blake2b_hex constant (text "x") (pos 2) ≡ ok (text "abab")
unfolding blake2b_hex
hashed = refl

without_dashes :
    hex (record { string_uuid = text "123e4567-e89b-12d3-a456-426614174000" })
    ≡ text "123e4567e89b12d3a456426614174000"
unfolding hex
without_dashes = refl
