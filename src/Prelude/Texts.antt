-- ===== src/Prelude/Texts.antt =====
-- Go strings and byte slices: lists of bytes.
use Prim.Native.Nat.{ℕ}
use Prim.Native.Char.{code}
use Prim.Native.String.{String}
use mathlib.Core.Bool.{Bool, true, false, ◌&&◌}
use mathlib.Core.List.{List, [], ◌∷◌, ◌++◌, reverse, append-nil, append_assoc, reverse-append}
use mathlib.Core.Path.{◌≡◌, ap, ◌∙◌}
use starlark_worker.Prelude.Tests.{◌==◌, nat_eq, beq_refl, if◌then◌else◌}

abbrev pub Text : Type 0
Text = List ℕ

-- The bytes of an ASCII literal.
abbrev pub text : String → Text
text String.[] = []
text (String.◌∷◌ c s) = code c ∷ text s

-- strings.HasPrefix
abbrev pub has_prefix : Text → Text → Bool
has_prefix s [] = true
has_prefix [] (c ∷ p) = false
has_prefix (b ∷ s) (c ∷ p) = b == c && has_prefix s p

-- strings.Split at one byte. `part` is the part read so far, backwards.
unfoldable pub split : ℕ → Text → Text → List Text
split sep part [] = reverse part ∷ []
split sep part (c ∷ s) = if c == sep then reverse part ∷ split sep [] s else split sep (c ∷ part) s

regroup : (part : Text) (c : ℕ) (s : Text) → reverse (c ∷ part) ++ s ≡ reverse part ++ c ∷ s
regroup part c s =
    ap (λ t. t ++ s) (reverse-append (c ∷ []) part) ∙ append_assoc (reverse part) (c ∷ []) s

-- The bytes hold none that is `c`.
abbrev pub Lacks : ℕ → Text → Type 0
Lacks c [] = Unit
Lacks c (b ∷ s) = ((b == c) ≡ false) × Lacks c s

-- Splitting finds the first separator.
pub split-append :
    (sep : ℕ) (part s rest : Text)
    → Lacks sep s
    → split sep part (s ++ sep ∷ rest) ≡ (reverse part ++ s) ∷ split sep [] rest
unfolding split
split-append sep part [] rest h = rw (beq_refl sep) (rw append-nil)
split-append sep part (c ∷ s) rest h =
    rw (h.0)
      (split-append sep (c ∷ part) s rest h.1 ∙ ap (λ t. t ∷ split sep [] rest) (regroup part c s))

pub split-last :
    (sep : ℕ) (part s : Text) → Lacks sep s → split sep part s ≡ (reverse part ++ s) ∷ []
unfolding split
split-last sep part [] h = rw append-nil
split-last sep part (c ∷ s) h =
    rw (h.0) (split-last sep (c ∷ part) s h.1 ∙ ap (λ t. t ∷ []) (regroup part c s))
