-- ===== src/Plugin/Clock/Formats.antt =====
-- What `utc_format_seconds` of plugin/time/module.go makes of a format.
use starlark_worker.Prelude.{
  ℕ, ◌≡◌, refl, sym, ap, ◌∙◌, ◌↔◌, true, false, ◌||◌, none, some, List, [], ◌∷◌, ◌++◌, Text, ◌==◌,
  nat_eq, Result, ok, err, ok_injective, All, Bool-cases, Option-cases, inl, inr, arith,
}
use starlark_worker.Plugin.Clock.{Conversions, directive, replace, holds, utc_format_seconds}

-- A format, as pieces: bytes, and directives with their layouts.
pub data Piece : Type 0 where
  byte : ℕ → Piece
  code : ℕ → Text → Piece

abbrev pub IsPiece : Piece → Type 0
IsPiece (byte c) = (c == b'%') ≡ false
IsPiece (code k l) = directive k ≡ some l

abbrev pub render : List Piece → Text
render [] = []
render (byte c ∷ ps) = c ∷ render ps
render (code k l ∷ ps) = b'%' ∷ k ∷ render ps

abbrev pub layout : List Piece → Text
layout [] = []
layout (byte c ∷ ps) = c ∷ layout ps
layout (code k l ∷ ps) = l ++ layout ps

holds-append : (c : ℕ) (s t : Text) → holds c (s ++ t) ≡ (holds c s || holds c t)
holds-append c [] t = refl
holds-append c (b ∷ s) t = ground (arith, holds-append c s t)

-- The layouts are without the sign of a directive.
holds-directive : (k : ℕ) (l : Text) → directive k ≡ some l → holds b'%' l ≡ false
unfolding directive
holds-directive k l h = ground arith

replace-byte : (c : ℕ) (s : Text) → (c == b'%') ≡ false → replace (c ∷ s) ≡ c ∷ replace s
unfolding replace
replace-byte c [] h = refl
replace-byte c (d ∷ s) h = rw (replace, h) refl

replace-code : (k : ℕ) (l s : Text) → directive k ≡ some l → replace (b'%' ∷ k ∷ s) ≡ l ++ replace s
unfolding replace
replace-code k l s h = rw (replace, h) refl

replace-none :
    (d : ℕ) (s : Text) → directive d ≡ none → replace (b'%' ∷ d ∷ s) ≡ b'%' ∷ replace (d ∷ s)
unfolding replace
replace-none d s h = rw (replace, h) refl

replace-render : (ps : List Piece) → All IsPiece ps → replace (render ps) ≡ layout ps
unfolding replace
replace-render [] h = refl
replace-render (byte c ∷ ps) (h, hs) =
    replace-byte c (render ps) h ∙ ap (λ t. c ∷ t) (replace-render ps hs)
replace-render (code k l ∷ ps) (h, hs) =
    replace-code k l (render ps) h ∙ ap (λ t. l ++ t) (replace-render ps hs)

holds-layout : (ps : List Piece) → All IsPiece ps → holds b'%' (layout ps) ≡ false
holds-layout [] h = refl
holds-layout (byte c ∷ ps) (h, hs) = rw (h, holds-layout ps hs) refl
holds-layout (code k l ∷ ps) (h, hs) =
    holds-append b'%' l (layout ps) ∙ rw (holds-directive k l h, holds-layout ps hs) refl

holds_tail : (c : ℕ) (s : Text) → holds b'%' (c ∷ s) ≡ false → holds b'%' s ≡ false
holds_tail c s h = ground arith

holds_head : (c : ℕ) (s : Text) → holds b'%' (c ∷ s) ≡ false → (c == b'%') ≡ false
holds_head c s h = ground arith

holds_behind : (s t : Text) → holds b'%' (s ++ t) ≡ false → holds b'%' t ≡ false
holds_behind [] t h = h
holds_behind (c ∷ s) t h = holds_behind s t (holds_tail c (s ++ t) h)

abbrev IsRendered : Text → Type 0
IsRendered s = (ps : List Piece) × (All IsPiece ps × (s ≡ render ps))

byte-IsRendered : (c : ℕ) (s : Text) → (c == b'%') ≡ false → IsRendered s → IsRendered (c ∷ s)
byte-IsRendered c s h (ps, (all, e)) = (byte c ∷ ps, ((h, all), ap (λ t. c ∷ t) e))

code-IsRendered :
    (k : ℕ) (l s : Text) → directive k ≡ some l → IsRendered s → IsRendered (b'%' ∷ k ∷ s)
code-IsRendered k l s h (ps, (all, e)) = (code k l ∷ ps, ((h, all), ap (λ t. b'%' ∷ k ∷ t) e))

percent : (c : ℕ) → (c == b'%') ≡ true → c ≡ b'%'
percent c h = (nat_eq.beq_iff c b'%').0 h

at_percent :
    (c d : ℕ) (s : Text)
    → (c == b'%') ≡ true
    → holds b'%' (replace (c ∷ d ∷ s)) ≡ false
    → holds b'%' (replace (b'%' ∷ d ∷ s)) ≡ false
at_percent c d s e h = ap (λ b. holds b'%' (replace (b ∷ d ∷ s))) (sym (percent c e)) ∙ h

no_truth : true ≡ false → ⊥
no_truth h = cc

err_ok : {E A : Type 0} {e : E} {a : A} → Path (Result E A) (err e) (ok a) → ⊥
err_ok h = cc

-- A format whose replacement is without a sign of a directive is one of pieces.
rendered : (s : Text) → holds b'%' (replace s) ≡ false → IsRendered s
unfolding replace
rendered [] h = ([], (tt, refl))
rendered (c ∷ []) h = byte-IsRendered c [] (holds_head c [] h) ([], (tt, refl))
rendered (c ∷ d ∷ s) h = elim (Bool-cases (c == b'%')) [
  | inr f ↦
      byte-IsRendered c (d ∷ s) f
        (rendered (d ∷ s) (holds_tail c (replace (d ∷ s)) (rw (replace-byte c (d ∷ s) f) at h)))
  | inl e ↦ elim (Option-cases (directive d)) [
    | inl n ↦ absurd (no_truth (ap (holds b'%') (sym (replace-none d s n)) ∙ at_percent c d s e h))
    | inr (l, m) ↦ rw (percent c e) (
        code-IsRendered d l s m (
          rendered s (
            holds_behind l (replace s)
              (ap (holds b'%') (sym (replace-code d l s m)) ∙ at_percent c d s e h))))
  ]
]

module _ {Ctx World E : Type 0} (conversions : Conversions Ctx World E) where
  open conversions use {truncate, format_unix}

  formatted :
      (format : Text) (seconds : ℕ) (r : Text) (ps : List Piece)
      → All IsPiece ps
      → format ≡ render ps
      → utc_format_seconds conversions format seconds
        ≡ ok (format_unix (layout ps) (truncate seconds))
  unfolding utc_format_seconds
  formatted format seconds r ps all e =
      let same : replace format ≡ layout ps = ap replace e ∙ replace-render ps all in
      rw (same, holds-layout ps all) refl

  accepted :
      (format : Text) (seconds : ℕ) (r : Text)
      → utc_format_seconds conversions format seconds ≡ ok r
      → holds b'%' (replace format) ≡ false
  unfolding utc_format_seconds
  accepted format seconds r h = elim (Bool-cases (holds b'%' (replace format))) [
    | inl a ↦ absurd (err_ok (rw (utc_format_seconds, a) at h))
    | inr a ↦ a
  ]

  -- A format is accepted exactly when it is made of bytes other than `%` and of the seven directives;
  -- the time is then printed by the layout in which each directive is replaced by its own.
  pub utc_format_seconds-eq_ok :
      (format : Text) (seconds : ℕ) (r : Text)
      → (utc_format_seconds conversions format seconds ≡ ok r) ↔ (
          (ps : List Piece) × (All IsPiece ps
            × ((format ≡ render ps) × (r ≡ format_unix (layout ps) (truncate seconds)))))
  utc_format_seconds-eq_ok format seconds r = (
    λ h.
        let (ps, (all, e)) = rendered format (accepted format seconds r h) in
        (ps, (all, (e, ok_injective (sym h ∙ formatted format seconds r ps all e)))),
    λ (ps, (all, (e, q))). formatted format seconds r ps all e ∙ ap ok (sym q),
  )
