-- ===== src/Plugin/Request/Defaults.antt =====
-- The headers that DoJSON of plugin/request/activities.go adds.
use starlark_worker.Prelude.{
  ℤ, ◌≡◌, inl, inr, refl, sym, ap, ◌∙◌, Option, none, some, List, [], ◌∷◌, Text, text, ◌==◌, nat_eq,
  list_eq, list_beq, list_beq_iff, if◌then◌else◌, Bool-cases, lookup, insert, lookup-insert, itoa,
}
use starlark_worker.Plugin.Request.{Headers, first, default_headers}

-- The defaults, by their canonical keys.
abbrev pub defaults : ℤ → Headers
defaults n =
    (text "Content-Length", itoa n ∷ [])
    ∷ (text "Content-Type", text "application/json; charset=utf-8" ∷ [])
    ∷ (text "Accept", text "application/json" ∷ [])
    ∷ (text "Accept-Charset", text "utf-8" ∷ [])
    ∷ []

abbrev pub or_same : Option (List Text) → Option (List Text) → Option (List Text)
or_same none now = now
or_same (some v) now = some v

-- What a key has, with a default for it, if there is one.
abbrev pub with_default : Option (List Text) → Option (List Text) → Option (List Text)
with_default default now = if first now == [] then or_same default now else now

abbrev set_key : Text → List Text → Headers → Headers
set_key key v h = if first (lookup key h) == [] then insert key v h else h

abbrev set_each : Headers → Headers → Headers
set_each [] h = h
set_each ((key, v) ∷ t) h = set_each t (set_key key v h)

-- No key twice.
abbrev Apart : Headers → Type 0
Apart [] = Unit
Apart ((key, v) ∷ t) = (lookup key t ≡ none) × Apart t

with_default-none : (now : Option (List Text)) → with_default none now ≡ now
with_default-none now = elim (Bool-cases (first now == [])) [
  | inl e ↦ rw e refl
  | inr e ↦ rw e refl
]

lookup-set_key :
    (key k : Text) (v : List Text) (h : Headers)
    → lookup k (set_key key v h)
      ≡ (if key == k then with_default (some v) (lookup k h) else lookup k h)
lookup-set_key key k v h = elim (Bool-cases (first (lookup key h) == [])) [
  | inl e ↦ elim (Bool-cases (key == k)) [
    | inl f ↦
        let same : key ≡ k = (list_beq_iff nat_eq key k).0 f in
        rw (e, lookup-insert key k v h, f, sym same, e) refl
    | inr f ↦ rw (e, lookup-insert key k v h, f) refl
  ]
  | inr e ↦ elim (Bool-cases (key == k)) [
    | inl f ↦ let same : key ≡ k = (list_beq_iff nat_eq key k).0 f in rw (e, f, sym same, e) refl
    | inr f ↦ rw (e, f) refl
  ]
]

lookup-set_each :
    (t : Headers) (k : Text) (h : Headers)
    → Apart t
    → lookup k (set_each t h) ≡ with_default (lookup k t) (lookup k h)
unfolding lookup
lookup-set_each [] k h a = sym (with_default-none (lookup k h))
lookup-set_each ((key, v) ∷ t) k h (new, a) = elim (Bool-cases (key == k)) [
  | inl f ↦
      let same : key ≡ k = (list_beq_iff nat_eq key k).0 f in
      let no_more : lookup k t ≡ none = rw (sym same) new in
      let now = lookup k (set_key key v h) in
      let written : now ≡ with_default (some v) (lookup k h) =
        lookup-set_key key k v h ∙ rw f refl in
      lookup-set_each t k (set_key key v h) a
      ∙ ap (λ d. with_default d now) no_more
      ∙ with_default-none now
      ∙ written
      ∙ rw f refl
  | inr f ↦
      let written : lookup k (set_key key v h) ≡ lookup k h =
        lookup-set_key key k v h ∙ rw f refl in
      lookup-set_each t k (set_key key v h) a ∙ ap (with_default (lookup k t)) written ∙ rw f refl
]

-- A request has the four default headers, but where its own headers have a value under the same
-- canonical key that is not empty; under all other keys it has its own headers.
pub lookup-default_headers :
    (n : ℤ) (k : Text) (h : Headers)
    → lookup k (default_headers n h) ≡ with_default (lookup k (defaults n)) (lookup k h)
unfolding default_headers list_beq lookup
lookup-default_headers n k h = lookup-set_each (defaults n) k h (refl, (refl, (refl, (refl, tt))))
