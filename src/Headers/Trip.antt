-- ===== src/Headers/Trip.antt =====
-- The headers of a context arrive as they were.
use starlark_worker.Prelude.{
  ◌≡◌, refl, sym, ap, ◌∙◌, inl, inr, none, List, [], ◌∷◌, ◌++◌, Text, ◌==◌, nat_eq, list_eq,
  list_beq_iff, ok, lookup, insert, Bool-cases, beq_refl,
}
use mathlib.Core.List.{append-nil, append_assoc}
use starlark_worker.Service.Lifecycle.{returned}
use starlark_worker.Headers.{
  HeaderMap, headers, set_headers, cad_inject, cad_read_headers, cad_extract, Payloads,
  set_payloads, temp_inject, temp_read_headers, temp_extract,
}

-- No key twice, as in a Go map.
abbrev pub IsMap : {V : Type 0} → List (Text × V) → Type 0
IsMap [] = Unit
IsMap ((k, v) ∷ h) = (lookup k h ≡ none) × IsMap h

-- Writing a key that is not in the map adds it at the end.
insert-none :
    {V : Type 0} (k : Text) (v : V) (h : List (Text × V))
    → lookup k h ≡ none
    → insert k v h ≡ h ++ (k, v) ∷ []
unfolding lookup insert
insert-none k v [] e = refl
insert-none k v ((j, u) ∷ h) e = elim (Bool-cases (j == k)) [
  | inl f ↦ (let z = rw (f, lookup) at e in absurd cc)
  | inr f ↦ rw f (ap (λ l. (j, u) ∷ l) (insert-none k v h (rw (f, lookup) at e)))
]

lookup-append_none :
    {V : Type 0} (k : Text) (f g : List (Text × V))
    → lookup k (f ++ g) ≡ none
    → (lookup k f ≡ none) × (lookup k g ≡ none)
unfolding lookup
lookup-append_none k [] g e = (refl, e)
lookup-append_none k ((j, u) ∷ f) g e = elim (Bool-cases (j == k)) [
  | inl t ↦ (let z = rw (t, lookup) at e in absurd cc)
  | inr t ↦ let (a, b) = lookup-append_none k f g (rw (t, lookup) at e) in (rw (t, lookup) a, b)
]

-- A key further behind is not among those before it.
IsMap-before :
    {V : Type 0} (f h : List (Text × V)) (k : Text) (v : V)
    → IsMap (f ++ (k, v) ∷ h)
    → lookup k f ≡ none
unfolding lookup
IsMap-before [] h k v m = refl
IsMap-before ((j, u) ∷ f) h k v (new, m) = elim (Bool-cases (j == k)) [
  | inr t ↦ rw (t, lookup) (IsMap-before f h k v m)
  | inl t ↦
      let same : j ≡ k = (list_beq_iff nat_eq j k).0 t in
      let z = rw (beq_refl k, lookup) at (rw same at (lookup-append_none j f ((k, v) ∷ h) new).1) in
      absurd cc
]

set_headers-append :
    (h fields : HeaderMap Text) → IsMap (fields ++ h) → set_headers h fields ≡ fields ++ h
unfolding set_headers
set_headers-append [] fields m = sym (append-nil fields)
set_headers-append ((k, v) ∷ h) fields m =
    let added = insert-none k v fields (IsMap-before fields h k v m) in
    let shifted = append_assoc fields ((k, v) ∷ []) h in
    rw (added, set_headers-append h (fields ++ (k, v) ∷ []) (rw shifted m)) shifted

cad_read_headers-set_headers :
    (fields h : HeaderMap Text) → cad_read_headers fields h ≡ set_headers fields h
unfolding cad_read_headers set_headers
cad_read_headers-set_headers [] h = refl
cad_read_headers-set_headers ((k, v) ∷ fields) h =
    cad_read_headers-set_headers fields (insert k v h)

module _ {P E : Type 0} (payloads : Payloads P E)
    (convert : (v : Text)
      → (p : P) × (payloads.to_payload v ≡ ok p) × (payloads.from_payload p ≡ ok v)) where
  -- The payloads of the headers.
  abbrev converted : HeaderMap Text → HeaderMap P
  converted [] = []
  converted ((k, v) ∷ h) = (k, (convert v).0) ∷ converted h

  lookup-converted :
      (k : Text) (h : HeaderMap Text) → lookup k h ≡ none → lookup k (converted h) ≡ none
  unfolding lookup
  lookup-converted k [] e = refl
  lookup-converted k ((j, u) ∷ h) e = elim (Bool-cases (j == k)) [
    | inl t ↦ (let z = rw (t, lookup) at e in absurd cc)
    | inr t ↦ rw (t, lookup) (lookup-converted k h (rw (t, lookup) at e))
  ]

  IsMap-converted : (h : HeaderMap Text) → IsMap h → IsMap (converted h)
  IsMap-converted [] m = tt
  IsMap-converted ((k, v) ∷ h) (new, m) = (lookup-converted k h new, IsMap-converted h m)

  set_payloads-append :
      (h : HeaderMap Text) (fields : HeaderMap P)
      → IsMap (fields ++ converted h)
      → set_payloads payloads h fields ≡ ok (fields ++ converted h)
  unfolding set_payloads
  set_payloads-append [] fields m = ap ok (sym (append-nil fields))
  set_payloads-append ((k, v) ∷ h) fields m =
      let (p, to, from) = convert v in
      let added = insert-none k p fields (IsMap-before fields (converted h) k p m) in
      let shifted = append_assoc fields ((k, p) ∷ []) (converted h) in
      rw (to, added, set_payloads-append h (fields ++ (k, p) ∷ []) (rw shifted m)) (ap ok shifted)

  temp_read_headers-append :
      (fields h : HeaderMap Text)
      → IsMap (h ++ fields)
      → temp_read_headers payloads (converted fields) h ≡ ok (h ++ fields)
  unfolding temp_read_headers
  temp_read_headers-append [] h m = ap ok (sym (append-nil h))
  temp_read_headers-append ((k, v) ∷ fields) h m =
      let (p, to, from) = convert v in
      let added = insert-none k v h (IsMap-before h fields k v m) in
      let shifted = append_assoc h ((k, v) ∷ []) fields in
      rw (from, added, temp_read_headers-append fields (h ++ (k, v) ∷ []) (rw shifted m))
        (ap ok shifted)

  -- The headers of a context, written by Inject to a call with no other headers, are read back by
  -- Extract as they were, over both engines, if Temporal's converter reads back the payloads that it
  -- makes of bytes.
  pub extract-inject :
      (h : HeaderMap Text)
      → IsMap h
      → ((fields : HeaderMap Text) × (cad_inject (headers h) [] ≡ returned fields)
          × (cad_extract fields ≡ headers h))
        × ((fields : HeaderMap P) × (temp_inject payloads (headers h) [] ≡ returned (ok fields))
            × (temp_extract payloads fields ≡ ok (headers h)))
  unfolding cad_inject cad_extract temp_inject temp_extract
  extract-inject h m = (
    (
      h,
      ap returned (set_headers-append h [] m),
      ap headers (cad_read_headers-set_headers h [] ∙ set_headers-append h [] m),
    ),
    (
      converted h,
      ap returned (set_payloads-append h [] (IsMap-converted h m)),
      rw (temp_read_headers-append h [] m) refl,
    ),
  )
