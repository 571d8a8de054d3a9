-- ===== src/Star/Dataclass/Maps.antt =====
-- Copying a map whose keys are distinct, as star/utils.go and star/dataclass.go do.
use starlark_worker.Prelude.{
  ◌≡◌, ◌⊎◌, refl, sym, ap, ◌∙◌, true, false, none, some, Text, ◌==◌, nat_eq, list_eq, Bool-cases,
  inl, inr, list_beq_iff, if◌then◌else◌, ok, err, arith,
}
use starlark_worker.Star.Errors.{attribute_not_found}
use starlark_worker.Star.Values.{Value, Fields, empty, field, get_field, set_field}
use starlark_worker.Star.Dataclass.{items, set_all, found, set_attr}

-- No key of the list occurs in the map, or earlier in the list.
abbrev pub NewKeys : Fields → Fields → Type 0
NewKeys m empty = Unit
NewKeys m (field k v fs) = (get_field k m ≡ none) × NewKeys (set_field k v m) fs

abbrev pub append : Fields → Fields → Fields
append empty m = m
append (field k v fs) m = field k v (append fs m)

set_field-new :
    (k : Text) (v : Value) (m rest : Fields)
    → get_field k m ≡ none
    → append (set_field k v m) rest ≡ append m (field k v rest)
set_field-new k v empty rest h = refl
set_field-new k v (field j w fs) rest h = elim (Bool-cases (j == k)) [
  | inl e ↦ ground arith
  | inr e ↦ ground (arith, set_field-new k v fs rest)
]

append-empty : (m : Fields) → append m empty ≡ m
append-empty empty = refl
append-empty (field k v m) = ap (λ t. field k v t) (append-empty m)

set_all-append : (fs m : Fields) → NewKeys m fs → set_all (items fs) m ≡ append m fs
set_all-append empty m h = sym (append-empty m)
set_all-append (field k v fs) m h =
    set_all-append fs (set_field k v m) h.1 ∙ set_field-new k v m fs h.0

-- A map with distinct keys is copied as it is.
pub set_all-items : (fs : Fields) → NewKeys empty fs → set_all (items fs) empty ≡ fs
set_all-items fs h = set_all-append fs empty h

-- Reading after a write.
pub get_field-set_field :
    (k j : Text) (v : Value) (m : Fields)
    → get_field j (set_field k v m) ≡ (if k == j then some v else get_field j m)
get_field-set_field k j v empty = refl
get_field-set_field k j v (field i w m) = ground (
  arith,
  list_beq_iff nat_eq k j,
  list_beq_iff nat_eq i k,
  list_beq_iff nat_eq i j,
  get_field-set_field k j v m,
)

-- SetField after a successful SetField, and what Attr reads then.
module _ (name : Text) (v : Value) (attrs : Fields) where
  pub found-set_field :
      (k : Text)
      → found (get_field k attrs) ≡ true
      → found (get_field k (set_field name v attrs)) ≡ true
  found-set_field k h = rw (get_field-set_field name k v attrs) (ground arith)

  pub set_attr-cases :
      ((found (get_field name attrs) ≡ false)
        × (set_attr name v attrs ≡ err (attribute_not_found name)))
      ⊎ ((found (get_field name attrs) ≡ true)
          × (set_attr name v attrs ≡ ok (set_field name v attrs)))
  unfolding set_attr
  set_attr-cases = ground arith
