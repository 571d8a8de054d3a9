-- ===== src/Ext/JsonPath/Follow.antt =====
-- What a path means to ext/json_path.go: a walk along names and indices.
use mathlib.Core.Path.{fun_ext}
use mathlib.Core.List.{reverse-append, append_assoc}
use starlark_worker.Prelude.{
  ℕ, ℤ, pos, negsuc, ◌≡◌, refl, sym, ap, ◌∙◌, true, false, ◌||◌, Option, none, some, List, [], ◌∷◌,
  ◌++◌, Text, text, ◌==◌, nat_eq, list_eq, list_beq, has_prefix, split, Lacks, split-append,
  split-last, Result, ok, err, ◌>>=◌, atoi, All,
}
use starlark_worker.Star.Values.{Value, dict, list, get_field}
use starlark_worker.Ext.JsonPath.{
  PathErr, bad_type, not_found, has_dots, has_any, advanced, ends_bracket, break_bracket, init,
  parse_part, index, step, walk, strip_root, jp,
}

-- A name, and an index with its digits.
pub record Step : Type 0 where
  pub name : Text
  pub index : Option (Text × ℕ)

-- The text of a part of a path.
abbrev pub part_of : Text → Option (Text × ℕ) → Text
part_of name none = name
part_of name (some (d, i)) = name ++ b'[' ∷ (d ++ b']' ∷ [])

abbrev pub render : List Step → Text
render [] = []
render (s ∷ []) = part_of s.name s.index
render (s ∷ t ∷ ss) = part_of s.name s.index ++ b'.' ∷ render (t ∷ ss)

abbrev pub IsIndex : Text → Option (Text × ℕ) → Type 0
IsIndex name none = ends_bracket name ≡ false
IsIndex name (some (d, i)) = Lacks b'.' d × (atoi d ≡ some (pos i))

-- A name without dots and brackets that is not empty; the digits stand for the index.
pub record IsStep (s : Step) : Type 0 where
  pub nonempty : (s.name == []) ≡ false
  pub no_dot : Lacks b'.' s.name
  pub no_bracket : Lacks b'[' s.name
  pub is_index : IsIndex s.name s.index

abbrev index_of : Option (Text × ℕ) → ℤ
index_of none = negsuc 0
index_of (some (d, i)) = pos i

-- A step takes the field of its name in a map, and then the element at its index.
abbrev pub take_step : Value → Step → Result PathErr Value
take_step (dict d) s = elim (get_field s.name d) [
  | none ↦ err not_found
  | some w ↦ index w (index_of s.index)
]
take_step v s = err bad_type

abbrev pub follow : Value → List Step → Result PathErr Value
follow v [] = ok v
follow v (s ∷ ss) = take_step v s >>= λ w. follow w ss

Lacks-append : (c : ℕ) (s t : Text) → Lacks c s → Lacks c t → Lacks c (s ++ t)
Lacks-append c [] t h k = k
Lacks-append c (b ∷ s) t h k = (h.0, Lacks-append c s t h.1 k)

part_of-Lacks :
    (name : Text) (i : Option (Text × ℕ))
    → Lacks b'.' name
    → IsIndex name i
    → Lacks b'.' (part_of name i)
part_of-Lacks name none h k = h
part_of-Lacks name (some (d, i)) h k =
    Lacks-append b'.' name (b'[' ∷ (d ++ b']' ∷ [])) h
      (refl, Lacks-append b'.' d (b']' ∷ []) k.0 (refl, tt))

break_bracket-append :
    (name rest : Text) → Lacks b'[' name → break_bracket (name ++ b'[' ∷ rest) ≡ some (name, rest)
break_bracket-append [] rest h = refl
break_bracket-append (c ∷ name) rest h = rw (h.0) (rw (break_bracket-append name rest h.1))

init-append : (d : Text) (c : ℕ) → init (d ++ c ∷ []) ≡ d
init-append [] c = refl
init-append (b ∷ []) c = refl
init-append (b ∷ e ∷ d) c = ap (λ t. b ∷ t) (init-append (e ∷ d) c)

ends_bracket-append : (s : Text) → ends_bracket (s ++ b']' ∷ []) ≡ true
ends_bracket-append s = rw reverse-append

parse_part-bracket :
    (name d : Text) (z : ℤ)
    → Lacks b'[' name
    → atoi d ≡ some z
    → parse_part (name ++ b'[' ∷ (d ++ b']' ∷ [])) ≡ ok (name, z)
unfolding parse_part
parse_part-bracket name d z h k =
    rw (bracketed, parse_part)
      (rw (break_bracket-append name (d ++ b']' ∷ []) h) (rw (init-append d b']') (rw k)))
  where
    bracketed : ends_bracket (name ++ b'[' ∷ (d ++ b']' ∷ [])) ≡ true
    bracketed =
        ap ends_bracket (sym (append_assoc name (b'[' ∷ d) (b']' ∷ [])))
        ∙ ends_bracket-append (name ++ b'[' ∷ d)

parse_part-part_of :
    (name : Text) (i : Option (Text × ℕ))
    → Lacks b'[' name
    → IsIndex name i
    → parse_part (part_of name i) ≡ ok (name, index_of i)
unfolding parse_part
parse_part-part_of name none h k = rw k
parse_part-part_of name (some (d, i)) h k = parse_part-bracket name d (pos i) h k.1

part_of_nonempty :
    (name : Text) (i : Option (Text × ℕ)) → (name == []) ≡ false → (part_of name i == []) ≡ false
unfolding list_beq
part_of_nonempty [] none h = cc
part_of_nonempty [] (some (d, i)) h = cc
part_of_nonempty (c ∷ name) none h = refl
part_of_nonempty (c ∷ name) (some (d, i)) h = refl

bind_get :
    (o : Option Value) (i : ℤ)
    → ((elim o [ none ↦ err not_found | some v ↦ ok v ]) >>= λ v. index v i)
      ≡ elim o [ none ↦ err not_found | some w ↦ index w i ]
bind_get none i = refl
bind_get (some v) i = refl

step-part_of : (v : Value) (s : Step) → IsStep s → step v (part_of s.name s.index) ≡ take_step v s
unfolding step
step-part_of (dict d) s h =
    rw (parse_part-part_of s.name s.index h.no_bracket h.is_index)
      (bind_get (get_field s.name d) (index_of s.index))
step-part_of (list l) s h = refl
step-part_of _ s h = refl

walk_cons :
    (v : Value) (p : Text) (ps : List Text)
    → (p == []) ≡ false
    → walk v (p ∷ ps) ≡ (step v p >>= λ w. walk w ps)
walk_cons v p ps h = unfold walk in rw h

walk_nil : (v : Value) (ps : List Text) → walk v ([] ∷ ps) ≡ walk v ps
unfolding walk list_beq
walk_nil v ps = refl

walk_end : (v : Value) → walk v [] ≡ ok v
unfolding walk
walk_end v = refl

bind-ok : (r : Result PathErr Value) → (r >>= λ w. ok w) ≡ r
bind-ok (ok a) = refl
bind-ok (err e) = refl

-- Walking the parts of a rendered path follows its steps.
walk-render :
    (v : Value) (ss : List Step) → All IsStep ss → walk v (split b'.' [] (render ss)) ≡ follow v ss
walk-render v [] h = rw (split-last b'.' [] [] tt, walk_nil) (walk_end v)
walk-render v (s ∷ []) h =
    rw
      (
        split-last b'.' [] (part_of s.name s.index)
            (part_of-Lacks s.name s.index h.0.no_dot h.0.is_index),
        walk_cons v (part_of s.name s.index) [] (part_of_nonempty s.name s.index h.0.nonempty),
        step-part_of v s h.0,
      )
      (ap (λ f. take_step v s >>= f) (fun_ext walk_end))
walk-render v (s ∷ t ∷ ss) h =
    rw
      (
        split-append b'.' [] (part_of s.name s.index) (render (t ∷ ss))
            (part_of-Lacks s.name s.index h.0.no_dot h.0.is_index),
        walk_cons v (part_of s.name s.index) (split b'.' [] (render (t ∷ ss)))
            (part_of_nonempty s.name s.index h.0.nonempty),
        step-part_of v s h.0,
      )
      (ap (λ f. take_step v s >>= f) (fun_ext (λ w. walk-render w (t ∷ ss) h.1)))

-- What JP makes of the value that the walk ends at.
abbrev pub assert_type : {T : Type 0} → (Value → Option T) → Value → Result PathErr T
assert_type as_type v = elim (as_type v) [ none ↦ err bad_type | some t ↦ ok t ]

strip_root_lem : (p : Text) → has_prefix p (text "$.") ≡ false → strip_root p ≡ p
strip_root_lem [] h = refl
strip_root_lem (c ∷ p) h = rw h

split_root : (p : Text) → split b'.' [] (b'.' ∷ p) ≡ [] ∷ split b'.' [] p
split_root p = split-append b'.' [] [] p tt

-- On the text of a list of steps, with or without the root `$.` before it, JP follows the steps
-- and asserts the type of the value at the end, if the path has no two dots in a row and none of
-- the bytes of advanced paths.
pub jp-render :
    {T : Type 0} (as_type : Value → Option T) (v : Value) (ss : List Step)
    → All IsStep ss
    → (has_dots (render ss) || has_any advanced (render ss)) ≡ false
    → has_prefix (render ss) (text "$.") ≡ false
    → has_prefix (render ss) (text ".") ≡ false
    → (jp as_type v (render ss) ≡ (follow v ss >>= assert_type as_type))
      × (jp as_type v (text "$." ++ render ss) ≡ (follow v ss >>= assert_type as_type))
unfolding jp
jp-render as_type v ss h plain root dot = (
  rw (plain, strip_root_lem (render ss) root, walk-render v ss h) refl,
  rw (dot, plain) (rw (split_root (render ss), walk_nil, walk-render v ss h) refl),
)

-- A negative index is not refused: the part means its name alone.
pub step_negative :
    (v : Value) (name d : Text) (n : ℕ)
    → Lacks b'[' name
    → ends_bracket name ≡ false
    → atoi d ≡ some (negsuc n)
    → step v (name ++ b'[' ∷ (d ++ b']' ∷ [])) ≡ step v name
unfolding step index
step_negative v name d n h k e =
    rw (parse_part-bracket name d (negsuc n) h e, parse_part-part_of name none h k)
