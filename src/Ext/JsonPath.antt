-- ===== src/Ext/JsonPath.antt =====
-- ext/json_path.go: a small JSON path. Decoded JSON is a value whose dicts are Go's
-- map[string]any and whose lists are []any.
pub mod Follow
mod Tests
use starlark_worker.Prelude.{
  ℕ, zero, suc, ℤ, pos, negsuc, Bool, true, false, ◌||◌, ◌&&◌, Option, none, some, List, [], ◌∷◌,
  ◌++◌, reverse, Text, text, ◌==◌, nat_eq, list_eq, has_prefix, split, if◌then◌else◌, Result, ok,
  err, ◌>>=◌, atoi, leb,
}
use starlark_worker.Star.Values.{Value, dict, list, Items, nil, cons, get_field}

pub data PathErr : Type 0 where
  unsupported bad_type bad_path not_found : PathErr

-- strings.Contains(path, "..")
abbrev pub has_dots : Text → Bool
has_dots [] = false
has_dots (c ∷ s) = has_prefix (c ∷ s) (text "..") || has_dots s

abbrev pub one_of : Text → ℕ → Bool
one_of [] c = false
one_of (d ∷ set) c = c == d || one_of set c

-- strings.ContainsAny(path, set)
abbrev pub has_any : Text → Text → Bool
has_any set [] = false
has_any set (c ∷ s) = one_of set c || has_any set s

-- The bytes ()<>=*?'" and space.
abbrev pub advanced : Text
advanced = text "()<>=*?'\" "

-- The last byte is `]`.
abbrev pub ends_bracket : Text → Bool
ends_bracket f = has_prefix (reverse f) (text "]")

-- strings.Index(f, "["): what stands before the first bracket and behind it.
abbrev pub break_bracket : Text → Option (Text × Text)
break_bracket [] = none
break_bracket (c ∷ s) =
    if c == b'['
    then some ([], s)
    else (elim (break_bracket s) [ none ↦ none | some p ↦ some (c ∷ p.0, p.1) ])

-- A text without its last byte.
abbrev pub init : Text → Text
init [] = []
init (c ∷ []) = []
init (c ∷ d ∷ s) = c ∷ init (d ∷ s)

-- The name and the index of one part of the path; the code's index -1 stands for no index.
unfoldable pub parse_part : Text → Result PathErr (Text × ℤ)
parse_part f =
    if ends_bracket f
    then (elim (break_bracket f) [
      | none ↦ err bad_path
      | some p ↦ elim (atoi (init p.1)) [ none ↦ err bad_path | some i ↦ ok (p.0, i) ]
    ])
    else ok (f, negsuc 0)

abbrev pub item : Items → ℕ → Option Value
item nil i = none
item (cons v l) zero = some v
item (cons v l) (suc i) = item l i

-- `res[idx]`, if the index is above -1
unfoldable pub index : Value → ℤ → Result PathErr Value
index v (negsuc n) = ok v
index (list l) (pos i) = elim (item l i) [ none ↦ err not_found | some v ↦ ok v ]
index v (pos i) = err bad_type

get : Value → Text → Result PathErr Value
get (dict d) name = elim (get_field name d) [ none ↦ err not_found | some v ↦ ok v ]
get v name = err bad_type

abbrev is_map : Value → Bool
is_map (dict d) = true
is_map v = false

-- The body of the loop, for a part that is not empty.
unfoldable pub step : Value → Text → Result PathErr Value
unfolding get
step res f =
    if is_map res then (do (name, i) ← parse_part f; v ← get res name; index v i) else err bad_type

-- The loop over the parts.
unfoldable pub walk : Value → List Text → Result PathErr Value
unfolding step
walk res [] = ok res
walk res (f ∷ fs) =
    let skip = walk res fs in
    let next = (do v ← step res f; walk v fs) in if f == [] then skip else next

abbrev pub strip_root : Text → Text
strip_root (c ∷ s) = if has_prefix (c ∷ s) (text "$.") then s else c ∷ s
strip_root [] = []

-- JP; `as_type` is the type assertion to the result type.
unfoldable pub jp : {T : Type 0} → (Value → Option T) → Value → Text → Result PathErr T
unfolding walk
jp as_type obj path = if has_dots path || has_any advanced path then err unsupported else do
  res ← walk obj (split b'.' [] (strip_root path))
  elim (as_type res) [ none ↦ err bad_type | some t ↦ ok t ]
