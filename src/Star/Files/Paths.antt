-- ===== src/Star/Files/Paths.antt =====
-- What path.Clean makes of a name in star/fs.go.
use mathlib.Core.List.{reverse-append}
use starlark_worker.Prelude.{
  ◌≡◌, refl, true, false, List, [], ◌∷◌, ◌++◌, reverse, Text, text, ◌==◌, nat_eq, list_eq, split,
  All, Bool-cases, inl, inr,
}
use starlark_worker.Star.Files.{clean_part, clean_parts, join_parts, clean, is_abs}

-- A part that names a file or folder.
abbrev pub IsName : Text → Type 0
IsName p = ((p == []) ≡ false) × ((p == text ".") ≡ false) × ((p == text "..") ≡ false)

All-rest : (kept : List Text) → All IsName kept → All IsName (elim kept [ [] ↦ [] | k ∷ ks ↦ ks ])
All-rest [] h = h
All-rest (k ∷ ks) h = h.1

clean_part-IsName : (kept : List Text) (p : Text) → All IsName kept → All IsName (clean_part kept p)
unfolding clean_part
clean_part-IsName kept p h = elim (Bool-cases (p == [])) [
  | inl a ↦ rw a h
  | inr a ↦ elim (Bool-cases (p == text ".")) [
    | inl b ↦ rw (a, b) h
    | inr b ↦ elim (Bool-cases (p == text "..")) [
      | inl c ↦ rw (a, b, c) (All-rest kept h)
      | inr c ↦ rw (a, b, c) ((a, b, c), h)
    ]
  ]
]

clean_parts-IsName :
    (kept parts : List Text) → All IsName kept → All IsName (clean_parts kept parts)
unfolding clean_parts
clean_parts-IsName kept [] h = h
clean_parts-IsName kept (p ∷ ps) h =
    clean_parts-IsName (clean_part kept p) ps (clean_part-IsName kept p h)

join_parts_abs : (ps : List Text) → is_abs (join_parts ps) ≡ true
unfolding join_parts
join_parts_abs [] = refl
join_parts_abs (p ∷ []) = refl
join_parts_abs (p ∷ q ∷ ps) = refl

-- A clean path is absolute.
pub clean_abs : (p : Text) → is_abs (clean p) ≡ true
unfolding clean
clean_abs p = join_parts_abs _

All-append : (xs ys : List Text) → All IsName xs → All IsName ys → All IsName (xs ++ ys)
All-append [] ys hx hy = hy
All-append (x ∷ xs) ys hx hy = (hx.0, All-append xs ys hx.1 hy)

All-reverse : (xs : List Text) → All IsName xs → All IsName (reverse xs)
All-reverse [] h = h
All-reverse (x ∷ xs) h =
    rw (reverse-append (x ∷ []) xs)
      (All-append (reverse xs) (x ∷ []) (All-reverse xs h.1) (h.0, tt))

-- A clean path is a slash before each of some names, none of them empty, `.` or `..`: no name in an
-- archive leads out of its root.
pub clean_names : (p : Text) → (ps : List Text) × (clean p ≡ join_parts ps) × All IsName ps
unfolding clean
clean_names p = (_, refl, All-reverse _ (clean_parts-IsName [] (split b'/' [] (b'/' ∷ p)) tt))
