-- ===== src/Client/Package/Ends.antt =====
-- The recursion of `load` of client/cadence_client/client.go ends, although scripts may load each
-- other in a circle.
use starlark_worker.Prelude.{
  ℕ, zero, suc, ◌+◌, ◌<◌, ◌≤◌, ◌≡◌, ◌⊎◌, inl, inr, refl, sym, ap, ◌∙◌, true, false, Option, some,
  List, [], ◌∷◌, ◌++◌, Text, ◌==◌, nat_eq, list_eq, list_beq_iff, if◌then◌else◌, Result, ok, err,
  Bool-cases, Result-cases, ok_injective, contains, All, length, arith,
}
use starlark_worker.Client.Package.{
  Disk, is_plugin, each, resolve, enter, load, loads_of, on_load, package_files,
}
use starlark_worker.Client.Package.Closed.{
  imports, Done, enter-ok, loads_of-cases, load-Done, contains-append, contains_here,
}

-- How many of the files are not in the cache.
abbrev pub missing : List Text → List Text → ℕ
missing [] cache = 0
missing (u ∷ us) cache = (if contains u cache then 0 else 1) + missing us cache

missing_le : (us cache more : List Text) → missing us (cache ++ more) ≤ missing us cache
missing_le [] cache more = omega arith
missing_le (u ∷ us) cache more =
    ground (arith, contains-append u cache more, missing_le us cache more)

missing_lt :
    (us cache : List Text) (p : Text)
    → contains p us ≡ true
    → contains p cache ≡ false
    → missing us (cache ++ p ∷ []) < missing us cache
missing_lt [] cache p h k = absurd (cc)
missing_lt (u ∷ us) cache p h k = elim (Bool-cases (p == u)) [
  | inl e ↦
      let equal : p ≡ u = (list_beq_iff nat_eq p u).0 e in
      rw (sym equal, contains_here p cache [], k) (omega (arith, missing_le us cache (p ∷ [])))
  | inr e ↦
      let inside : contains p us ≡ true = rw e at h in
      ground (arith, contains-append u cache (p ∷ []), missing_lt us cache p inside k)
]

missing_bound : (us cache : List Text) → missing us cache ≤ length us
missing_bound [] cache = omega arith
missing_bound (u ∷ us) cache = ground (arith, missing_bound us cache)

module _ {E : Type 0} (disk : Disk E) (root : Text) (known : List Text) where
  open disk use {abs}

  -- The path names a plugin, or nothing below the root, or one of the known files.
  abbrev pub Known : Text → Type 0
  Known l =
      (is_plugin l ≡ true)
      ⊎ ((e : E) × (resolve disk root l ≡ err e))
      ⊎ ((q : Text) × (resolve disk root l ≡ ok q) × (contains q known ≡ true))

  module _ {S : Type 0} (callback : Text → S → Result E S) (rooted : abs root ≡ ok root)
      (closed : (p : Text) (loads : List Text)
        → contains p known ≡ true
        → imports disk root p ≡ ok loads
        → All Known loads) where
    known_file :
        (path p : Text)
        → Known path
        → is_plugin path ≡ false
        → resolve disk root path ≡ ok p
        → contains p known ≡ true
    known_file path p (inl k) e below = absurd cc
    known_file path p (inr (inl (x, k))) e below = absurd cc
    known_file path p (inr (inr (q, k, inside))) e below = rw (ok_injective (sym below ∙ k)) inside

    each_ends :
        (n : ℕ) (call : Text → List Text × S → Option (Result E (List Text × S)))
        (ends : (l : Text) (s : List Text × S)
          → Known l
          → missing known s.0 < n
          → (r : Result E (List Text × S)) × (call l s ≡ some r))
        (grows : (l : Text) (s u : List Text × S)
          → call l s ≡ some (ok u)
          → Done disk root callback s u)
        (ls : List Text) (s : List Text × S)
        → All Known ls
        → missing known s.0 < n
        → (r : Result E (List Text × S)) × (each call ls s ≡ some r)
    unfolding each
    each_ends n call ends grows [] s h lt = (ok s, refl)
    each_ends n call ends grows (l ∷ ls) s (k, h) lt =
        let (r, e) = ends l s k lt in
        elim (Result-cases r) [
          | inl (x, f) ↦ (err x, rw (e, f, each) refl)
          | inr (m, f) ↦
              let d = grows l s m (e ∙ ap some f) in
              let (w, g) =
                each_ends n call ends grows ls m h
                  (omega (arith, missing_le known s.0 d.added, ap (missing known) d.cached)) in
              (w, rw (e, f, each) g)
        ]

    -- A known file that is opened: what it loads is known.
    known_loads :
        (n : ℕ) (path p : Text) (st t : List Text × S) (loads : List Text)
        → Known path
        → is_plugin path ≡ false
        → resolve disk root path ≡ ok p
        → loads_of disk callback p st ≡ ok (loads, t)
        → missing known st.0 < suc n
        → (loads ≡ []) ⊎ (All Known loads × (missing known t.0 < n))
    known_loads n path p st t loads k e below opened lt =
        elim (loads_of-cases disk root callback p st t loads opened) [
          | inl (found, no_loads, same) ↦ inl no_loads
          | inr (new, i, c, cached) ↦
              let inside = known_file path p k e below in
              inr (
                closed p loads inside i,
                omega (arith, missing_lt known st.0 p inside new, ap (missing known) cached),
              )
        ]

    grows :
        (n : ℕ) (l : Text) (s u : List Text × S)
        → load disk callback n root l s ≡ some (ok u)
        → Done disk root callback s u
    grows n l s u h = (load-Done disk root callback rooted n l s u h).0

    abbrev rounds : ℕ → List Text → List Text × S → Text → Option (Result E (List Text × S))
    rounds n loads t r = each (λ l u. load disk callback n r l u) loads t

    pub load_ends :
        (n : ℕ) (path : Text) (st : List Text × S)
        → Known path
        → missing known st.0 < n
        → (r : Result E (List Text × S)) × (load disk callback n root path st ≡ some r)
    unfolding load
    load_ends zero path st k lt = absurd (omega arith)
    load_ends (suc n) path st k lt = elim (Bool-cases (is_plugin path)) [
      | inl e ↦ (ok st, rw (e, load) refl)
      | inr e ↦ elim (Result-cases (enter disk callback root path st)) [
        | inl (x, f) ↦ (err x, rw (e, f, load) refl)
        | inr ((r, (loads, t)), f) ↦
            let (root_eq, (p, below, opened)) =
              enter-ok disk root callback rooted path r st t loads f in
            elim (known_loads n path p st t loads k e below opened lt) [
              | inl nothing ↦
                  (ok t, rw (e, f, load) (ap (rounds n loads t) root_eq ∙ rw (nothing, each) refl))
              | inr (all, less) ↦
                  let (w, g) =
                    each_ends n (λ l u. load disk callback n root l u) (load_ends n) (grows n) loads
                      t all less in
                  (w, rw (e, f, load) (ap (rounds n loads t) root_eq ∙ g))
            ]
      ]
    ]

-- Package returns, with an archive or an error, if the scripts that can be reached from the path load
-- no files but the known ones and the fuel is above the number of these, also if they load each other
-- in a circle. It is assumed that filepath.Abs does not change an absolute path.
pub package_files_ends :
    {E : Type 0} (disk : Disk E) (abs_again : (p q : Text) → disk.abs p ≡ ok q → disk.abs q ≡ ok q)
    (n : ℕ) (root top path : Text) (known : List Text)
    → disk.abs root ≡ ok top
    → ((p : Text) (loads : List Text)
        → contains p known ≡ true
        → imports disk top p ≡ ok loads
        → All (Known disk top known) loads)
    → Known disk top known path
    → length known < n
    → (r : Result E (List (Text × Text))) × (package_files disk n root path ≡ some r)
unfolding package_files
package_files_ends disk abs_again n root top path known rooted closed k lt =
    let (r, e) =
      load_ends disk top known (on_load disk top) (abs_again root top rooted) closed n path ([], [])
        k (omega (arith, missing_bound known [])) in
    elim (Result-cases r) [
      | inl (x, f) ↦ (err x, rw (rooted, e, f, package_files) refl)
      | inr (w, f) ↦ (ok w.1, rw (rooted, e, f, package_files) refl)
    ]
