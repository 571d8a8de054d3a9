-- ===== src/Client/Package/Closed.antt =====
-- What `load` of client/cadence_client/client.go leaves behind if it returns no error: the files that
-- it visited are below the root, each visited once, with all that they load.
use starlark_worker.Prelude.{
  ℕ, zero, suc, ◌≡◌, ◌⊎◌, inl, inr, refl, sym, ap, ◌∙◌, true, false, ◌||◌, Option, some, List, [],
  ◌∷◌, ◌++◌, Text, text, nat_eq, list_eq, has_prefix, if◌then◌else◌, Result, ok, err, ◌>>=◌,
  >>=-eq-ok, Bool-cases, Option-cases, Result-cases, ok_injective, contains, All, All-append,
  All-map_of, beq_refl, arith,
}
use starlark_worker.Star.Load.{has_suffix}
use starlark_worker.Client.Package.{Disk, is_plugin, each, resolve, visit, loads_of, enter, load}
use mathlib.Core.List.{append-nil, append_assoc}

pub contains-append :
    (k : Text) (xs ys : List Text) → contains k (xs ++ ys) ≡ (contains k xs || contains k ys)
contains-append k [] ys = refl
contains-append k (x ∷ xs) ys = ground (arith, contains-append k xs ys)

pub contains_here : (k : Text) (xs ys : List Text) → contains k (xs ++ k ∷ ys) ≡ true
contains_here k xs ys = ground (arith, contains-append k xs (k ∷ ys), beq_refl k)

pub contains_left :
    (k : Text) (xs ys : List Text) → contains k xs ≡ true → contains k (xs ++ ys) ≡ true
contains_left k xs ys h = ground (arith, contains-append k xs ys)

pub some_ok {ℓ κ} :
    {E : Type ℓ} {A : Type κ} {a b : A}
    → Path (Option (Result E A)) (some (ok a)) (some (ok b))
    → a ≡ b
some_ok h = cc

pub each-ok {ℓ κ μ} :
    {E : Type ℓ} {A : Type κ} {S : Type μ} (call : A → S → Option (Result E S)) (a : A)
    (xs : List A) (s u : S)
    → each call (a ∷ xs) s ≡ some (ok u)
    → (m : S) × (call a s ≡ some (ok m)) × (each call xs m ≡ some (ok u))
unfolding each
each-ok call a xs s u h = elim (Option-cases (call a s)) [
  | inl e ↦ (let z = rw (e, each) at h in cc)
  | inr (o, e) ↦ elim (Result-cases o) [
    | inl (x, f) ↦ (let z = rw (e, f, each) at h in cc)
    | inr (m, f) ↦ (m, e ∙ ap some f, rw (e, f, each) at h)
  ]
]

module _ {E : Type 0} (disk : Disk E) (root : Text) where
  open disk use {abs, source_program}

  -- What a file loads: a script what its program names, another file nothing.
  abbrev pub imports : Text → Result E (List Text)
  imports p = if has_suffix p (text ".star") then source_program p else ok []

  -- The path names a plugin, or a file of the list.
  abbrev pub Reached : List Text → Text → Type 0
  Reached files l =
      (is_plugin l ≡ true) ⊎ ((q : Text) × (resolve disk root l ≡ ok q) × (contains q files ≡ true))

  -- The file is below the root, its path is one that filepath.Abs gives, and what it loads is among
  -- the files.
  abbrev pub Complete : List Text → Text → Type 0
  Complete files p =
      (has_prefix p root ≡ true)
      × ((path : Text) × (abs path ≡ ok p))
      × ((loads : List Text) × (imports p ≡ ok loads) × All (Reached files) loads)

  -- No path is in `files`, nor twice in the list.
  abbrev pub Fresh : List Text → List Text → Type 0
  Fresh files [] = Unit
  Fresh files (p ∷ ps) = (contains p files ≡ false) × Fresh (files ++ p ∷ []) ps

  module _ {S : Type 0} (callback : Text → S → Result E S) where
    -- The callback of each path, in their order.
    unfoldable pub visits : List Text → S → Result E S
    visits [] s = ok s
    visits (p ∷ ps) s = callback p s >>= λ t. visits ps t

    -- From one cache and state to the next: the files that were added.
    pub record Done (st u : List Text × S) : Type 0 where
      pub added : List Text
      pub cached : u.0 ≡ st.0 ++ added
      pub visited : visits added st.1 ≡ ok u.1
      pub fresh : Fresh st.0 added
      pub complete : All (Complete u.0) added

    visits-append :
        (xs ys : List Text) (s t : S) → visits xs s ≡ ok t → visits (xs ++ ys) s ≡ visits ys t
    unfolding visits
    visits-append [] ys s t h = cc
    visits-append (x ∷ xs) ys s t h =
        let (r, f, k) = >>=-eq-ok (callback x s) (λ t. visits xs t) h in
        rw f (visits-append xs ys r t k)

    Fresh-same : (a b ys : List Text) → a ≡ b → Fresh b ys → Fresh a ys
    Fresh-same a b ys e k = rw e k

    Fresh-append :
        (files xs ys : List Text) → Fresh files xs → Fresh (files ++ xs) ys → Fresh files (xs ++ ys)
    Fresh-append files [] ys h k = Fresh-same files (files ++ []) ys (sym (append-nil files)) k
    Fresh-append files (x ∷ xs) ys h k =
        (h.0, Fresh-append (files ++ x ∷ []) xs ys h.1 (rw (append_assoc files (x ∷ []) xs) k))

    Reached-later :
        (files more : List Text) (l : Text) → Reached files l → Reached (files ++ more) l
    Reached-later files more l (inl h) = inl h
    Reached-later files more l (inr (q, h, k)) = inr (q, h, contains_left q files more k)

    Complete-later :
        (files more : List Text) (p : Text) → Complete files p → Complete (files ++ more) p
    Complete-later files more p (h, made, (loads, i, r)) =
        (h, made, (loads, i, All-map_of (Reached files) loads (Reached-later files more) r))

    Done_refl : (st : List Text × S) → Done st st
    unfolding visits
    Done_refl st = record {
      added = [];
      cached = sym (append-nil st.0);
      visited = refl;
      fresh = tt;
      complete = tt;
    }

    Done_trans : (st u v : List Text × S) → Done st u → Done u v → Done st v
    Done_trans st u v d e = record {
      added = d.added ++ e.added;
      cached = rw e.cached (rw d.cached (append_assoc st.0 d.added e.added));
      visited = rw (visits-append d.added e.added st.1 u.1 d.visited) e.visited;
      fresh = Fresh-append st.0 d.added e.added d.fresh (rw (sym d.cached) e.fresh);
      complete =
          All-append (Complete v.0) d.added e.added
            (All-map_of (Complete u.0) d.added (λ p c. rw e.cached (Complete-later u.0 e.added p c))
              d.complete)
            e.complete;
    }

    visit-ok :
        (p : Text) (st t : List Text × S)
        → visit disk callback p st ≡ ok t
        → (callback p st.1 ≡ ok t.1) × (t.0 ≡ st.0 ++ p ∷ [])
    unfolding visit
    visit-ok p st t h =
        let (x, e, k) = >>=-eq-ok (callback p st.1) (λ x. ok (st.0 ++ p ∷ [], x)) h in
        (e ∙ ap ok (ap (λ q. q.1) (ok_injective k)), sym (ap (λ q. q.0) (ok_injective k)))

    -- A file at its absolute path was in the cache, or it is visited.
    pub loads_of-cases :
        (p : Text) (st t : List Text × S) (loads : List Text)
        → loads_of disk callback p st ≡ ok (loads, t)
        → ((contains p st.0 ≡ true) × (loads ≡ []) × (t ≡ st))
          ⊎ ((contains p st.0 ≡ false)
              × (imports p ≡ ok loads)
              × (callback p st.1 ≡ ok t.1)
              × (t.0 ≡ st.0 ++ p ∷ []))
    unfolding loads_of
    loads_of-cases p st t loads h = elim (Bool-cases (contains p st.0)) [
      | inl e ↦
          let k = ok_injective (rw e at h) in inl (e, sym (ap (λ q. q.0) k), sym (ap (λ q. q.1) k))
      | inr e ↦ elim (Bool-cases (has_suffix p (text ".star"))) [
        | inl star ↦
            let whole = rw (e, star) at h in
            let (ls, i, k) =
              >>=-eq-ok (source_program p) (λ ls. do u ← visit disk callback p st; ok (ls, u))
                whole in
            let (u, v, j) = >>=-eq-ok (visit disk callback p st) (λ u. ok (ls, u)) k in
            let q = ok_injective j in
            let w = visit-ok p st t (v ∙ ap ok (ap (λ q. q.1) q)) in
            inr (e, rw star (i ∙ ap ok (ap (λ q. q.0) q)), w.0, w.1)
        | inr star ↦
            let (u, v, j) =
              >>=-eq-ok (visit disk callback p st) (λ u. ok ([], u)) (rw (e, star) at h) in
            let q = ok_injective j in
            let w = visit-ok p st t (v ∙ ap ok (ap (λ q. q.1) q)) in
            inr (e, rw star (ap ok (ap (λ q. q.0) q)), w.0, w.1)
      ]
    ]

    resolve-below : (path p : Text) → resolve disk root path ≡ ok p → has_prefix p root ≡ true
    unfolding resolve
    resolve-below path p h =
        let joined = if has_prefix path (text "//") then disk.join root path else path in
        let (q, e, k) =
          >>=-eq-ok (abs joined)
            (λ p. if has_prefix p root then ok p else err (disk.out_of_root root p)) h in
        ground arith

    resolve-abs :
        (path p : Text) → resolve disk root path ≡ ok p → (joined : Text) × (abs joined ≡ ok p)
    unfolding resolve
    resolve-abs path p h =
        let joined = if has_prefix path (text "//") then disk.join root path else path in
        let (q, e, k) =
          >>=-eq-ok (abs joined)
            (λ p. if has_prefix p root then ok p else err (disk.out_of_root root p)) h in
        let same : q ≡ p = ok_injective (rw (kept q p k) at k) in (joined, e ∙ ap ok same)
      where
        kept :
            (q p : Text)
            → (if has_prefix q root then ok q else err (disk.out_of_root root q)) ≡ ok p
            → has_prefix q root ≡ true
        kept q p k = elim (Bool-cases (has_prefix q root)) [
          | inl e ↦ e
          | inr e ↦ absurd (let z = rw e at k in cc)
        ]

    file_Done :
        (path p : Text) (st t u : List Text × S) (loads : List Text)
        → resolve disk root path ≡ ok p
        → loads_of disk callback p st ≡ ok (loads, t)
        → Done t u × All (Reached (u.0)) loads
        → Done st u × Reached (u.0) path
    unfolding visits
    file_Done path p st t u loads below opened (d, all) =
        elim (loads_of-cases p st t loads opened) [
          | inl (found, no_loads, same) ↦
              let here = contains_left p t.0 d.added (rw same found) in
              (rw (sym same) d, inr (p, below, rw d.cached here))
          | inr (new, i, c, k) ↦
              let cached : u.0 ≡ st.0 ++ p ∷ d.added =
                d.cached ∙ rw k (append_assoc st.0 (p ∷ []) d.added) in
              (
                record {
                  added = p ∷ d.added;
                  cached = cached;
                  visited = rw c d.visited;
                  fresh = (new, rw (sym k) d.fresh);
                  complete = (
                    (resolve-below path p below, resolve-abs path p below, (loads, i, all)),
                    d.complete,
                  );
                },
                inr (p, below, rw cached (contains_here p st.0 d.added)),
              )
        ]

    module _ (rooted : abs root ≡ ok root) where
      pub enter-ok :
          (path r : Text) (st t : List Text × S) (loads : List Text)
          → enter disk callback root path st ≡ ok (r, (loads, t))
          → (r ≡ root)
            × ((p : Text) × (resolve disk root path ≡ ok p)
                × (loads_of disk callback p st ≡ ok (loads, t)))
      unfolding enter
      enter-ok path r st t loads h =
          let k = rw (rooted, enter) at h in
          let (p, e, j) =
            >>=-eq-ok (resolve disk root path)
              (λ p. do w ← loads_of disk callback p st; ok (root, w)) k in
          let (w, f, i) = >>=-eq-ok (loads_of disk callback p st) (λ w. ok (root, w)) j in
          let q = ok_injective i in (sym (ap (λ q. q.0) q), (p, e, f ∙ ap ok (ap (λ q. q.1) q)))

      each-Done :
          (call : Text → List Text × S → Option (Result E (List Text × S)))
          → ((l : Text) (s u : List Text × S) → call l s ≡ some (ok u) → Done s u × Reached (u.0) l)
          → (ls : List Text) (s u : List Text × S) → each call ls s ≡ some (ok u)
          → Done s u × All (Reached (u.0)) ls
      unfolding each
      each-Done call d [] s u h = (rw (some_ok h) (Done_refl u), tt)
      each-Done call d (l ∷ ls) s u h =
          let (m, e, k) = each-ok call l ls s u h in
          let (first, reached) = d l s m e in
          let (others, all) = each-Done call d ls m u k in
          (
            Done_trans s m u first others,
            (rw others.cached (Reached-later m.0 others.added l reached), all),
          )

      pub load-Done :
          (n : ℕ) (path : Text) (st u : List Text × S)
          → load disk callback n root path st ≡ some (ok u)
          → Done st u × Reached (u.0) path
      unfolding load
      load-Done zero path st u h = cc
      load-Done (suc n) path st u h = elim (Bool-cases (is_plugin path)) [
        | inl e ↦ (rw (some_ok (rw (e, load) at h)) (Done_refl u), inl e)
        | inr e ↦ elim (Result-cases (enter disk callback root path st)) [
          | inl (x, f) ↦ (let z = rw (e, f, load) at h in cc)
          | inr ((r, (loads, t)), f) ↦
              let (root_eq, (p, below, opened)) = enter-ok path r st t loads f in
              let run = rw (e, f, load, root_eq) at h in
              file_Done path p st t u loads below opened
                (each-Done (λ l u. load disk callback n root l u) (load-Done n) loads t u run)
        ]
      ]
