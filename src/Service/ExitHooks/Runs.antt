-- ===== src/Service/ExitHooks/Runs.antt =====
-- What `Run` of service/exit_hook.go does: every hook once, the last registered first.
use mathlib.Core.List.{reverse-append}
use native.Mathlib.Decide.{dec_lt}
use native.Mathlib.Nat.{le_refl}
use starlark_worker.Prelude.{
  ℕ, zero, suc, ◌≤◌, ◌<◌, ◌≡◌, ◌⊎◌, inl, inr, refl, sym, ap, ◌∙◌, true, false, Bool-cases, none,
  some, List, [], ◌∷◌, ◌++◌, reverse, nat_eq, length, get_elem?, take, drop, arith, length-take,
  All, get_elem?-lt,
}
use starlark_worker.Service.ExitHooks.{
  Hook, ExitHooks, Outcome, Ran, cons_error, cells_of, view, apply_all, run_from, run,
}
use starlark_worker.Service.ExitHooks.View.{IsValid, lt-length, take-take, take_whole}
use starlark_worker.Service.ExitHooks.Memory.{IsCovered, Spares, Kept-apply_all}

module _ {V W E : Type 0} (call : Hook V → W → Outcome V W E) where
  -- The errors of calling the hooks of a list in order, each in the world that the last one left.
  abbrev pub errors_of : List (Hook V) → W → List E
  errors_of [] w = []
  errors_of (h ∷ hs) w = cons_error (call h w).error (errors_of hs (call h w).world)

  abbrev pub world_of : List (Hook V) → W → W
  world_of [] w = w
  world_of (h ∷ hs) w = world_of hs (call h w).world

  -- No hook unregisters a callable that has a hook registered before it.
  abbrev pub SparesEarlier : List (Hook V) → Type 0
  SparesEarlier hs =
      (pre post : List (Hook V)) (h : Hook V) (w : W)
      → hs ≡ pre ++ h ∷ post
      → All (Spares pre) (call h w).ops

  -- Called in order, each in the world that the last one left, no hook of the list panics.
  abbrev pub Returns : List (Hook V) → W → Type 0
  Returns [] w = Unit
  Returns (h ∷ hs) w = ((call h w).panics ≡ false) × Returns hs (call h w).world

  -- Called in order, a hook of the list panics.
  abbrev pub Panics : List (Hook V) → W → Type 0
  Panics [] w = ⊥
  Panics (h ∷ hs) w =
      ((call h w).panics ≡ true) ⊎ (((call h w).panics ≡ false) × Panics hs (call h w).world)

  -- `Run` called exactly the hooks of the list, in its order, and none panicked.
  pub record RunsAll (hs : List (Hook V)) (w : W) (r : Ran V W E) : Type 0 where
    pub returns : Returns hs w
    pub called : r.called ≡ hs
    pub errors : r.errors ≡ errors_of hs w
    pub world : r.world ≡ world_of hs w

module _ {V : Type 0} where
  take-suc :
      (n : ℕ) (l : List (Hook V)) (h : Hook V)
      → get_elem? l n ≡ some h
      → take (suc n) l ≡ take n l ++ h ∷ []
  take-suc n [] h e = cc
  take-suc zero (x ∷ l) h e = cc
  take-suc (suc n) (x ∷ l) h e = ap (λ t. x ∷ t) (take-suc n l h e)

  take-split :
      (n : ℕ) (l : List (Hook V)) (h : Hook V)
      → get_elem? l n ≡ some h
      → l ≡ take n l ++ h ∷ drop (suc n) l
  take-split n [] h e = cc
  take-split zero (x ∷ l) h e = ap (λ t. t ∷ l) (cc)
  take-split (suc n) (x ∷ l) h e = ap (λ t. x ∷ t) (take-split n l h e)

  pub get_elem?-of_take :
      (n m : ℕ) (xs : List (Hook V)) → m < n → get_elem? (take n xs) m ≡ get_elem? xs m
  get_elem?-of_take zero m xs h = elim h [ ]
  get_elem?-of_take (suc n) m [] h = refl
  get_elem?-of_take (suc n) zero (x ∷ xs) h = refl
  get_elem?-of_take (suc n) (suc m) (x ∷ xs) h = get_elem?-of_take n m xs (omega arith)

  get_elem?-take :
      (n m : ℕ) (xs ys : List (Hook V))
      → m < n
      → take n xs ≡ take n ys
      → get_elem? xs m ≡ get_elem? ys m
  get_elem?-take n m xs ys h e =
      sym (get_elem?-of_take n m xs h) ∙ ap (λ t. get_elem? t m) e ∙ get_elem?-of_take n m ys h

module _ {V : Type 0} where
  take_le :
      (n m : ℕ) (xs ys : List (Hook V)) → n ≤ m → take m xs ≡ take m ys → take n xs ≡ take n ys
  take_le n m xs ys h e = sym (take-take n m xs h) ∙ ap (take n) e ∙ take-take n m ys h

module _ {V W E : Type 0} (spare : ℕ → ℕ) (call : Hook V → W → Outcome V W E) (snap : List (Hook V))
    (spares : SparesEarlier call snap) (addr : ℕ) where
  run_from_lem :
      (n : ℕ) (st : ExitHooks V) (w : W)
      → IsCovered addr n st
      → n ≤ length snap
      → take n (cells_of st addr) ≡ take n snap
      → ((r : Ran V W E) × (run_from spare call addr n st w ≡ some r)
          × RunsAll call (reverse (take n snap)) w r)
        ⊎ ((run_from spare call addr n st w ≡ none) × Panics call (reverse (take n snap)) w)
  unfolding run_from
  run_from_lem zero st w c b e =
      inl (_, refl, record { returns = tt; called = refl; errors = refl; world = refl })
  run_from_lem (suc n) st w c b e =
      let (h, eh) = get_elem?-lt snap n (omega arith) in
      let o = call h w in
      let same : take n (cells_of st addr) ≡ take n snap = take_le n (suc n) _ _ (omega arith) e in
      let low : IsCovered addr n st = record {
        valid = c.valid;
        allocated = c.allocated;
        covered = λ p. omega (arith, c.covered p);
      } in
      let safe : All (Spares (take n (cells_of st addr))) o.ops =
        rw same (spares (take n snap) (drop (suc n) snap) h w (take-split n snap h eh)) in
      let k = Kept-apply_all addr n spare st low o.ops safe in
      let cells : get_elem? (cells_of st addr) n ≡ some h =
        get_elem?-take (suc n) n _ _ (omega arith) e ∙ eh in
      let order : reverse (take (suc n) snap) ≡ h ∷ reverse (take n snap) =
        ap reverse (take-suc n snap h eh) ∙ reverse-append (take n snap) (h ∷ []) in
      elim (Bool-cases o.panics) [
        | inl p ↦ inr (rw (cells, run_from, p) refl, rw order (inl p))
        | inr p ↦
            elim (run_from_lem n (apply_all spare o.ops st) o.world k.cover (omega arith)
              (k.same ∙ same)) [
                | inr (er, later) ↦
                    inr (rw (cells, run_from, p) (rw er refl), rw order (inr (p, later)))
                | inl (r, er, ra) ↦ inl (
                  record r { called = h ∷ r.called; errors = cons_error o.error r.errors },
                  rw (cells, run_from, p) (rw er),
                  rw order (record {
                    returns = (p, ra.returns);
                    called = ap (λ t. h ∷ t) ra.called;
                    errors = ap (cons_error o.error) ra.errors;
                    world = ra.world;
                  }),
                )
              ]
      ]

module _ {V W E : Type 0} (spare : ℕ → ℕ) (call : Hook V → W → Outcome V W E) where
  -- If no hook unregisters a callable that was registered before it, then either no hook panics on
  -- its turn, and `Run` returns, has called every registered hook once, the last registered first,
  -- whichever of them failed or registered more hooks, and hands on the errors in the order of the
  -- calls; or, called in that order, a hook panics, and so does `Run`.
  pub run-RunsAll :
      (st : ExitHooks V) (w : W)
      → IsValid st
      → SparesEarlier call (view st)
      → ((r : Ran V W E) × (run spare call st w ≡ some r) × RunsAll call (reverse (view st)) w r)
        ⊎ ((run spare call st w ≡ none) × Panics call (reverse (view st)) w)
  unfolding run run_from
  run-RunsAll st w ok spares = elim (dec_lt 0 st.hooks.len) [
    | yes p ↦
        let outcome =
          run_from_lem spare call (view st) spares st.hooks.addr st.hooks.len st w
            (record {
              valid = ok;
              allocated = lt-length st.heap st.hooks.addr (omega (arith, ok.written));
              covered = λ _. le_refl st.hooks.len;
            })
            (omega (arith, len-view)) (sym whole) in
        rw whole at outcome
    | no p ↦
        let none_left : st.hooks.len ≡ 0 = omega arith in
        let empty : view st ≡ [] = ap (λ k. take k (cells_of st st.hooks.addr)) none_left in
        inl (
          _,
          ap (λ k. run_from spare call st.hooks.addr k st w) none_left,
          rw empty (record { returns = tt; called = refl; errors = refl; world = refl }),
        )
  ]
    where
      len-view : length (view st) ≡ st.hooks.len
      len-view = omega (arith, length-take st.hooks.len (cells_of st st.hooks.addr), ok.written)

      whole : take st.hooks.len (view st) ≡ view st
      whole = take_whole st.hooks.len (view st) len-view
