-- ===== src/Service/ExitHooks/Shift.antt =====
-- What goes wrong in `Run` of service/exit_hook.go when a hook unregisters one registered before
-- it: the array that `Run` walks is shifted under it.
use mathlib.Core.Option
use mathlib.Core.Option.{some-injective}
use starlark_worker.Prelude.{
  ℕ, zero, suc, ◌+◌, ◌-◌, ◌≤◌, ◌<◌, ◌≡◌, refl, sym, ap, ◌∙◌, false, inl, inr, some, List, [], ◌∷◌,
  ◌++◌, nat_eq, length, get_elem?, take, drop, arith, length-take, length-drop,
}
use starlark_worker.Service.ExitHooks.{
  Hook, ExitHooks, unreg, Outcome, Ran, cells_of, splice, index_of, view, apply, apply_all,
  run_from, run, ran_first,
}
use starlark_worker.Service.ExitHooks.View.{
  IsValid, removed, cells-removed, unregister-some, unregister-IsValid,
}
use starlark_worker.Service.ExitHooks.Runs.{get_elem?-of_take}
use starlark_worker.Service.ExitHooks.Total.{length-splice_le, run_from_total, Grows-apply_all}

module _ {V : Type 0} where
  get_elem?-right :
      (xs ys : List (Hook V)) (i j : ℕ)
      → length xs ≡ i
      → get_elem? (xs ++ ys) (i + j) ≡ get_elem? ys j
  get_elem?-right [] ys zero j e = ap (get_elem? ys) (omega arith)
  get_elem?-right [] ys (suc i) j e = absurd (omega arith)
  get_elem?-right (x ∷ xs) ys zero j e = absurd (omega arith)
  get_elem?-right (x ∷ xs) ys (suc i) j e =
      ap (get_elem? (x ∷ xs ++ ys)) {x = suc i + j} {y = suc (i + j)} (omega arith)
      ∙ get_elem?-right xs ys i j (omega arith)

  get_elem?-left :
      (xs ys : List (Hook V)) (i : ℕ) → i < length xs → get_elem? (xs ++ ys) i ≡ get_elem? xs i
  get_elem?-left [] ys i h = elim h [ ]
  get_elem?-left (x ∷ xs) ys zero h = refl
  get_elem?-left (x ∷ xs) ys (suc i) h = get_elem?-left xs ys i (omega arith)

  get_elem?-drop : (n j : ℕ) (l : List (Hook V)) → get_elem? (drop n l) j ≡ get_elem? l (n + j)
  get_elem?-drop zero j l = ap (get_elem? l) (omega arith)
  get_elem?-drop (suc n) j [] = refl
  get_elem?-drop (suc n) j (x ∷ l) =
      get_elem?-drop n j l ∙ ap (get_elem? (x ∷ l)) {x = suc (n + j)} {y = suc n + j} (omega arith)

  -- An element behind the removed one has moved down by one.
  get_elem?-splice :
      (i m n : ℕ) (l : List (Hook V))
      → i ≤ m
      → suc m < n
      → n ≤ length l
      → get_elem? (splice i n l) m ≡ get_elem? l (suc m)
  get_elem?-splice i m n l h k b =
      let behind = drop (i + 1) l in
      let moved = take (n - (i + 1)) behind in
      ap (get_elem? (splice i n l)) {x = m} {y = i + (m - i)} (omega arith)
      ∙ get_elem?-right (take i l) (moved ++ drop (n - 1) l) i (m - i)
          (omega (arith, length-take i l))
      ∙ get_elem?-left moved (drop (n - 1) l) (m - i)
          (omega (arith, length-take (n - (i + 1)) behind, length-drop (i + 1) l))
      ∙ get_elem?-of_take (n - (i + 1)) (m - i) behind (omega arith)
      ∙ get_elem?-drop (i + 1) (m - i) l
      ∙ ap (get_elem? l) (omega arith)

module _ {V W E : Type 0} (spare : ℕ → ℕ) (call : Hook V → W → Outcome V W E)
    (never : (h : Hook V) (v : W) → (call h v).panics ≡ false) where
  run_from_returns :
      (addr n : ℕ) (st : ExitHooks V) (w : W)
      → IsValid st
      → n ≤ length (cells_of st addr)
      → (r : Ran V W E) × (run_from spare call addr n st w ≡ some r)
  run_from_returns addr n st w ok b = elim (run_from_total spare call addr n st w ok b) [
    | inl (r, e, _, _) ↦ (r, e)
    | inr (_, (h, v, p)) ↦ absurd (let q = never h v in cc)
  ]

  -- The first call of the loop over `n + 1` positions, and that the loop returns.
  run_from-head :
      (addr n : ℕ) (h : Hook V) (st st' : ExitHooks V) (w : W)
      → get_elem? (cells_of st addr) n ≡ some h
      → apply_all spare (call h w).ops st ≡ st'
      → IsValid st'
      → n ≤ length (cells_of st' addr)
      → (r : Ran V W E) × (run_from spare call addr (suc n) st w
          ≡ Option.map
              (ran_first spare call h (call h w).error)
              (run_from spare call addr n st' (call h w).world))
        × (run_from spare call addr n st' (call h w).world ≡ some r)
  unfolding run_from
  run_from-head addr n h st st' w e f ok b =
      let (r, er) = run_from_returns addr n st' (call h w).world ok b in
      (r, rw (e, run_from, never h w) (rw f), er)

  -- Where no call of a hook panics, a hook that unregisters a callable registered before it, the last
  -- one registered, is called twice in a row.
  pub run_twice :
      (st : ExitHooks V) (w : W) (fn i m : ℕ) (y : Hook V)
      → IsValid st
      → st.hooks.len ≡ suc (suc m)
      → get_elem? (view st) (suc m) ≡ some y
      → index_of fn (view st) ≡ some i
      → i ≤ m
      → (call y w).ops ≡ unreg fn ∷ []
      → (r : Ran V W E) × (rest : List (Hook V)) × (run spare call st w ≡ some r)
        × (r.called ≡ y ∷ y ∷ rest)
  unfolding run apply apply_all
  run_twice st w fn i m y ok len last found below ops =
      let a = st.hooks.addr in
      let w' = (call y w).world in
      let gone : IsValid (removed st i) =
        rw (unregister-some st fn i found) at (unregister-IsValid st ok fn) in
      let g = Grows-apply_all spare (call y w').ops (removed st i) gone in
      let (r, e1, e1') =
        run_from-head a (suc m) y st (removed st i) w here (rw ops (unregister-some st fn i found))
          gone room in
      let (q, e2, e2') =
        run_from-head a m y (removed st i) _ w' again refl g.0 (omega (arith, g.1 a, room)) in
      let r-eq : r ≡ ran_first spare call y (call y w').error q =
        some-injective _ _
          (sym e1' ∙ e2 ∙ ap (Option.map (ran_first spare call y (call y w').error)) e2') in
      (
        ran_first spare call y (call y w).error r,
        q.called,
        ap (λ k. run_from spare call a k st w) len
            ∙ e1
            ∙ ap (Option.map (ran_first spare call y (call y w).error)) e1',
        ap (λ (t : Ran V W E). y ∷ t.called) r-eq,
      )
    where
      here : get_elem? (cells_of st st.hooks.addr) (suc m) ≡ some y
      here =
          sym (get_elem?-of_take st.hooks.len (suc m) (cells_of st st.hooks.addr) (omega arith))
          ∙ last

      again : get_elem? (cells_of (removed st i) st.hooks.addr) m ≡ some y
      again = rw (cells-removed st ok fn i found) (
          get_elem?-splice i m st.hooks.len (cells_of st st.hooks.addr) below (omega arith)
            ok.written
          ∙ here)

      room : suc m ≤ length (cells_of (removed st i) st.hooks.addr)
      room = rw (cells-removed st ok fn i found) (
          omega (
            arith,
            length-splice_le i st.hooks.len (cells_of st st.hooks.addr) (omega arith) ok.written,
            ok.written,
          ))
