-- ===== src/Service/ExitHooks/Memory.antt =====
-- Which calls of the atexit plugin leave the low slots of an array alone, while `Run` of
-- service/exit_hook.go still walks that array.
use native.Mathlib.Decide.{ℕ_discrete}
use starlark_worker.Prelude.{
  ℕ, zero, suc, ◌≤◌, ◌<◌, ◌≡◌, ◌≢◌, refl, ap, ◌∙◌, none, some, List, [], ◌∷◌, ◌++◌, nat_eq, length,
  get_elem?, set, take, arith, length-set, length-append, get_elem?-set_ne, length-take,
  Option-cases, inl, inr, All,
}
use starlark_worker.Service.ExitHooks.{
  Hook, Backing, ExitHooks, Op, reg, unreg, backing, cells_of, index_of, view, unregister,
  append_hook, register, apply, apply_all,
}
use starlark_worker.Service.ExitHooks.View.{
  IsValid, take-take, removed, unregister-some, unregister-none, in_view-lt, backing-set, lt-length,
}
use starlark_worker.Service.ExitHooks.Register.{in_place, grown, append_hook-cases, apply-IsValid}

-- The slots below `n` of the array at `addr` are not behind the end of the registry's slice.
pub record IsCovered {V : Type 0} (addr n : ℕ) (st : ExitHooks V) : Type 0 where
  pub valid : IsValid st
  pub allocated : addr < length st.heap
  pub covered : st.hooks.addr ≡ addr → n ≤ st.hooks.len

-- The call is no `unregister` of a callable that has a hook in the list.
abbrev pub Spares : {V : Type 0} → List (Hook V) → Op V → Type 0
Spares pre (reg fn args kwargs) = Unit
Spares pre (unreg fn) = index_of fn pre ≡ none

module _ {V : Type 0} where
  index_of-ge :
      (fn i n : ℕ) (l : List (Hook V))
      → index_of fn l ≡ some i
      → index_of fn (take n l) ≡ none
      → n ≤ length l
      → n ≤ i
  index_of-ge fn i zero l h k b = omega arith
  index_of-ge fn i (suc n) [] h k b = cc
  index_of-ge fn zero (suc n) (x ∷ l) h k b = elim (Option-cases (index_of fn l)) [
    | inl e ↦ ground arith
    | inr (j, e) ↦ ground arith
  ]
  index_of-ge fn (suc i) (suc n) (x ∷ l) h k b = elim (Option-cases (index_of fn l)) [
    | inl e ↦ ground arith
    | inr (j, e) ↦ elim (Option-cases (index_of fn (take n l))) [
      | inl f ↦ ground (arith, index_of-ge fn i n l)
      | inr (m, f) ↦ ground arith
    ]
  ]

  take-append : (n : ℕ) (xs ys : List (Hook V)) → n ≤ length xs → take n (xs ++ ys) ≡ take n xs
  take-append zero xs ys h = refl
  take-append (suc n) [] ys h = elim h [ ]
  take-append (suc n) (x ∷ xs) ys h = ap (λ t. x ∷ t) (take-append n xs ys (omega arith))

  -- The slots below `n` are those below `m` of the array before.
  take-low :
      (n m : ℕ) (l rest : List (Hook V))
      → n ≤ m
      → m ≤ length l
      → take n (take m l ++ rest) ≡ take n l
  take-low n m l rest h b =
      take-append n (take m l) rest (omega (arith, length-take m l)) ∙ take-take n m l h

  get_elem?-append :
      (xs ys : List (Backing V)) (i : ℕ) → i < length xs → get_elem? (xs ++ ys) i ≡ get_elem? xs i
  get_elem?-append [] ys i h = elim h [ ]
  get_elem?-append (x ∷ xs) ys zero h = refl
  get_elem?-append (x ∷ xs) ys (suc i) h = get_elem?-append xs ys i (omega arith)

  backing-append :
      (xs ys : List (Backing V)) (i : ℕ) → i < length xs → backing (xs ++ ys) i ≡ backing xs i
  backing-append xs ys i h = rw (get_elem?-append xs ys i h, backing)

  pub backing-ne :
      (heap : List (Backing V)) (a c : ℕ) (b : Backing V)
      → a ≢ c
      → backing (set heap a b) c ≡ backing heap c
  backing-ne heap a c b h = rw (get_elem?-set_ne heap a c b h, backing)

  -- A write to one array keeps the low slots of every array, if it keeps those of its own.
  take-set :
      (n : ℕ) (heap : List (Backing V)) (a c : ℕ) (b : Backing V)
      → a < length heap
      → (a ≡ c → take n b.cells ≡ take n (backing heap a).cells)
      → take n (backing (set heap a b) c).cells ≡ take n (backing heap c).cells
  take-set n heap a c b lt h = elim (ℕ_discrete a c) [
    | yes p ↦ rw (← p) (rw (backing-set heap a b lt) (h p))
    | no p ↦ rw (backing-ne heap a c b p) refl
  ]

module _ {V : Type 0} (addr n : ℕ) (st : ExitHooks V) (c : IsCovered addr n st) where
  -- The array is as before in the slots below `n`, and still covered.
  pub record Kept (st' : ExitHooks V) : Type 0 where
    pub cover : IsCovered addr n st'
    pub same : take n (cells_of st' addr) ≡ take n (cells_of st addr)

  Kept-in_place :
      (spare : ℕ → ℕ) (h : Hook V)
      → st.hooks.addr < length st.heap
      → IsValid (in_place spare h st)
      → Kept (in_place spare h st)
  Kept-in_place spare h lt ok = record {
    cover = record {
      valid = ok;
      allocated = omega (arith, c.allocated, length-set st.heap st.hooks.addr _);
      covered = λ e. omega (arith, c.covered e);
    };
    same =
        take-set n st.heap st.hooks.addr addr _ lt (λ e.
          take-low n st.hooks.len (cells_of st st.hooks.addr) _ (c.covered e) c.valid.written);
  }

  Kept-grown : (spare : ℕ → ℕ) (h : Hook V) → IsValid (grown spare h st) → Kept (grown spare h st)
  Kept-grown spare h ok = record {
    cover = record {
      valid = ok;
      allocated = omega (arith, c.allocated, length-append st.heap (_ ∷ []));
      covered = λ e. absurd (omega (arith, c.allocated));
    };
    same = ap (λ (b : Backing V). take n b.cells) (backing-append st.heap _ addr c.allocated);
  }

  Kept-append :
      (spare : ℕ → ℕ) (h : Hook V)
      → IsValid (append_hook spare h st)
      → Kept (append_hook spare h st)
  Kept-append spare h ok = elim (append_hook-cases spare h st) [
    | inl (e, lt) ↦ rw e (Kept-in_place spare h lt (rw e at ok))
    | inr e ↦ rw e (Kept-grown spare h (rw e at ok))
  ]

  Kept-removed :
      (fn i : ℕ)
      → IsValid (removed st i)
      → index_of fn (view st) ≡ some i
      → index_of fn (take n (cells_of st addr)) ≡ none
      → Kept (removed st i)
  Kept-removed fn i ok e h = record {
    cover = record {
      valid = ok;
      allocated = omega (arith, c.allocated, length-set st.heap st.hooks.addr _);
      covered = λ p. omega (arith, above p, in_view-lt st c.valid fn i e);
    };
    same = take-set n st.heap st.hooks.addr addr _ lt (λ p.
        take-low n i (cells_of st st.hooks.addr) _ (above p)
          (omega (arith, in_view-lt st c.valid fn i e, c.valid.written)));
  }
    where
      lt : st.hooks.addr < length st.heap
      lt =
          lt-length st.heap st.hooks.addr
            (omega (arith, in_view-lt st c.valid fn i e, c.valid.written))

      above : st.hooks.addr ≡ addr → n ≤ i
      above p =
          index_of-ge fn i n (view st) e
            (rw (take-take n st.hooks.len (cells_of st st.hooks.addr) (c.covered p), p) h)
            (omega (
              arith,
              c.covered p,
              c.valid.written,
              length-take st.hooks.len (cells_of st st.hooks.addr),
            ))

  Kept-unregister :
      (fn : ℕ)
      → IsValid (unregister fn st)
      → index_of fn (take n (cells_of st addr)) ≡ none
      → Kept (unregister fn st)
  Kept-unregister fn ok h = elim (Option-cases (index_of fn (view st))) [
    | inl e ↦ rw (unregister-none st fn e) (record { cover = c; same = refl })
    | inr (i, e) ↦
        rw (unregister-some st fn i e)
          (Kept-removed fn i (rw (unregister-some st fn i e) at ok) e h)
  ]

  pub Kept-apply :
      (spare : ℕ → ℕ) (o : Op V) → Spares (take n (cells_of st addr)) o → Kept (apply spare o st)
  unfolding apply register
  Kept-apply spare (reg none args kwargs) h = record { cover = c; same = refl }
  Kept-apply spare (reg (some fn) args kwargs) h =
      Kept-append spare _ (apply-IsValid spare st c.valid (reg (some fn) args kwargs))
  Kept-apply spare (unreg fn) h = Kept-unregister fn (apply-IsValid spare st c.valid (unreg fn)) h

module _ {V : Type 0} (addr n : ℕ) (spare : ℕ → ℕ) where
  pub Kept-apply_all :
      (st : ExitHooks V) (c : IsCovered addr n st) (os : List (Op V))
      → All (Spares (take n (cells_of st addr))) os
      → Kept addr n st c (apply_all spare os st)
  unfolding apply_all
  Kept-apply_all st c [] h = record { cover = c; same = refl }
  Kept-apply_all st c (o ∷ os) h =
      let k = Kept-apply addr n st c spare o h.0 in
      let r = Kept-apply_all (apply spare o st) k.cover os (rw k.same h.1) in
      record { cover = r.cover; same = r.same ∙ k.same }
