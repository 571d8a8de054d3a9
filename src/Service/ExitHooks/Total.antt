-- ===== src/Service/ExitHooks/Total.antt =====
-- `Run` of service/exit_hook.go does not panic of itself, whatever its hooks do to the registry.
use native.Mathlib.Decide.{ℕ_discrete}
use native.Mathlib.Nat.{le_refl, le_trans}
use starlark_worker.Prelude.{
  ℕ, zero, suc, ◌+◌, ◌-◌, ◌≤◌, ◌<◌, ◌≡◌, ◌⊎◌, refl, ap, true, Bool-cases, none, some, List, [], ◌∷◌,
  ◌++◌, nat_eq, length, set, take, drop, arith, length-append, length-take, length-drop,
  Option-cases, inl, inr, get_elem?-lt,
}
use starlark_worker.Service.ExitHooks.{
  Hook, Backing, ExitHooks, Op, reg, unreg, Outcome, Ran, cons_error, backing, cells_of, write,
  splice, index_of, view, register, unregister, append_hook, apply, apply_all, run_from, run,
}
use starlark_worker.Service.ExitHooks.View.{
  IsValid, lt-length, backing-set, unregister-some, unregister-none, in_view-lt,
}
use starlark_worker.Service.ExitHooks.Register.{append_hook-cases, apply-IsValid}
use starlark_worker.Service.ExitHooks.Memory.{backing-ne}

module _ {V : Type 0} where
  -- Every array of `st'` has at least the slots that it had in `st`.
  abbrev pub Grows : ExitHooks V → ExitHooks V → Type 0
  Grows st st' = (a : ℕ) → length (cells_of st a) ≤ length (cells_of st' a)

  Grows-set :
      (heap : List (Backing V)) (a c : ℕ) (b : Backing V)
      → a < length heap
      → length (backing heap a).cells ≤ length b.cells
      → length (backing heap c).cells ≤ length (backing (set heap a b) c).cells
  Grows-set heap a c b lt h = elim (ℕ_discrete a c) [
    | yes p ↦ rw (← p) (rw (backing-set heap a b lt) h)
    | no p ↦ rw (backing-ne heap a c b p) (le_refl _)
  ]

  Grows-append :
      (heap : List (Backing V)) (b : Backing V) (c : ℕ)
      → length (backing heap c).cells ≤ length (backing (heap ++ b ∷ []) c).cells
  Grows-append [] b c = omega arith
  Grows-append (x ∷ heap) b zero = le_refl _
  Grows-append (x ∷ heap) b (suc c) = Grows-append heap b c

  length-write_le :
      (n : ℕ) (h : Hook V) (l : List (Hook V)) → n ≤ length l → length l ≤ length (write n h l)
  length-write_le n h l b =
      omega (
        arith,
        length-append (take n l) (h ∷ drop (n + 1) l),
        length-take n l,
        length-drop (n + 1) l,
      )

  pub length-splice_le :
      (i n : ℕ) (l : List (Hook V)) → i < n → n ≤ length l → length l ≤ length (splice i n l)
  length-splice_le i n l h b = omega (
    arith,
    length-append (take i l) (take (n - (i + 1)) (drop (i + 1) l) ++ drop (n - 1) l),
    length-append (take (n - (i + 1)) (drop (i + 1) l)) (drop (n - 1) l),
    length-drop (n - 1) l,
    length-drop (i + 1) l,
    length-take i l,
    length-take (n - (i + 1)) (drop (i + 1) l),
  )

  Grows-append_hook :
      (spare : ℕ → ℕ) (h : Hook V) (st : ExitHooks V)
      → IsValid st
      → Grows st (append_hook spare h st)
  Grows-append_hook spare h st ok a = elim (append_hook-cases spare h st) [
    | inl (e, lt) ↦ rw e (
        Grows-set st.heap st.hooks.addr a _ lt
          (length-write_le st.hooks.len h (cells_of st st.hooks.addr) ok.written))
    | inr e ↦ rw e (Grows-append st.heap _ a)
  ]

  Grows-unregister : (fn : ℕ) (st : ExitHooks V) → IsValid st → Grows st (unregister fn st)
  Grows-unregister fn st ok a = elim (Option-cases (index_of fn (view st))) [
    | inl e ↦ rw (unregister-none st fn e) (le_refl _)
    | inr (i, e) ↦ rw (unregister-some st fn i e) (
        Grows-set st.heap st.hooks.addr a _
          (lt-length st.heap st.hooks.addr (omega (arith, in_view-lt st ok fn i e, ok.written)))
          (length-splice_le i st.hooks.len (cells_of st st.hooks.addr) (in_view-lt st ok fn i e)
            ok.written))
  ]

  Grows-apply :
      (spare : ℕ → ℕ) (o : Op V) (st : ExitHooks V) → IsValid st → Grows st (apply spare o st)
  unfolding apply register
  Grows-apply spare (reg none args kwargs) st ok a = le_refl _
  Grows-apply spare (reg (some fn) args kwargs) st ok a = Grows-append_hook spare _ st ok a
  Grows-apply spare (unreg fn) st ok a = Grows-unregister fn st ok a

  pub Grows-apply_all :
      (spare : ℕ → ℕ) (os : List (Op V)) (st : ExitHooks V)
      → IsValid st
      → IsValid (apply_all spare os st) × Grows st (apply_all spare os st)
  unfolding apply_all
  Grows-apply_all spare [] st ok = (ok, λ a. le_refl _)
  Grows-apply_all spare (o ∷ os) st ok =
      let ih = Grows-apply_all spare os (apply spare o st) (apply-IsValid spare st ok o) in
      (ih.0, λ a. le_trans (Grows-apply spare o st ok a) (ih.1 a))

module _ {V W E : Type 0} (spare : ℕ → ℕ) (call : Hook V → W → Outcome V W E) where
  -- The call of some hook panics.
  abbrev pub APanic : Type 0
  APanic = (h : Hook V) × (v : W) × ((call h v).panics ≡ true)

  pub run_from_total :
      (addr n : ℕ) (st : ExitHooks V) (w : W)
      → IsValid st
      → n ≤ length (cells_of st addr)
      → ((r : Ran V W E) × (run_from spare call addr n st w ≡ some r)
          × (length r.called ≡ n)
          × IsValid r.state)
        ⊎ ((run_from spare call addr n st w ≡ none) × APanic)
  unfolding run_from
  run_from_total addr zero st w ok b = inl (_, refl, refl, ok)
  run_from_total addr (suc n) st w ok b =
      let (h, e) = get_elem?-lt (cells_of st addr) n b in
      let o = call h w in
      let g = Grows-apply_all spare o.ops st ok in
      elim (Bool-cases o.panics) [
        | inl p ↦ inr (rw (e, run_from, p) refl, (h, w, p))
        | inr p ↦
            elim (run_from_total addr n (apply_all spare o.ops st) o.world g.0
              (omega (arith, g.1 addr))) [
                | inr (er, panic) ↦ inr (rw (e, run_from, p) (rw er refl), panic)
                | inl (r, er, len, ok') ↦ inl (
                  record r { called = h ∷ r.called; errors = cons_error o.error r.errors },
                  rw (e, run_from, p) (rw er),
                  ap suc len,
                  ok',
                )
              ]
      ]

  -- `Run` panics only if the call of a hook does: else, whatever the hooks register and unregister, it
  -- makes as many calls as there were hooks at the start, and leaves a registry that is in order.
  pub run_total :
      (st : ExitHooks V) (w : W)
      → IsValid st
      → ((r : Ran V W E) × (run spare call st w ≡ some r)
          × (length r.called ≡ length (view st))
          × IsValid r.state)
        ⊎ ((run spare call st w ≡ none) × APanic)
  unfolding run
  run_total st w ok = elim (run_from_total st.hooks.addr st.hooks.len st w ok ok.written) [
    | inr panic ↦ inr panic
    | inl (r, e, len, ok') ↦ inl (
      r,
      e,
      omega (arith, len, length-take st.hooks.len (cells_of st st.hooks.addr), ok.written),
      ok',
    )
  ]
