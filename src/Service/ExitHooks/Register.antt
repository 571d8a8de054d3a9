-- ===== src/Service/ExitHooks/Register.antt =====
-- What `Register` of service/exit_hook.go does to the list of registered hooks.
use starlark_worker.Prelude.{
  ℕ, ◌+◌, ◌≤◌, ◌<◌, Text, ◌⊎◌, ◌≡◌, ap, Option, none, some, List, [], ◌∷◌, ◌++◌, ltb, nat_eq,
  length, set, take, drop, arith, length-append, length-take, Bool-cases, inl, inr,
}
use starlark_worker.Service.ExitHooks.{
  Hook, Backing, ExitHooks, backing, cells_of, write, view, append_hook, register, Op, reg, unreg,
  apply,
}
use starlark_worker.Service.ExitHooks.View.{
  IsValid, backing-set, backing-alloc, lt-length, take-write, take_whole, unregister-IsValid,
}

module _ {V : Type 0} (spare : ℕ → ℕ) (h : Hook V) (st : ExitHooks V) where
  abbrev pub in_place : ExitHooks V
  in_place =
      let b = backing st.heap st.hooks.addr in
      record {
        heap = set st.heap st.hooks.addr (record b { cells = write st.hooks.len h b.cells });
        hooks = record { addr = st.hooks.addr; len = st.hooks.len + 1 };
      }

  abbrev pub grown : ExitHooks V
  grown =
      let b = backing st.heap st.hooks.addr in
      let len = st.hooks.len in
      record {
        heap =
            st.heap
            ++ record { cells = take len b.cells ++ h ∷ []; cap = len + 1 + spare len } ∷ [];
        hooks = record { addr = length st.heap; len = len + 1 };
      }

  pub append_hook-cases :
      ((append_hook spare h st ≡ in_place) × (st.hooks.addr < length st.heap))
      ⊎ (append_hook spare h st ≡ grown)
  unfolding append_hook
  append_hook-cases = elim (Bool-cases (ltb st.hooks.len (backing st.heap st.hooks.addr).cap)) [
    | inl e ↦ inl (rw (e, append_hook), lt-length st.heap st.hooks.addr (ground arith))
    | inr e ↦ inr (rw (e, append_hook))
  ]

  cells-in_place :
      st.hooks.addr < length st.heap
      → cells_of in_place st.hooks.addr ≡ write st.hooks.len h (cells_of st st.hooks.addr)
  cells-in_place lt = ap (λ (b : Backing V). b.cells) (backing-set st.heap st.hooks.addr _ lt)

  cells-grown :
      cells_of grown (length st.heap) ≡ take st.hooks.len (cells_of st st.hooks.addr) ++ h ∷ []
  cells-grown = ap (λ (b : Backing V). b.cells) (backing-alloc st.heap _)

  length-write :
      IsValid st → st.hooks.len + 1 ≤ length (write st.hooks.len h (cells_of st st.hooks.addr))
  length-write ok =
      let l = cells_of st st.hooks.addr in
      let n = st.hooks.len in
      omega (arith, length-append (take n l) (h ∷ drop (n + 1) l), length-take n l, ok.written)

  length-grown :
      IsValid st
      → length (take st.hooks.len (cells_of st st.hooks.addr) ++ h ∷ []) ≡ st.hooks.len + 1
  length-grown ok =
      let l = cells_of st st.hooks.addr in
      let n = st.hooks.len in
      omega (arith, length-append (take n l) (h ∷ []), length-take n l, ok.written)

  append_hook-view : IsValid st → view (append_hook spare h st) ≡ view st ++ h ∷ []
  append_hook-view ok = elim append_hook-cases [
    | inl (e, lt) ↦
        rw (e, cells-in_place lt) (take-write st.hooks.len h (cells_of st st.hooks.addr) ok.written)
    | inr e ↦ rw (e, cells-grown) (take_whole (st.hooks.len + 1) _ (length-grown ok))
  ]

  append_hook-IsValid : IsValid st → IsValid (append_hook spare h st)
  append_hook-IsValid ok = elim append_hook-cases [
    | inl (e, lt) ↦ rw e (record { written = rw (cells-in_place lt) (length-write ok) })
    | inr e ↦ rw e (record { written = rw cells-grown (omega (arith, length-grown ok)) })
  ]

module _ {V : Type 0} (spare : ℕ → ℕ) (st : ExitHooks V) (ok : IsValid st) where
  -- A hook that is registered stands behind the ones registered before.
  pub register-view :
      (fn : ℕ) (args : List V) (kwargs : List (Text × V))
      → view (register spare (some fn) args kwargs st)
        ≡ view st ++ record { fn = fn; args = args; kwargs = kwargs } ∷ []
  unfolding register
  register-view fn args kwargs = append_hook-view spare _ st ok

  pub register-IsValid :
      (fn : Option ℕ) (args : List V) (kwargs : List (Text × V))
      → IsValid (register spare fn args kwargs st)
  unfolding register
  register-IsValid none args kwargs = ok
  register-IsValid (some fn) args kwargs = append_hook-IsValid spare _ st ok

  -- Registering and unregistering keep a registry valid: its slice lies within the written cells of
  -- its array.
  pub apply-IsValid : (o : Op V) → IsValid (apply spare o st)
  unfolding apply
  apply-IsValid (reg fn args kwargs) = register-IsValid fn args kwargs
  apply-IsValid (unreg fn) = unregister-IsValid st ok fn
