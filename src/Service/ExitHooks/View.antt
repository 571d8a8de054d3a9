-- ===== src/Service/ExitHooks/View.antt =====
-- What the operations of service/exit_hook.go do to the list of registered hooks.
use starlark_worker.Prelude.{
  ℕ, zero, suc, ◌+◌, ◌-◌, ◌≤◌, ◌<◌, ◌≡◌, refl, sym, ap, ◌∙◌, take_of_length, none, some, List, [],
  ◌∷◌, ◌++◌, ◌==◌, nat_eq, if◌then◌else◌, length, get_elem?, set, take, drop, arith, length-append,
  get_elem?-set_self, length-take, length-drop, Option-cases, inl, inr,
}
use mathlib.Core.List.{append_assoc, append-nil}
use starlark_worker.Service.ExitHooks.{
  Hook, Backing, ExitHooks, backing, cells_of, write, splice, index_of, view, unregister,
}

-- The slice lies in its array.
pub record IsValid {V : Type 0} (st : ExitHooks V) : Type 0 where
  pub written : st.hooks.len ≤ length (cells_of st st.hooks.addr)

-- The list without the first hook of `fn`.
abbrev pub remove_first : {V : Type 0} → ℕ → List (Hook V) → List (Hook V)
remove_first fn [] = []
remove_first fn (h ∷ hs) = if h.fn == fn then hs else h ∷ remove_first fn hs

module _ {V : Type 0} where
  pub backing-set :
      (heap : List (Backing V)) (a : ℕ) (b : Backing V)
      → a < length heap
      → backing (set heap a b) a ≡ b
  backing-set heap a b h = rw (get_elem?-set_self heap a b h, backing)

  get_elem?-length :
      (heap : List (Backing V)) (b : Backing V) → get_elem? (heap ++ b ∷ []) (length heap) ≡ some b
  get_elem?-length [] b = refl
  get_elem?-length (x ∷ heap) b = get_elem?-length heap b

  pub backing-alloc :
      (heap : List (Backing V)) (b : Backing V) → backing (heap ++ b ∷ []) (length heap) ≡ b
  backing-alloc heap b = rw (get_elem?-length heap b, backing)

  -- an array that holds something, or has room, exists
  pub lt-length :
      (heap : List (Backing V)) (a : ℕ)
      → 0 < length (backing heap a).cells + (backing heap a).cap
      → a < length heap
  lt-length [] a h = absurd (omega arith)
  lt-length (x ∷ heap) zero h = omega arith
  lt-length (x ∷ heap) (suc a) h = omega (arith, lt-length heap a h)

  pub take-write :
      (n : ℕ) (h : Hook V) (l : List (Hook V))
      → n ≤ length l
      → take (n + 1) (write n h l) ≡ take n l ++ h ∷ []
  take-write n h l b = rw (← append_assoc (take n l) (h ∷ []) (drop (n + 1) l)) (
      take_of_length (n + 1) (take n l ++ h ∷ []) (drop (n + 1) l)
        (omega (arith, length-append (take n l) (h ∷ []), length-take n l)))

  pub take_whole : (n : ℕ) (l : List (Hook V)) → length l ≡ n → take n l ≡ l
  take_whole n l h = ap (take n) (sym (append-nil l)) ∙ take_of_length n l [] h

  pub take-take : (i n : ℕ) (l : List (Hook V)) → i ≤ n → take i (take n l) ≡ take i l
  take-take zero n l h = refl
  take-take (suc i) zero l h = absurd (omega arith)
  take-take (suc i) (suc n) [] h = refl
  take-take (suc i) (suc n) (x ∷ l) h = ap (λ t. x ∷ t) (take-take i n l (omega arith))

  take-nil : (n : ℕ) → take {A = Hook V} n [] ≡ []
  take-nil zero = refl
  take-nil (suc n) = refl

  pub drop-take :
      (i n : ℕ) (l : List (Hook V)) → i ≤ n → drop i (take n l) ≡ take (n - i) (drop i l)
  drop-take zero n l h = ap (λ k. take k l) (omega arith)
  drop-take (suc i) zero l h = absurd (omega arith)
  drop-take (suc i) (suc n) [] h = sym (take-nil (suc n - suc i))
  drop-take (suc i) (suc n) (x ∷ l) h =
      drop-take i n l (omega arith) ∙ ap (λ k. take k (drop i l)) (omega arith)

  pub index_of-lt : (fn : ℕ) (l : List (Hook V)) (i : ℕ) → index_of fn l ≡ some i → i < length l
  index_of-lt fn [] i h = cc
  index_of-lt fn (x ∷ l) i h = elim (Option-cases (index_of fn l)) [
    | inl e ↦ ground arith
    | inr (j, e) ↦ ground (arith, index_of-lt fn l j e)
  ]

  pub remove_first-eq :
      (fn : ℕ) (l : List (Hook V)) (i : ℕ)
      → index_of fn l ≡ some i
      → remove_first fn l ≡ take i l ++ drop (i + 1) l
  remove_first-eq fn [] i h = cc
  remove_first-eq fn (x ∷ l) zero h = elim (Option-cases (index_of fn l)) [
    | inl e ↦ ground arith
    | inr (j, e) ↦ ground arith
  ]
  remove_first-eq fn (x ∷ l) (suc i) h = elim (Option-cases (index_of fn l)) [
    | inl e ↦ ground arith
    | inr (j, e) ↦ ground (arith, remove_first-eq fn l i)
  ]

  pub remove_first-none :
      (fn : ℕ) (l : List (Hook V)) → index_of fn l ≡ none → remove_first fn l ≡ l
  remove_first-none fn [] h = refl
  remove_first-none fn (x ∷ l) h = elim (Option-cases (index_of fn l)) [
    | inl e ↦ ground (arith, remove_first-none fn l e)
    | inr (j, e) ↦ ground arith
  ]

  pub take-splice :
      (i n : ℕ) (l : List (Hook V))
      → i < n
      → n ≤ length l
      → take (n - 1) (splice i n l) ≡ take i (take n l) ++ drop (i + 1) (take n l)
  take-splice i n l h b =
      rw (take-take i n l (omega arith), drop-take (i + 1) n l (omega arith))
        (rw (← append_assoc (take i l) (take (n - (i + 1)) (drop (i + 1) l)) (drop (n - 1) l)) (
          take_of_length (n - 1) (take i l ++ take (n - (i + 1)) (drop (i + 1) l)) (drop (n - 1) l)
            (omega (
              arith,
              length-append (take i l) (take (n - (i + 1)) (drop (i + 1) l)),
              length-take i l,
              length-take (n - (i + 1)) (drop (i + 1) l),
              length-drop (i + 1) l,
            ))))

module _ {V : Type 0} (st : ExitHooks V) where
  abbrev pub removed : ℕ → ExitHooks V
  removed i =
      let b = backing st.heap st.hooks.addr in
      record {
        heap = set st.heap st.hooks.addr (record b { cells = splice i st.hooks.len b.cells });
        hooks = record { addr = st.hooks.addr; len = st.hooks.len - 1 };
      }

  pub unregister-some : (fn i : ℕ) → index_of fn (view st) ≡ some i → unregister fn st ≡ removed i
  unfolding unregister
  unregister-some fn i e = rw (e, unregister)

  pub unregister-none : (fn : ℕ) → index_of fn (view st) ≡ none → unregister fn st ≡ st
  unfolding unregister
  unregister-none fn e = rw (e, unregister)

  pub in_view-lt : (ok : IsValid st) (fn i : ℕ) → index_of fn (view st) ≡ some i → i < st.hooks.len
  in_view-lt ok fn i e =
      omega
        (arith, index_of-lt fn (view st) i e, length-take st.hooks.len (cells_of st st.hooks.addr))

  pub cells-removed :
      (ok : IsValid st) (fn i : ℕ)
      → index_of fn (view st) ≡ some i
      → cells_of (removed i) st.hooks.addr ≡ splice i st.hooks.len (cells_of st st.hooks.addr)
  cells-removed ok fn i e =
      ap (λ (b : Backing V). b.cells)
        (backing-set st.heap st.hooks.addr _
          (lt-length st.heap st.hooks.addr (omega (arith, in_view-lt ok fn i e, ok.written))))

  length-removed :
      (ok : IsValid st) (fn i : ℕ)
      → index_of fn (view st) ≡ some i
      → st.hooks.len - 1 ≤ length (splice i st.hooks.len (cells_of st st.hooks.addr))
  length-removed ok fn i e =
      let l = cells_of st st.hooks.addr in
      let n = st.hooks.len in
      omega (
        arith,
        length-append (take i l) (take (n - (i + 1)) (drop (i + 1) l) ++ drop (n - 1) l),
        length-append (take (n - (i + 1)) (drop (i + 1) l)) (drop (n - 1) l),
        length-drop (n - 1) l,
        length-drop (i + 1) l,
        length-take i l,
        length-take (n - (i + 1)) (drop (i + 1) l),
        in_view-lt ok fn i e,
        ok.written,
      )

module _ {V : Type 0} (st : ExitHooks V) (ok : IsValid st) where
  pub unregister-view : (fn : ℕ) → view (unregister fn st) ≡ remove_first fn (view st)
  unregister-view fn = elim (Option-cases (index_of fn (view st))) [
    | inl e ↦ rw (unregister-none st fn e) (sym (remove_first-none fn (view st) e))
    | inr (i, e) ↦
        rw (unregister-some st fn i e, cells-removed st ok fn i e, remove_first-eq fn (view st) i e)
          (take-splice i st.hooks.len (cells_of st st.hooks.addr) (in_view-lt st ok fn i e)
            ok.written)
  ]

  pub unregister-IsValid : (fn : ℕ) → IsValid (unregister fn st)
  unregister-IsValid fn = elim (Option-cases (index_of fn (view st))) [
    | inl e ↦ rw (unregister-none st fn e) ok
    | inr (i, e) ↦
        rw (unregister-some st fn i e)
          (record { written = rw (cells-removed st ok fn i e) (length-removed st ok fn i e) })
  ]
