-- ===== src/Service/ExitHooks.antt =====
-- service/exit_hook.go: the registry of exit hooks. The registry is a Go slice, so its backing
-- arrays are modelled: `Run` walks the array that the slice had at the start, and `Unregister`
-- shifts the elements of an array in place.
pub mod View
pub mod Register
pub mod Memory
pub mod Runs
pub mod Shift
pub mod Total
mod Tests
use starlark_worker.Prelude.{
  ℕ, zero, suc, ◌+◌, ◌-◌, Text, Bool, true, false, Option, none, some, List, [], ◌∷◌, ◌++◌, ltb,
  ◌==◌, nat_eq, if◌then◌else◌, length, get_elem?, set, take, drop,
}
use mathlib.Core.Option

-- `fn` is the identity of the callable, the pointer that Go's `==` compares.
pub record Hook (V : Type 0) : Type 0 where
  pub fn : ℕ
  pub args : List V
  pub kwargs : List (Text × V)

-- An array of the Go heap. `cells` are the slots written so far, the others hold nil.
pub record Backing (V : Type 0) : Type 0 where
  pub cells : List (Hook V)
  pub cap : ℕ

-- The slice header `hooks[0:len]` of the array at `addr`.
pub record Slice : Type 0 where
  pub addr : ℕ
  pub len : ℕ

-- The struct ExitHooks, with the arrays that its field has pointed to.
pub record ExitHooks (V : Type 0) : Type 0 where
  pub heap : List (Backing V)
  pub hooks : Slice

-- `&ExitHooks{}`: a nil slice.
abbrev pub new : {V : Type 0} → ExitHooks V
new = record { heap = []; hooks = record { addr = 0; len = 0 } }

-- What user code does to the registry: calls of the atexit plugin.
pub data Op (V : Type 0) : Type 0 where
  reg : Option ℕ → List V → List (Text × V) → Op V
  unreg : ℕ → Op V

module _ {V : Type 0} where
  -- The array of a slice; a nil slice has none.
  abbrev pub backing : List (Backing V) → ℕ → Backing V
  backing heap addr = elim (get_elem? heap addr) [
    | none ↦ record { cells = []; cap = 0 }
    | some b ↦ b
  ]

  abbrev pub cells_of : ExitHooks V → ℕ → List (Hook V)
  cells_of st addr = (backing st.heap addr).cells

  -- The slots after `append(s[:len], h)` in place.
  abbrev pub write : ℕ → Hook V → List (Hook V) → List (Hook V)
  write len h cells = take len cells ++ h ∷ drop (len + 1) cells

  -- The slots after `append(s[:i], s[i+1:]...)` on a slice of length `len`: the elements behind
  -- `i` move down by one, and the last one stays in its slot too.
  abbrev pub splice : ℕ → ℕ → List (Hook V) → List (Hook V)
  splice i len cells =
      take i cells ++ (take (len - (i + 1)) (drop (i + 1) cells) ++ drop (len - 1) cells)

  -- The first position whose hook has the callable `fn`.
  abbrev pub index_of : ℕ → List (Hook V) → Option ℕ
  index_of fn [] = none
  index_of fn (h ∷ hs) = if h.fn == fn then some 0 else Option.map suc (index_of fn hs)

  -- The registered hooks, oldest first.
  abbrev pub view : ExitHooks V → List (Hook V)
  view st = take st.hooks.len (cells_of st st.hooks.addr)

  -- (*ExitHooks).Unregister
  unfoldable pub unregister : ℕ → ExitHooks V → ExitHooks V
  unregister fn st = elim (index_of fn (view st)) [
    | none ↦ st
    | some i ↦
        let b = backing st.heap st.hooks.addr in
        record {
          heap = set st.heap st.hooks.addr (record b { cells = splice i st.hooks.len b.cells });
          hooks = record { addr = st.hooks.addr; len = st.hooks.len - 1 };
        }
  ]

-- `spare` is what the Go runtime adds to the length when `append` has to grow an array.
module _ {V : Type 0} (spare : ℕ → ℕ) where
  -- `r.hooks = append(r.hooks, h)`
  pub append_hook : Hook V → ExitHooks V → ExitHooks V
  append_hook h st =
      let b = backing st.heap st.hooks.addr in
      let len = st.hooks.len in
      if ltb len b.cap
      then record {
        heap = set st.heap st.hooks.addr (record b { cells = write len h b.cells });
        hooks = record { addr = st.hooks.addr; len = len + 1 };
      }
      else record {
        heap =
            st.heap
            ++ record { cells = take len b.cells ++ h ∷ []; cap = len + 1 + spare len } ∷ [];
        hooks = record { addr = length st.heap; len = len + 1 };
      }

  -- (*ExitHooks).Register; `none` is a nil callable.
  unfoldable pub register : Option ℕ → List V → List (Text × V) → ExitHooks V → ExitHooks V
  unfolding append_hook
  register none args kwargs st = st
  register (some fn) args kwargs st =
      append_hook (record { fn = fn; args = args; kwargs = kwargs }) st

  unfoldable pub apply : Op V → ExitHooks V → ExitHooks V
  apply (reg fn args kwargs) st = register fn args kwargs st
  apply (unreg fn) st = unregister fn st

  unfoldable pub apply_all : List (Op V) → ExitHooks V → ExitHooks V
  apply_all [] st = st
  apply_all (o ∷ os) st = apply_all os (apply o st)

-- What `starlark.Call` did: whether it panicked, as a builtin of the atexit plugin does without a
-- callable, and else the new state of the rest of the world, the calls of the atexit plugin that the
-- callable made, and its error.
pub record Outcome (V W E : Type 0) : Type 0 where
  pub panics : Bool
  pub world : W
  pub ops : List (Op V)
  pub error : Option E

-- What `Run` leaves: the registry, the world, the hooks called in order, and the slice `_errors`.
pub record Ran (V W E : Type 0) : Type 0 where
  pub state : ExitHooks V
  pub world : W
  pub called : List (Hook V)
  pub errors : List E

abbrev pub cons_error : {E : Type 0} → Option E → List E → List E
cons_error none es = es
cons_error (some e) es = e ∷ es

-- `call` is `starlark.Call` of a hook.
module _ {V W E : Type 0} (spare : ℕ → ℕ) (call : Hook V → W → Outcome V W E) where
  abbrev pub ran_first : Hook V → Option E → Ran V W E → Ran V W E
  ran_first h e r = record r { called = h ∷ r.called; errors = cons_error e r.errors }

  -- The loop of `Run` over the array at `addr`, with `n` positions to go. `none` is a panic, of a
  -- nil slot or of the call.
  unfoldable pub run_from : ℕ → ℕ → ExitHooks V → W → Option (Ran V W E)
  run_from addr zero st w = some (record { state = st; world = w; called = []; errors = [] })
  run_from addr (suc n) st w = elim (get_elem? (cells_of st addr) n) [
    | none ↦ none
    | some h ↦
        let o = call h w in
        elim o.panics [
          | true ↦ none
          | false ↦
              Option.map (ran_first h o.error) (run_from addr n (apply_all spare o.ops st) o.world)
        ]
  ]

  -- (*ExitHooks).Run, up to `multierr.Combine` of the errors.
  unfoldable pub run : ExitHooks V → W → Option (Ran V W E)
  run st w = run_from st.hooks.addr st.hooks.len st w
