-- ===== src/Internal/Signature/Tests.antt =====
-- The theorems on internal/utils.go for types that are numbers: 1 is the context of internal/context.go, 2
-- that of an engine, 3 a string, 4 an error, 5 a slice of strings.
use starlark_worker.Prelude.{
  ℕ, ◌≡◌, refl, Bool, true, false, ◌&&◌, ◌||◌, List, [], ◌∷◌, ◌==◌, nat_eq, beq_refl,
}
use starlark_worker.Service.Lifecycle.{Attempt, returned, panicked}
use starlark_worker.Internal.Signature.{
  Reflect, Function, make_func, converted_call, update_workflow_function_context_argument,
  cannot_use,
}
use starlark_worker.Internal.Signature.Calls.{
  Documented, HasTypes, ResultsTyped, update_typed, update_variadic_panics, workflow,
  variadic_workflow,
}

-- A value is its type and a number.
abbrev assignable_to : ℕ → ℕ → Bool
assignable_to a b = a == b || (a == 2 && b == 1)

abbrev put : ℕ × ℕ → ℕ → ℕ × ℕ
put v t = (t, v.1)

abbrev pub numbers : Reflect ℕ (ℕ × ℕ)
numbers = record {
  type_of = λ v. v.0;
  assignable = assignable_to;
  elem_type = λ t. 3;
  assign = put;
  convert = λ v t. returned (t, v.1);
  make_slice = λ t vs. (t, 0);
}

assignable_self : (t : ℕ) → assignable_to t t ≡ true
assignable_self t = rw (beq_refl t) refl

pub numbers-Documented : Documented numbers
numbers-Documented = record {
  assignable_self = assignable_self;
  assign_self = λ v. refl;
  convert_self = λ v. refl;
  assign_type = λ v t e. refl;
}

-- A workflow that gives its string back and no error.
abbrev pub echo : {W : Type 0} → List (ℕ × ℕ) → W → Attempt (List (ℕ × ℕ)) × W
echo (c ∷ s ∷ rest) w = (returned (s ∷ (4, 0) ∷ []), w)
echo args w = (panicked [], w)

pub echo_typed :
    {W : Type 0} (args : List (ℕ × ℕ)) (w : W)
    → HasTypes numbers args (1 ∷ 3 ∷ [])
    → ResultsTyped numbers (3 ∷ 4 ∷ []) (echo args w)
echo_typed (c ∷ s ∷ []) w (e, (f, h)) = (f, (refl, tt))
echo_typed [] w h = tt
echo_typed (c ∷ []) w h = tt
echo_typed (c ∷ s ∷ a ∷ rest) w (e, (f, h)) = elim h [ ]

-- What the code makes of a function whose parameters behind the context are `ts`.
abbrev made : List ℕ → List ℕ → Function ℕ (ℕ × ℕ) ℕ → Function ℕ (ℕ × ℕ) ℕ
made ts outs f =
    make_func numbers (record { ins = 2 ∷ ts; outs = outs; variadic = false })
      (converted_call numbers f 2)

abbrev echo_made : Function ℕ (ℕ × ℕ) ℕ
echo_made =
    made (3 ∷ []) (3 ∷ 4 ∷ []) (workflow numbers numbers-Documented 1 (3 ∷ []) (3 ∷ 4 ∷ []) echo 2)

update_typed_example : echo_made.body ((2, 8) ∷ (3, 9) ∷ []) 0 ≡ echo ((1, 8) ∷ (3, 9) ∷ []) 0
unfolding update_workflow_function_context_argument
update_typed_example =
    (update_typed numbers numbers-Documented 1 (3 ∷ []) (3 ∷ 4 ∷ []) echo 2 echo_typed echo_made
      (2, 8) ((3, 9) ∷ []) 0 refl refl (refl, (refl, tt))).1

update_variadic_panics_example :
    (made
        (5 ∷ [])
        (3 ∷ [])
        (variadic_workflow numbers numbers-Documented 1 [] 5 (3 ∷ []) echo 2)).body
      ((2, 8) ∷ (5, 9) ∷ [])
      0
    ≡ (panicked cannot_use, 0)
unfolding update_workflow_function_context_argument
update_variadic_panics_example =
    update_variadic_panics numbers numbers-Documented 1 [] 5 (3 ∷ []) echo 2
      (made (5 ∷ []) (3 ∷ []) (variadic_workflow numbers numbers-Documented 1 [] 5 (3 ∷ []) echo 2))
      (2, 8) ((5, 9) ∷ []) 0 refl (refl, (refl, tt)) refl
