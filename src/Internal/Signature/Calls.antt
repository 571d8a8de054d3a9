-- ===== src/Internal/Signature/Calls.antt =====
-- Calls of a workflow function through UpdateWorkflowFunctionContextArgument of internal/utils.go.
use starlark_worker.Prelude.{
  ◌≡◌, refl, sym, ap, ◌∙◌, true, false, none, some, List, [], ◌∷◌, ◌++◌, arith,
}
use starlark_worker.Service.Lifecycle.{Attempt, returned, panicked}
use starlark_worker.Internal.Signature.{
  Reflect, Signature, Function, function, get_remaining_in_types, get_out_types, assign_all,
  assign_each, assign_variadic, call, results, make_func, converted_call, cannot_use,
  update_workflow_function_context_argument,
}

module _ {T V : Type 0} (reflect : Reflect T V) where
  open reflect use {type_of, assignable, elem_type, assign, convert}

  -- The values have the types, one for each.
  abbrev pub HasTypes : List V → List T → Type 0
  HasTypes [] [] = Unit
  HasTypes [] (t ∷ ts) = ⊥
  HasTypes (v ∷ vs) [] = ⊥
  HasTypes (v ∷ vs) (t ∷ ts) = (type_of v ≡ t) × HasTypes vs ts

  -- What reflect documents of a value that has the type already: it is assignable, and neither
  -- its assignment nor its conversion changes it; and an assigned value has the variable's type.
  pub record Documented : Type 0 where
    pub assignable_self : (t : T) → assignable t t ≡ true
    pub assign_self : (v : V) → assign v (type_of v) ≡ v
    pub convert_self : (v : V) → convert v (type_of v) ≡ returned v
    pub assign_type : (v : V) (t : T) → assignable (type_of v) t ≡ true → type_of (assign v t) ≡ t

  -- The call panicked, or its results have the types.
  abbrev pub ResultsTyped : {World : Type 0} → List T → Attempt (List V) × World → Type 0
  ResultsTyped outs (panicked p, w) = Unit
  ResultsTyped outs (returned vs, w) = HasTypes vs outs

returned_injective : {A : Type 0} {a b : A} → returned a ≡ returned b → a ≡ b
returned_injective h = cc

module _ {T V : Type 0} (reflect : Reflect T V) (documented : Documented reflect) where
  open reflect use {type_of, assignable, elem_type, assign, convert}

  assign_all-HasTypes :
      (ts : List T) (vs : List V) → HasTypes reflect vs ts → assign_all reflect ts vs ≡ some vs
  unfolding assign_all
  assign_all-HasTypes [] [] h = refl
  assign_all-HasTypes [] (v ∷ vs) h = elim h [ ]
  assign_all-HasTypes (t ∷ ts) [] h = elim h [ ]
  assign_all-HasTypes (t ∷ ts) (v ∷ vs) (e, h) =
      let kept : assign v t ≡ v = ap (assign v) (sym e) ∙ documented.assign_self v in
      let accepted : assignable (type_of v) t ≡ true =
        ap (λ s. assignable s t) e ∙ documented.assignable_self t in
      rw (accepted, assign_all-HasTypes ts vs h, kept) refl

  none_kept :
      (t u : T) (ts : List T) (v : V) (vs : List V)
      → assign_variadic reflect (u ∷ ts) vs ≡ none
      → assign_variadic reflect (t ∷ u ∷ ts) (v ∷ vs) ≡ none
  unfolding assign_variadic
  none_kept t u ts v vs h = ground arith

  -- A slice for the last parameter is refused: the parameter takes elements.
  assign_variadic-HasTypes :
      (us : List T) (s : T) (vs : List V)
      → assignable s (elem_type s) ≡ false
      → HasTypes reflect vs (us ++ s ∷ [])
      → assign_variadic reflect (us ++ s ∷ []) vs ≡ none
  unfolding assign_variadic assign_each
  assign_variadic-HasTypes [] s [] a h = elim h [ ]
  assign_variadic-HasTypes [] s (v ∷ []) a (e, h) = rw (e, a) refl
  assign_variadic-HasTypes [] s (v ∷ u ∷ vs) a (e, h) = elim h [ ]
  assign_variadic-HasTypes (u ∷ us) s [] a h = elim h [ ]
  assign_variadic-HasTypes (u ∷ []) s (v ∷ vs) a (e, h) =
      none_kept u s [] v vs (assign_variadic-HasTypes [] s vs a h)
  assign_variadic-HasTypes (u ∷ t ∷ us) s (v ∷ vs) a (e, h) =
      none_kept u t (us ++ s ∷ []) v vs (assign_variadic-HasTypes (t ∷ us) s vs a h)

  -- The same behind the context.
  assign_variadic-context :
      (t : T) (us : List T) (s : T) (v : V) (vs : List V)
      → assignable s (elem_type s) ≡ false
      → HasTypes reflect vs (us ++ s ∷ [])
      → assign_variadic reflect (t ∷ us ++ s ∷ []) (v ∷ vs) ≡ none
  assign_variadic-context t [] s v vs a h =
      none_kept t s [] v vs (assign_variadic-HasTypes [] s vs a h)
  assign_variadic-context t (u ∷ us) s v vs a h =
      none_kept t u (us ++ s ∷ []) v vs (assign_variadic-HasTypes (u ∷ us) s vs a h)

module _ {T V World : Type 0} (reflect : Reflect T V) (documented : Documented reflect) where
  open reflect use {type_of, assignable, elem_type, assign, convert}

  results-ResultsTyped :
      (outs : List T) (r : Attempt (List V) × World)
      → ResultsTyped reflect outs r
      → results reflect outs r ≡ r
  results-ResultsTyped outs (panicked p, w) h = refl
  results-ResultsTyped outs (returned vs, w) h =
      rw (results, assign_all-HasTypes reflect documented outs vs h) refl

  module _ (t : T) (ts outs : List T) (body : List V → World → Attempt (List V) × World)
      (context_type : T) where
    abbrev pub workflow : Function T V World
    workflow = record {
      signature = record { ins = t ∷ ts; outs = outs; variadic = false };
      body = body;
    }

    -- For a function that is not variadic, whose first parameter takes the context type, and that
    -- gives results of its types for arguments of its types: the new function has the context type
    -- for its first parameter and the other types as they were; called with a context of that type
    -- and the other arguments, it does what the function does with them, and its results have
    -- the types.
    pub update_typed :
        (typed : (args : List V) (w : World)
          → HasTypes reflect args (t ∷ ts)
          → ResultsTyped reflect outs (body args w))
        (g : Function T V World) (ctx : V) (rest : List V) (w : World)
        → assignable context_type t ≡ true
        → update_workflow_function_context_argument reflect (function workflow) context_type
          ≡ returned g
        → HasTypes reflect (ctx ∷ rest) (context_type ∷ ts)
        → (g.signature ≡ record { ins = context_type ∷ ts; outs = outs; variadic = false })
          × (g.body (ctx ∷ rest) w ≡ body (assign ctx t ∷ rest) w)
          × ResultsTyped reflect outs (g.body (ctx ∷ rest) w)
    unfolding update_workflow_function_context_argument converted_call call assign_all get_out_types
        get_remaining_in_types
    update_typed typed g ctx rest w a made (e, h) =
        let same : make_func reflect signature (converted_call reflect workflow context_type) ≡ g =
          returned_injective made in
        let run : g.body (ctx ∷ rest) w ≡ body (assign ctx t ∷ rest) w =
          ap (λ f. f.body (ctx ∷ rest) w) (sym same) ∙ calls in
        (ap (λ f. f.signature) (sym same), run, rw run args_typed)
      where
        signature : Signature T
        signature = record { ins = context_type ∷ ts; outs = outs; variadic = false }

        args_typed : ResultsTyped reflect outs (body (assign ctx t ∷ rest) w)
        args_typed =
            typed (assign ctx t ∷ rest) w
              (documented.assign_type ctx t (ap (λ s. assignable s t) e ∙ a), h)

        calls :
            results reflect outs (converted_call reflect workflow context_type (ctx ∷ rest) w)
            ≡ body (assign ctx t ∷ rest) w
        calls =
            let converted : convert ctx context_type ≡ returned ctx =
              ap (convert ctx) (sym e) ∙ documented.convert_self ctx in
            let accepted : assignable (type_of ctx) t ≡ true = ap (λ s. assignable s t) e ∙ a in
            rw (converted, accepted, assign_all-HasTypes reflect documented ts rest h)
              (results-ResultsTyped outs _ args_typed)

  module _ (t : T) (us : List T) (s : T) (outs : List T)
      (body : List V → World → Attempt (List V) × World) (context_type : T) where
    abbrev pub variadic_workflow : Function T V World
    variadic_workflow = record {
      signature = record { ins = t ∷ us ++ s ∷ []; outs = outs; variadic = true };
      body = body;
    }

    -- The new function of a variadic one takes a slice for the last parameter, and panics at every
    -- call with arguments of its types, if that slice is not assignable to the slice's elements.
    pub update_variadic_panics :
        (g : Function T V World) (ctx : V) (rest : List V) (w : World)
        → update_workflow_function_context_argument reflect
            (function variadic_workflow)
            context_type
          ≡ returned g
        → HasTypes reflect (ctx ∷ rest) g.signature.ins
        → assignable s (elem_type s) ≡ false
        → g.body (ctx ∷ rest) w ≡ (panicked cannot_use, w)
    unfolding update_workflow_function_context_argument converted_call call get_out_types
        get_remaining_in_types
    update_variadic_panics g ctx rest w made h a =
        ap (λ f. f.body (ctx ∷ rest) w) (sym same) ∙ panics (rw (sym same) at h)
      where
        new : Signature T
        new = record { ins = context_type ∷ us ++ s ∷ []; outs = outs; variadic = false }

        same : make_func reflect new (converted_call reflect variadic_workflow context_type) ≡ g
        same = returned_injective made

        panics :
            HasTypes reflect (ctx ∷ rest) (context_type ∷ us ++ s ∷ [])
            → results reflect outs
                (converted_call reflect variadic_workflow context_type (ctx ∷ rest) w)
              ≡ (panicked cannot_use, w)
        panics (e, k) =
            let converted : convert ctx context_type ≡ returned ctx =
              ap (convert ctx) (sym e) ∙ documented.convert_self ctx in
            rw (converted, assign_variadic-context reflect documented t us s ctx rest a k) refl
