-- ===== src/Plugin/Workflow/Options.antt =====
-- What the keywords of `execute_activity` and `execute_workflow` do (plugin/workflow/module.go).
use starlark_worker.Prelude.{
  ◌≡◌, ◌⊎◌, inl, inr, refl, Bool, false, List, [], ◌∷◌, ◌++◌, Text, text, ◌==◌, nat_eq, list_eq,
  list_beq, if◌then◌else◌, err, Bool-cases, All, All-map_of,
}
use starlark_worker.Star.Values.{Value, string, boolean}
use starlark_worker.Service.Lifecycle.{returned}
use starlark_worker.Plugin.Workflow.{
  Keywords, CallError, unimplemented, unsupported_key, Calls, activity_keywords,
  execute_activity_call, workflow_keywords, execute_workflow_call,
}

-- A keyword `task_list` with a string, or `as_bytes` with a boolean.
abbrev pub IsActivityOption : Text × Value → Type 0
IsActivityOption (k, v) =
    ((k ≡ text "task_list") × ((s : Text) × (v ≡ string s)))
    ⊎ ((k ≡ text "as_bytes") × ((b : Bool) × (v ≡ boolean b)))

-- The keyword `domain` with a string, too.
abbrev pub IsWorkflowOption : Text × Value → Type 0
IsWorkflowOption (k, v) =
    ((k ≡ text "domain") × ((s : Text) × (v ≡ string s))) ⊎ IsActivityOption (k, v)

-- The strings under a keyword, in their order.
abbrev pub strings_under : Text → Keywords → List Text
strings_under key [] = []
strings_under key ((k, string s) ∷ kwargs) =
    if k == key then s ∷ strings_under key kwargs else strings_under key kwargs
strings_under key (_ ∷ kwargs) = strings_under key kwargs

-- The last boolean under a keyword, or the default.
abbrev pub last_bool : Text → Bool → Keywords → Bool
last_bool key default [] = default
last_bool key default ((k, boolean b) ∷ kwargs) =
    last_bool key (if k == key then b else default) kwargs
last_bool key default (_ ∷ kwargs) = last_bool key default kwargs

abbrev pub apply_all : {A B : Type 0} → (A → B → A) → A → List B → A
apply_all f a [] = a
apply_all f a (b ∷ bs) = apply_all f (f a b) bs

-- The error of a keyword that is no option.
abbrev pub refusal : {E : Type 0} → Text → CallError E
refusal k = if k == text "headers" then unimplemented else unsupported_key k

module _ {Ctx Future E World : Type 0} (calls : Calls Ctx Future E World) where
  open calls use {with_task_list, execute_activity}

  activity_keywords_refused :
      (id : Text) (args : List Value) (ctx : Ctx) (b : Bool) (kwargs others : Keywords) (k : Text)
      (v : Value) (w : World)
      → All IsActivityOption kwargs
      → (k == text "task_list") ≡ false
      → (k == text "as_bytes") ≡ false
      → activity_keywords calls id args ctx b (kwargs ++ (k, v) ∷ others) w
        ≡ (returned (err (refusal k)), w)
  unfolding activity_keywords list_beq
  activity_keywords_refused id args ctx b [] others k v w h n m =
      elim (Bool-cases (k == text "headers")) [
        | inl e ↦ rw (n, m, e, activity_keywords) refl
        | inr e ↦ rw (n, m, e, activity_keywords) refl
      ]
  activity_keywords_refused id args ctx b ((j, u) ∷ kwargs) others k v w (inl (e, (s, f)), h) n m =
      rw (f, e, activity_keywords)
        (activity_keywords_refused id args (with_task_list ctx s) b kwargs others k v w h n m)
  activity_keywords_refused id args ctx b ((j, u) ∷ kwargs) others k v w (inr (e, (c, f)), h) n m =
      rw (f, e, activity_keywords)
        (activity_keywords_refused id args ctx c kwargs others k v w h n m)

  workflow_keywords_refused :
      (id : Text) (args : List Value) (ctx : Ctx) (b : Bool) (kwargs others : Keywords) (k : Text)
      (v : Value) (w : World)
      → All IsWorkflowOption kwargs
      → (k == text "domain") ≡ false
      → (k == text "task_list") ≡ false
      → (k == text "as_bytes") ≡ false
      → (workflow_keywords calls id args ctx b (kwargs ++ (k, v) ∷ others) w).0
        ≡ returned (err (refusal k))
  unfolding workflow_keywords list_beq
  workflow_keywords_refused id args ctx b [] others k v w h d n m =
      elim (Bool-cases (k == text "headers")) [
        | inl e ↦ rw (d, n, m, e, workflow_keywords) refl
        | inr e ↦ rw (d, n, m, e, workflow_keywords) refl
      ]
  workflow_keywords_refused id args ctx b ((j, u) ∷ kwargs) others k v w (inl (e, (s, f)), h) d n
        m =
      let (c, t) = calls.with_workflow_domain ctx s w in
      rw (f, e, workflow_keywords)
        (workflow_keywords_refused id args c b kwargs others k v t h d n m)
  workflow_keywords_refused id args ctx b ((j, u) ∷ kwargs) others k v w (inr (inl (e, (s, f))), h)
        d n m =
      rw (f, e, workflow_keywords)
        (workflow_keywords_refused id args (calls.with_workflow_task_list ctx s) b kwargs others k v
          w h d n m)
  workflow_keywords_refused id args ctx b ((j, u) ∷ kwargs) others k v w (inr (inr (e, (c, f))), h)
        d n m =
      rw (f, e, workflow_keywords)
        (workflow_keywords_refused id args ctx c kwargs others k v w h d n m)

  -- A keyword that neither call supports, behind keywords that `execute_activity` supports, is an
  -- error of both: nothing is executed by `execute_activity`, and the error is `unimplemented` for
  -- `headers` and names the key otherwise.
  pub keywords_refused :
      (id : Text) (args : List Value) (ctx : Ctx) (kwargs others : Keywords) (k : Text) (v : Value)
      (w : World)
      → All IsActivityOption kwargs
      → (k == text "domain") ≡ false
      → (k == text "task_list") ≡ false
      → (k == text "as_bytes") ≡ false
      → (execute_activity_call calls ctx (string id ∷ args) (kwargs ++ (k, v) ∷ others) w
          ≡ (returned (err (refusal k)), w))
        × ((execute_workflow_call calls ctx (string id ∷ args) (kwargs ++ (k, v) ∷ others) w).0
            ≡ returned (err (refusal k)))
  unfolding execute_activity_call execute_workflow_call
  keywords_refused id args ctx kwargs others k v w h d n m = (
    activity_keywords_refused id args ctx false kwargs others k v w h n m,
    workflow_keywords_refused id args ctx false kwargs others k v w
        (All-map_of IsActivityOption kwargs (λ kv o. inr o) h) d n m,
  )
