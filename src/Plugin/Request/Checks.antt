-- ===== src/Plugin/Request/Checks.antt =====
-- When DoJSON of plugin/request/activities.go succeeds, and how it fails.
use starlark_worker.Prelude.{
  ◌≡◌, ◌⊎◌, ◌↔◌, inl, inr, refl, sym, ap, ◌∙◌, Bool, true, false, none, some, List, [], ◌∷◌, ◌++◌,
  Text, ◌==◌, nat_eq, list_eq, int_eq, Result, ok, err, Result-cases, Option-cases, Bool-cases,
  contains, All, list_beq, list_beq_iff,
}
use starlark_worker.Star.Values.{Value}
use starlark_worker.Ext.JsonPath.{jp}
use starlark_worker.Service.Lifecycle.{Attempt, returned, panicked}
use starlark_worker.Plugin.Request.{
  Assert, JsonRequest, Response, Client, any_equal, as_any, find_value, check_path, expected_codes,
  build_request, read_response, do_json,
}

pub Attempt-cases :
    (a : Attempt Bool)
    → ((p : Text) × (a ≡ panicked p)) ⊎ (a ≡ returned true) ⊎ (a ≡ returned false)
Attempt-cases (panicked p) = inl (p, refl)
Attempt-cases (returned true) = inr (inl refl)
Attempt-cases (returned false) = inr (inr refl)

returned_ok :
    {E A : Type 0} {a b : A}
    → Path (Attempt (Result E A)) (returned (ok a)) (returned (ok b))
    → a ≡ b
returned_ok h = cc

pub Sent-cases :
    {World : Type 0} (p : Result Text Response × World)
    → ((e : Text) × (w : World) × (p ≡ (err e, w)))
      ⊎ ((res : Response) × (w : World) × (p ≡ (ok res, w)))
Sent-cases (err e, w) = inl (e, w, refl)
Sent-cases (ok res, w) = inr (res, w, refl)

pub pair_injective :
    {A B : Type 0} {a c : A} {b d : B} → Path (A × B) (a, b) (c, d) → (a ≡ c) × (b ≡ d)
pair_injective h = (ap (λ p. p.0) h, ap (λ p. p.1) h)

module _ {Req World : Type 0} (client : Client Req World) where
  open client use {send, decode, float_eq}

  -- One of the values is the value `x`, and those before it can be compared with it.
  abbrev pub Matches : Value → List Value → Type 0
  Matches x vs =
      (before : List Value) × (v : Value) × (after : List Value) × (vs ≡ before ++ v ∷ after)
      × All (λ u. any_equal float_eq u x ≡ returned false) before
      × (any_equal float_eq v x ≡ returned true)

  find_value_forth :
      (x : Value) (vs : List Value) → find_value float_eq x vs ≡ returned true → Matches x vs
  unfolding find_value
  find_value_forth x [] h = absurd (cc)
  find_value_forth x (v ∷ vs) h = elim (Attempt-cases (any_equal float_eq v x)) [
    | inl (p, e) ↦ absurd (let z = rw (e, find_value) at h in cc)
    | inr (inl e) ↦ ([], v, vs, refl, tt, e)
    | inr (inr e) ↦
        let (before, u, after, f, all, m) = find_value_forth x vs (rw (e, find_value) at h) in
        (v ∷ before, u, after, ap (λ l. v ∷ l) f, (e, all), m)
  ]

  find_value_back :
      (x v : Value) (before after : List Value)
      → All (λ u. any_equal float_eq u x ≡ returned false) before
      → any_equal float_eq v x ≡ returned true
      → find_value float_eq x (before ++ v ∷ after) ≡ returned true
  unfolding find_value
  find_value_back x v [] after all m = rw m refl
  find_value_back x v (u ∷ before) after (e, all) m = rw e (find_value_back x v before after all m)

  -- The response passes the test of its path: the path is empty, or it leads to a value other than
  -- null, and that is among the values, if any are given.
  abbrev pub Passes : Assert → Value → Type 0
  Passes a res =
      (a.path ≡ [])
      ⊎ ((x : Value) × (jp as_any res a.path ≡ ok x)
          × ((a.value ≡ none) ⊎ ((vs : List Value) × (a.value ≡ some vs) × Matches x vs)))

  -- The request can be made, the server answers it with an expected code, and the answer is a JSON
  -- value that passes the test.
  abbrev pub Accepted : JsonRequest → World → Value → World → Type 0
  Accepted r w v after =
      (req : Req) × (res : Response) × (build_request client r ≡ ok req)
      × (send req w ≡ (ok res, after))
      × (contains (res.status_code) (expected_codes r.checks) ≡ true)
      × (decode res.body ≡ ok v)
      × Passes r.checks v

  check_path_forth :
      (a : Assert) (v u : Value) → check_path float_eq a v ≡ returned (ok u) → (v ≡ u) × Passes a v
  unfolding check_path
  check_path_forth a v u h = elim (Bool-cases (a.path == [])) [
    | inl e ↦ (returned_ok (rw (e, check_path) at h), inl ((list_beq_iff nat_eq a.path []).0 e))
    | inr e ↦ elim (Result-cases (jp as_any v a.path)) [
      | inl (x, f) ↦ absurd (let z = rw (e, f, check_path) at h in cc)
      | inr (x, f) ↦ elim (Option-cases (a.value)) [
        | inl g ↦ (returned_ok (rw (e, f, g, check_path) at h), inr (x, f, inl g))
        | inr (vs, g) ↦ elim (Attempt-cases (find_value float_eq x vs)) [
          | inl (p, k) ↦ absurd (let z = rw (e, f, g, k, check_path) at h in cc)
          | inr (inl k) ↦
              let m = find_value_forth x vs k in
              (returned_ok (rw (e, f, g, k, check_path) at h), inr (x, f, inr (vs, g, m)))
          | inr (inr k) ↦ absurd (let z = rw (e, f, g, k, check_path) at h in cc)
        ]
      ]
    ]
  ]

  pub check_path_back :
      (a : Assert) (v : Value) → Passes a v → check_path float_eq a v ≡ returned (ok v)
  unfolding check_path list_beq
  check_path_back a v (inl e) = rw e refl
  check_path_back a v (inr (x, f, inl g)) = elim (Bool-cases (a.path == [])) [
    | inl e ↦ rw (e, check_path) refl
    | inr e ↦ rw (e, f, g, check_path) refl
  ]
  check_path_back a v (inr (x, f, inr (vs, g, (before, u, after, k, all, m)))) =
      elim (Bool-cases (a.path == [])) [
        | inl e ↦ rw (e, check_path) refl
        | inr e ↦ rw (e, f, g, k, find_value_back x u before after all m, check_path) refl
      ]

  read_response_forth :
      (a : Assert) (res : Response) (u : Value)
      → read_response client a res ≡ returned (ok u)
      → (contains (res.status_code) (expected_codes a) ≡ true)
        × (decode res.body ≡ ok u)
        × Passes a u
  unfolding read_response
  read_response_forth a res u h =
      elim (Bool-cases (contains (res.status_code) (expected_codes a))) [
        | inr e ↦ absurd (let z = rw (e, read_response) at h in cc)
        | inl e ↦ elim (Result-cases (decode res.body)) [
          | inl (x, f) ↦ absurd (let z = rw (e, f, read_response) at h in cc)
          | inr (v, f) ↦
              let (same, passes) = check_path_forth a v u (rw (e, f, read_response) at h) in
              (e, f ∙ ap ok same, rw (sym same) passes)
        ]
      ]

  do_json_forth :
      (r : JsonRequest) (w after : World) (v : Value)
      → do_json client r w ≡ (returned (ok v), after)
      → Accepted r w v after
  unfolding do_json
  do_json_forth r w after v h = elim (Result-cases (build_request client r)) [
    | inl (e, b) ↦ absurd (let z = rw (b, do_json) at h in cc)
    | inr (req, b) ↦ elim (Sent-cases (send req w)) [
      | inl (e, u, s) ↦ absurd (let z = rw (b, s, do_json) at h in cc)
      | inr (res, u, s) ↦
          let (read, same) = pair_injective (rw (b, s, do_json) at h) in
          let (c, d, p) = read_response_forth r.checks res v read in
          (req, res, b, s ∙ ap (λ t. (ok res, t)) same, c, d, p)
    ]
  ]

  do_json_back :
      (r : JsonRequest) (w after : World) (v : Value)
      → Accepted r w v after
      → do_json client r w ≡ (returned (ok v), after)
  unfolding do_json read_response
  do_json_back r w after v (req, res, b, s, c, d, p) =
      rw (b, s, c, d, check_path_back r.checks v p, do_json, read_response) refl

  -- DoJSON gives a value exactly if the request can be made, the server answers it with one of the
  -- expected status codes, and the answer is a JSON value that passes the test of its path; it gives
  -- that value.
  pub do_json-eq_ok :
      (r : JsonRequest) (w after : World) (v : Value)
      → (do_json client r w ≡ (returned (ok v), after)) ↔ Accepted r w v after
  do_json-eq_ok r w after v = (do_json_forth r w after v, do_json_back r w after v)
