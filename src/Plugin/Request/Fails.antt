-- ===== src/Plugin/Request/Fails.antt =====
-- How DoJSON of plugin/request/activities.go fails.
use starlark_worker.Prelude.{
  ◌≡◌, ◌⊎◌, inl, inr, sym, ap, ◌∙◌, true, false, [], Text, text, ◌==◌, nat_eq, list_eq, int_eq,
  Result, ok, err, Result-cases, Option-cases, Bool-cases, contains, itoa,
}
use starlark_worker.Star.Values.{Value}
use starlark_worker.Ext.JsonPath.{jp}
use starlark_worker.Service.Lifecycle.{Attempt, returned}
use starlark_worker.Plugin.Request.{
  Assert, JsonRequest, Failure, failure, error_text, bad_status, not_json, response, Response,
  Client, code_invalid_argument, code_unknown, as_any, find_value, check_path, expected_codes,
  build_request, read_response, do_json,
}
use starlark_worker.Plugin.Request.Checks.{
  Attempt-cases, Sent-cases, pair_injective, Passes, check_path_back,
}

returned_err :
    {E A : Type 0} {a b : E}
    → Path (Attempt (Result E A)) (returned (err a)) (returned (err b))
    → a ≡ b
returned_err h = cc

module _ {Req World : Type 0} (client : Client Req World) where
  open client use {send, decode, float_eq}

  -- A response is refused: the status is not expected; the body is no JSON; or its value fails the
  -- test.
  abbrev pub Rejected : Assert → Response → Failure → Type 0
  Rejected a res f =
      ((contains (res.status_code) (expected_codes a) ≡ false)
        × (f ≡ failure (itoa res.status_code) (bad_status (expected_codes a) res.status_code)))
      ⊎ ((contains (res.status_code) (expected_codes a) ≡ true)
          × (((e : Text) × (decode res.body ≡ err e) × (f ≡ failure (text "400") (not_json e)))
              ⊎ ((v : Value) × (decode res.body ≡ ok v)
                  × ¬ Passes client a v
                  × (f ≡ failure (text "412") (response v)))))

  -- The request cannot be made, and none is sent; the client gets no response; or the response is
  -- refused.
  abbrev pub Refused : JsonRequest → World → Failure → World → Type 0
  Refused r w f after =
      ((e : Text) × (build_request client r ≡ err e)
        × (after ≡ w)
        × (f ≡ failure code_invalid_argument (error_text e)))
      ⊎ ((req : Req) × (build_request client r ≡ ok req)
          × (((e : Text) × (send req w ≡ (err e, after))
                × (f ≡ failure code_unknown (error_text e)))
              ⊎ ((res : Response) × (send req w ≡ (ok res, after)) × Rejected r.checks res f)))

  not_passed :
      (a : Assert) (v : Value) (f : Failure)
      → check_path float_eq a v ≡ returned (err f)
      → ¬ Passes client a v
  not_passed a v f h p = let z = check_path_back client a v p in cc

  check_path-err :
      (a : Assert) (v : Value) (f : Failure)
      → check_path float_eq a v ≡ returned (err f)
      → f ≡ failure (text "412") (response v)
  unfolding check_path
  check_path-err a v f h = elim (Bool-cases (a.path == [])) [
    | inl e ↦ absurd (let z = rw (e, check_path) at h in cc)
    | inr e ↦ elim (Result-cases (jp as_any v a.path)) [
      | inl (x, i) ↦ sym (returned_err (rw (e, i, check_path) at h))
      | inr (x, i) ↦ elim (Option-cases (a.value)) [
        | inl g ↦ absurd (let z = rw (e, i, g, check_path) at h in cc)
        | inr (vs, g) ↦ elim (Attempt-cases (find_value float_eq x vs)) [
          | inl (p, k) ↦ absurd (let z = rw (e, i, g, k, check_path) at h in cc)
          | inr (inl k) ↦ absurd (let z = rw (e, i, g, k, check_path) at h in cc)
          | inr (inr k) ↦ sym (returned_err (rw (e, i, g, k, check_path) at h))
        ]
      ]
    ]
  ]

  read_response-err :
      (a : Assert) (res : Response) (f : Failure)
      → read_response client a res ≡ returned (err f)
      → Rejected a res f
  unfolding read_response
  read_response-err a res f h = elim (Bool-cases (contains (res.status_code) (expected_codes a))) [
    | inr e ↦ inl (e, sym (returned_err (rw (e, read_response) at h)))
    | inl e ↦ elim (Result-cases (decode res.body)) [
      | inl (x, i) ↦ inr (e, inl (x, i, sym (returned_err (rw (e, i, read_response) at h))))
      | inr (v, i) ↦
          let c = rw (e, i, read_response) at h in
          inr (e, inr (v, i, not_passed a v f c, check_path-err a v f c))
    ]
  ]

  -- An error of DoJSON says how far the call came: `invalid-argument`, the request cannot be made and
  -- nothing is sent; `unknown`, the client got no response; the status code, if it is not one of
  -- those expected; `400`, the body is no JSON; `412`, the value does not pass the test of its path.
  pub do_json-eq_err :
      (r : JsonRequest) (w after : World) (f : Failure)
      → do_json client r w ≡ (returned (err f), after)
      → Refused r w f after
  unfolding do_json
  do_json-eq_err r w after f h = elim (Result-cases (build_request client r)) [
    | inl (e, b) ↦
        let (read, same) = pair_injective (rw (b, do_json) at h) in
        inl (e, b, sym same, sym (returned_err read))
    | inr (req, b) ↦ elim (Sent-cases (send req w)) [
      | inl (e, u, s) ↦
          let (read, same) = pair_injective (rw (b, s, do_json) at h) in
          inr (req, b, inl (e, s ∙ ap (λ t. (err e, t)) same, sym (returned_err read)))
      | inr (res, u, s) ↦
          let (read, same) = pair_injective (rw (b, s, do_json) at h) in
          inr (
            req,
            b,
            inr (res, s ∙ ap (λ t. (ok res, t)) same, read_response-err r.checks res f read),
          )
    ]
  ]
