-- ===== src/Internal/Options/Agree.antt =====
-- What of the shared options reaches each engine.
use starlark_worker.Prelude.{
  ℕ, zero, suc, ℤ, pos, negsuc, ◌≡◌, Bool-cases, inl, inr, Result, ◌↔◌, sym, ◌∙◌, refl, Bool, true,
  false, Option, none, some, List, [], ◌∷◌, Text, ok, err, arith, ◌<◌,
}
use starlark_worker.Star.Values.{Value, string}
use starlark_worker.Internal.Types.{RetryPolicy, ActivityOptions, ChildWorkflowOptions}
use starlark_worker.Internal.Options.Cadence.{
  CadRetryPolicy, CadActivityOptions, CadChildWorkflowOptions, cad_retry, cad_activity_options,
  cad_child_options,
}
use starlark_worker.Internal.Options.Temporal.{
  TypeAssertion, TempRetryPolicy, TempActivityOptions, TempSdk, temp_retry, temp_versioning_intent,
  temp_activity_options, convert_cadence_to_temporal_reuse_policy, reuse_policy, not_string,
  upsert_all, temp_child_options, temp_with_child_options,
}

-- What a Cadence retry policy says in the shared words.
abbrev pub of_cad_retry : Option CadRetryPolicy → Option RetryPolicy
of_cad_retry none = none
of_cad_retry (some p) = some (record {
  initial_interval = p.initial_interval;
  backoff_coefficient = p.backoff_coefficient;
  maximum_interval = p.maximum_interval;
  expiration_interval = p.expiration_interval;
  maximum_attempts = p.maximum_attempts;
  non_retriable_error_reasons = p.non_retriable_error_reasons;
})

-- What Cadence options say in the shared words; fields that Cadence does not have are zero.
abbrev pub of_cad : CadActivityOptions → ActivityOptions
of_cad o = record {
  task_list = o.task_list;
  schedule_to_close_timeout = o.schedule_to_close_timeout;
  schedule_to_start_timeout = o.schedule_to_start_timeout;
  start_to_close_timeout = o.start_to_close_timeout;
  heartbeat_timeout = o.heartbeat_timeout;
  wait_for_cancellation = o.wait_for_cancellation;
  activity_id = o.activity_id;
  retry_policy = of_cad_retry o.retry_policy;
  disable_eager_execution = false;
  versioning_intent = pos 0;
  summary = [];
}

-- A Temporal retry policy has no expiration interval.
abbrev pub of_temp_retry : Option TempRetryPolicy → Option RetryPolicy
of_temp_retry none = none
of_temp_retry (some p) = some (record {
  initial_interval = p.initial_interval;
  backoff_coefficient = p.backoff_coefficient;
  maximum_interval = p.maximum_interval;
  expiration_interval = pos 0;
  maximum_attempts = p.maximum_attempts;
  non_retriable_error_reasons = p.non_retryable_error_types;
})

abbrev pub of_temp : TempActivityOptions → ActivityOptions
of_temp o = record {
  task_list = o.task_queue;
  schedule_to_close_timeout = o.schedule_to_close_timeout;
  schedule_to_start_timeout = o.schedule_to_start_timeout;
  start_to_close_timeout = o.start_to_close_timeout;
  heartbeat_timeout = o.heartbeat_timeout;
  wait_for_cancellation = o.wait_for_cancellation;
  activity_id = o.activity_id;
  retry_policy = of_temp_retry o.retry_policy;
  disable_eager_execution = o.disable_eager_execution;
  versioning_intent = o.versioning_intent;
  summary = o.summary;
}

abbrev pub no_expiration : Option RetryPolicy → Option RetryPolicy
no_expiration none = none
no_expiration (some p) = some (record p { expiration_interval = pos 0 })

of_cad_retry-cad_retry : (r : Option RetryPolicy) → of_cad_retry (cad_retry r) ≡ r
of_cad_retry-cad_retry none = refl
of_cad_retry-cad_retry (some p) = refl

of_temp_retry-temp_retry : (r : Option RetryPolicy) → of_temp_retry (temp_retry r) ≡ no_expiration r
of_temp_retry-temp_retry none = refl
of_temp_retry-temp_retry (some p) = refl

temp_versioning_intent_lem : (v : ℤ) → temp_versioning_intent v ≡ v
temp_versioning_intent_lem (pos zero) = refl
temp_versioning_intent_lem (pos (suc n)) = refl
temp_versioning_intent_lem (negsuc n) = refl

-- Of the activity options, Cadence loses the eager execution, the versioning intent and the
-- summary, and Temporal the expiration interval of the retry policy; nothing else is lost or
-- changed.
pub activity_options_kept :
    (o : ActivityOptions)
    → (of_cad (cad_activity_options o)
        ≡ record o { disable_eager_execution = false; versioning_intent = pos 0; summary = [] })
      × (of_temp (temp_activity_options o)
          ≡ record o { retry_policy = no_expiration o.retry_policy })
unfolding cad_activity_options temp_activity_options
activity_options_kept o = (
  rw (of_cad_retry-cad_retry o.retry_policy),
  rw (of_temp_retry-temp_retry o.retry_policy, temp_versioning_intent_lem o.versioning_intent),
)

abbrev pub of_cad_child : CadChildWorkflowOptions → ChildWorkflowOptions
of_cad_child o = record {
  domain = o.domain;
  workflow_id = o.workflow_id;
  task_list = o.task_list;
  execution_start_to_close_timeout = o.execution_start_to_close_timeout;
  task_start_to_close_timeout = o.task_start_to_close_timeout;
  wait_for_cancellation = o.wait_for_cancellation;
  workflow_id_reuse_policy = pos 0;
  retry_policy = of_cad_retry o.retry_policy;
  cron_schedule = o.cron_schedule;
  memo = o.memo;
  search_attributes = o.search_attributes;
  parent_close_policy = pos 0;
}

-- Of the child workflow options, Cadence loses the reuse policy of the workflow id and the parent
-- close policy; nothing else is lost or changed.
pub child_options_kept :
    (o : ChildWorkflowOptions)
    → of_cad_child (cad_child_options o)
      ≡ record o { workflow_id_reuse_policy = pos 0; parent_close_policy = pos 0 }
unfolding cad_child_options
child_options_kept o = rw (of_cad_retry-cad_retry o.retry_policy)

-- Every attribute is a string.
abbrev pub all_strings : List (Text × Value) → Bool
all_strings [] = true
all_strings ((k, string s) ∷ rest) = all_strings rest
all_strings ((k, v) ∷ rest) = false

module _ {Ctx W A : Type 0} (sdk : TempSdk Ctx W A) where
  -- If the SDK knows the policies 0 to 3, its test changes nothing: Temporal gets the policy that
  -- the conversion gives, for any number.
  pub reuse_policy-convert :
      ((n : ℕ) → n < 4 → sdk.is_policy (pos n) ≡ true)
      → (v : ℤ) → reuse_policy sdk v ≡ convert_cadence_to_temporal_reuse_policy v
  unfolding reuse_policy convert_cadence_to_temporal_reuse_policy
  reuse_policy-convert h (pos zero) = rw (h 0 (omega arith))
  reuse_policy-convert h (pos (suc zero)) = rw (h 1 (omega arith))
  reuse_policy-convert h (pos (suc (suc zero))) = rw (h 2 (omega arith))
  reuse_policy-convert h (pos (suc (suc (suc zero)))) = rw (h 3 (omega arith))
  reuse_policy-convert h (pos (suc (suc (suc (suc n))))) = ground arith
  reuse_policy-convert h (negsuc n) = ground arith

  upsert_all-strings :
      (attrs : List (Text × Value)) (w : W)
      → all_strings attrs ≡ true
      → (v : W) × (upsert_all sdk attrs w ≡ ok v)
  unfolding upsert_all
  upsert_all-strings [] w h = (w, refl)
  upsert_all-strings ((k, string s) ∷ rest) w h =
      upsert_all-strings rest (sdk.upsert_string k s w) h
  upsert_all-strings ((k, _) ∷ rest) w h = cc

  upsert_all-other :
      (attrs : List (Text × Value)) (w : W)
      → all_strings attrs ≡ false
      → (k : Text) × (upsert_all sdk attrs w ≡ err (not_string k))
  unfolding upsert_all
  upsert_all-other [] w h = cc
  upsert_all-other ((k, string s) ∷ rest) w h = upsert_all-other rest (sdk.upsert_string k s w) h
  upsert_all-other ((k, _) ∷ rest) w h = (k, refl)

  -- Over Temporal, child options with search attributes are taken exactly if all of these are
  -- strings; otherwise the call is a panic.
  pub temp_with_child_options_attributes :
      (ctx : Ctx) (o : ChildWorkflowOptions) (attrs : List (Text × Value)) (w : W)
      → o.search_attributes ≡ some attrs
      → ((r : Ctx × W) × (temp_with_child_options sdk ctx o w ≡ ok r)) ↔ (all_strings attrs ≡ true)
  unfolding temp_with_child_options
  temp_with_child_options_attributes ctx o attrs w e = (
    λ (r, taken). elim (Bool-cases (all_strings attrs)) [
      | inl h ↦ h
      | inr h ↦
          let (k, u) = upsert_all-other attrs w h in
          let panic : temp_with_child_options sdk ctx o w ≡ err (not_string k) = rw (e, u) refl in
          absurd (err-ok (sym panic ∙ taken))
    ],
    λ h.
        let (v, u) = upsert_all-strings attrs w h in
        (
          (
            sdk.with_child_options ctx
                (temp_child_options sdk o (sdk.get_typed_search_attributes v)),
            v,
          ),
          rw (e, u) refl,
        ),
  )
    where
      err-ok :
          {k : TypeAssertion} {r : Ctx × W}
          → Path (Result TypeAssertion (Ctx × W)) (err k) (ok r)
          → ⊥
      err-ok h = cc
