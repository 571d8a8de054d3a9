-- ===== src/Internal/Options/Temporal.antt =====
-- The options of internal/internal_temporal.go. The records stand for the struct literals of the
-- code: the fields of the Temporal SDK's types that the code writes or reads.
use starlark_worker.Prelude.{
  ℕ, zero, suc, ℤ, pos, Bool, false, Option, none, some, List, [], ◌∷◌, Text, text, Result, ok, err,
  ◌>>=◌, if◌then◌else◌, lookup, list_eq, nat_eq,
}
use starlark_worker.Star.Values.{Value, string}
use starlark_worker.Internal.Types.{
  RetryPolicy, ActivityOptions, ChildWorkflowOptions, ActivityInfo,
}

pub record TempRetryPolicy : Type 0 where
  pub initial_interval : ℤ
  pub backoff_coefficient : ℕ
  pub maximum_interval : ℤ
  pub maximum_attempts : ℤ
  pub non_retryable_error_types : List Text

pub record TempActivityOptions : Type 0 where
  pub task_queue : Text
  pub schedule_to_close_timeout : ℤ
  pub schedule_to_start_timeout : ℤ
  pub start_to_close_timeout : ℤ
  pub heartbeat_timeout : ℤ
  pub wait_for_cancellation : Bool
  pub activity_id : Text
  pub disable_eager_execution : Bool
  pub summary : Text
  pub retry_policy : Option TempRetryPolicy
  pub versioning_intent : ℤ

-- enumspb.WorkflowIdReusePolicy
pub data ReusePolicy : Type 0 where
  unspecified allow_duplicate allow_duplicate_failed_only reject_duplicate terminate_if_running :
      ReusePolicy

-- `A` is the SDK's set of typed search attributes. ParentClosePolicy and VersioningIntent are
-- constants in the code.
pub record TempChildWorkflowOptions (A : Type 0) : Type 0 where
  pub namespace : Text
  pub workflow_id : Text
  pub task_queue : Text
  pub workflow_execution_timeout : ℤ
  pub workflow_task_timeout : ℤ
  pub wait_for_cancellation : Bool
  pub retry_policy : Option TempRetryPolicy
  pub cron_schedule : Text
  pub memo : Option (List (Text × Value))
  pub typed_search_attributes : A
  pub workflow_id_reuse_policy : ReusePolicy

pub record TempActivityInfo : Type 0 where
  pub task_token : Text
  pub workflow_type : Option Text
  pub workflow_namespace : Text
  pub execution_id : Text
  pub execution_run_id : Text
  pub activity_id : Text
  pub activity_type : Text
  pub task_queue : Text
  pub heartbeat_timeout : ℤ
  pub scheduled_time : ℤ
  pub started_time : ℤ
  pub deadline : ℤ
  pub attempt : ℤ

-- The calls of the Temporal SDK that take the options. `W` is the state of the running workflow,
-- where the search attributes are; `is_policy` is the test for a key of WorkflowIdReusePolicy_name.
pub record TempSdk (Ctx W A : Type 0) : Type 0 where
  pub with_activity_options : Ctx → TempActivityOptions → Ctx
  pub with_child_options : Ctx → TempChildWorkflowOptions A → Ctx
  pub with_retry_policy : Ctx → TempRetryPolicy → Ctx
  pub upsert_string : Text → Text → W → W
  pub get_typed_search_attributes : W → A
  pub is_policy : ℤ → Bool

abbrev pub temp_retry_policy : RetryPolicy → TempRetryPolicy
temp_retry_policy p = record {
  initial_interval = p.initial_interval;
  backoff_coefficient = p.backoff_coefficient;
  maximum_interval = p.maximum_interval;
  maximum_attempts = p.maximum_attempts;
  non_retryable_error_types = p.non_retriable_error_reasons;
}

abbrev pub temp_retry : Option RetryPolicy → Option TempRetryPolicy
temp_retry none = none
temp_retry (some p) = some (temp_retry_policy p)

-- temporal.VersioningIntent(options.VersioningIntent), if that is not 0, and else the field's 0.
abbrev pub temp_versioning_intent : ℤ → ℤ
temp_versioning_intent (pos zero) = pos 0
temp_versioning_intent v = v

unfoldable pub temp_activity_options : ActivityOptions → TempActivityOptions
temp_activity_options o = record {
  task_queue = o.task_list;
  schedule_to_close_timeout = o.schedule_to_close_timeout;
  schedule_to_start_timeout = o.schedule_to_start_timeout;
  start_to_close_timeout = o.start_to_close_timeout;
  heartbeat_timeout = o.heartbeat_timeout;
  wait_for_cancellation = o.wait_for_cancellation;
  activity_id = o.activity_id;
  disable_eager_execution = o.disable_eager_execution;
  summary = o.summary;
  retry_policy = temp_retry o.retry_policy;
  versioning_intent = temp_versioning_intent o.versioning_intent;
}

-- convertCadenceToTemporalReusePolicy
unfoldable pub convert_cadence_to_temporal_reuse_policy : ℤ → ReusePolicy
convert_cadence_to_temporal_reuse_policy (pos zero) = allow_duplicate_failed_only
convert_cadence_to_temporal_reuse_policy (pos (suc zero)) = allow_duplicate
convert_cadence_to_temporal_reuse_policy (pos (suc (suc zero))) = reject_duplicate
convert_cadence_to_temporal_reuse_policy (pos (suc (suc (suc zero)))) = terminate_if_running
convert_cadence_to_temporal_reuse_policy _ = unspecified

-- TemporalWorkflow.GetActivityInfo, from what the SDK's GetInfo returns.
unfoldable pub temp_get_activity_info : TempActivityInfo → ActivityInfo
temp_get_activity_info i = record {
  task_token = i.task_token;
  workflow_domain = i.workflow_namespace;
  workflow_execution = record { id = i.execution_id; run_id = i.execution_run_id };
  activity_id = i.activity_id;
  activity_type = record { name = i.activity_type; path = [] };
  task_list = i.task_queue;
  heartbeat_timeout = i.heartbeat_timeout;
  scheduled_timestamp = i.scheduled_time;
  started_timestamp = i.started_time;
  deadline = i.deadline;
  attempt = i.attempt;
  workflow_type = elim i.workflow_type [
    | none ↦ none
    | some n ↦ some (record { name = n; path = [] })
  ];
}

-- The panic of `v.(string)`, for the attribute of that name.
pub data TypeAssertion : Type 0 where
  not_string : Text → TypeAssertion

module _ {Ctx W A : Type 0} (sdk : TempSdk Ctx W A) where
  -- TemporalWorkflow.WithActivityOptions
  unfoldable pub temp_with_activity_options : Ctx → ActivityOptions → Ctx
  unfolding temp_activity_options
  temp_with_activity_options ctx o = sdk.with_activity_options ctx (temp_activity_options o)

  -- TemporalWorkflow.WithRetryPolicy
  unfoldable pub temp_with_retry_policy : Ctx → RetryPolicy → Ctx
  temp_with_retry_policy ctx p = sdk.with_retry_policy ctx (temp_retry_policy p)

  -- The loop over the search attributes, in the order in which Go's map yields them.
  unfoldable pub upsert_all : List (Text × Value) → W → Result TypeAssertion W
  upsert_all [] w = ok w
  upsert_all ((k, string s) ∷ rest) w = upsert_all rest (sdk.upsert_string k s w)
  upsert_all ((k, v) ∷ rest) w = err (not_string k)

  abbrev pub upsert_attributes : Option (List (Text × Value)) → W → Result TypeAssertion W
  upsert_attributes none w = ok w
  upsert_attributes (some attrs) w = upsert_all attrs w

  unfoldable pub reuse_policy : ℤ → ReusePolicy
  unfolding convert_cadence_to_temporal_reuse_policy
  reuse_policy v =
      if sdk.is_policy v then convert_cadence_to_temporal_reuse_policy v else unspecified

  -- The literal of WithChildOptions
  unfoldable pub temp_child_options : ChildWorkflowOptions → A → TempChildWorkflowOptions A
  unfolding reuse_policy
  temp_child_options o attrs = record {
    namespace = o.domain;
    workflow_id = o.workflow_id;
    task_queue = o.task_list;
    workflow_execution_timeout = o.execution_start_to_close_timeout;
    workflow_task_timeout = o.task_start_to_close_timeout;
    wait_for_cancellation = o.wait_for_cancellation;
    retry_policy = temp_retry o.retry_policy;
    cron_schedule = o.cron_schedule;
    memo = o.memo;
    typed_search_attributes = attrs;
    workflow_id_reuse_policy = reuse_policy o.workflow_id_reuse_policy;
  }

  -- TemporalWorkflow.WithChildOptions, with the workflow's state after it.
  unfoldable pub temp_with_child_options :
      Ctx → ChildWorkflowOptions → W → Result TypeAssertion (Ctx × W)
  unfolding upsert_all temp_child_options
  temp_with_child_options ctx o w = do
    v ← upsert_attributes o.search_attributes w
    ok (sdk.with_child_options ctx (temp_child_options o (sdk.get_typed_search_attributes v)), v)

  -- TemporalWorkflow.WithWorkflowDomain
  unfoldable pub temp_with_workflow_domain : Ctx → Text → W → Result TypeAssertion (Ctx × W)
  unfolding temp_with_child_options
  temp_with_workflow_domain ctx name w =
      temp_with_child_options ctx
        (record {
          domain = name;
          workflow_id = [];
          task_list = [];
          execution_start_to_close_timeout = pos 0;
          task_start_to_close_timeout = pos 0;
          wait_for_cancellation = false;
          workflow_id_reuse_policy = pos 0;
          retry_policy = none;
          cron_schedule = [];
          memo = none;
          search_attributes = none;
          parent_close_policy = pos 0;
        })
        w

-- What the first of the details of NewCustomError can be: a map with its values, or anything else.
abbrev pub message_of : Text → List (Option (List (Text × Value))) → Text
message_of reason [] = reason
message_of reason (none ∷ rest) = reason
message_of reason (some m ∷ rest) = elim (lookup (text "error") m) [
  | some (string s) ↦ s
  | _ ↦ reason
]
