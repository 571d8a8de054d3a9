-- ===== src/Internal/Options/Cadence.antt =====
-- The options of internal/internal_cadence.go. The records stand for the struct literals of the
-- code: the fields of the Cadence client's types that the code writes or reads.
use starlark_worker.Prelude.{ℕ, ℤ, Bool, Option, none, some, List, [], Text}
use starlark_worker.Star.Values.{Value}
use starlark_worker.Internal.Types.{
  RetryPolicy, ActivityOptions, ChildWorkflowOptions, ActivityInfo,
}

pub record CadRetryPolicy : Type 0 where
  pub initial_interval : ℤ
  pub backoff_coefficient : ℕ
  pub maximum_interval : ℤ
  pub expiration_interval : ℤ
  pub maximum_attempts : ℤ
  pub non_retriable_error_reasons : List Text

pub record CadActivityOptions : Type 0 where
  pub task_list : Text
  pub schedule_to_close_timeout : ℤ
  pub schedule_to_start_timeout : ℤ
  pub start_to_close_timeout : ℤ
  pub heartbeat_timeout : ℤ
  pub wait_for_cancellation : Bool
  pub activity_id : Text
  pub retry_policy : Option CadRetryPolicy

pub record CadChildWorkflowOptions : Type 0 where
  pub domain : Text
  pub workflow_id : Text
  pub task_list : Text
  pub execution_start_to_close_timeout : ℤ
  pub task_start_to_close_timeout : ℤ
  pub wait_for_cancellation : Bool
  pub retry_policy : Option CadRetryPolicy
  pub cron_schedule : Text
  pub memo : Option (List (Text × Value))
  pub search_attributes : Option (List (Text × Value))

pub record CadActivityInfo : Type 0 where
  pub task_token : Text
  pub workflow_type : Option Text
  pub workflow_domain : Text
  pub execution_id : Text
  pub execution_run_id : Text
  pub activity_id : Text
  pub activity_type : Text
  pub task_list : Text
  pub heartbeat_timeout : ℤ
  pub scheduled_timestamp : ℤ
  pub started_timestamp : ℤ
  pub deadline : ℤ
  pub attempt : ℤ

-- The calls of the Cadence client that take the options.
pub record CadSdk (Ctx : Type 0) : Type 0 where
  pub with_activity_options : Ctx → CadActivityOptions → Ctx
  pub with_child_options : Ctx → CadChildWorkflowOptions → Ctx
  pub with_retry_policy : Ctx → CadRetryPolicy → Ctx

abbrev pub cad_retry_policy : RetryPolicy → CadRetryPolicy
cad_retry_policy p = record {
  initial_interval = p.initial_interval;
  backoff_coefficient = p.backoff_coefficient;
  maximum_interval = p.maximum_interval;
  expiration_interval = p.expiration_interval;
  maximum_attempts = p.maximum_attempts;
  non_retriable_error_reasons = p.non_retriable_error_reasons;
}

-- `if options.RetryPolicy != nil`
abbrev pub cad_retry : Option RetryPolicy → Option CadRetryPolicy
cad_retry none = none
cad_retry (some p) = some (cad_retry_policy p)

unfoldable pub cad_activity_options : ActivityOptions → CadActivityOptions
cad_activity_options o = record {
  task_list = o.task_list;
  schedule_to_close_timeout = o.schedule_to_close_timeout;
  schedule_to_start_timeout = o.schedule_to_start_timeout;
  start_to_close_timeout = o.start_to_close_timeout;
  heartbeat_timeout = o.heartbeat_timeout;
  wait_for_cancellation = o.wait_for_cancellation;
  activity_id = o.activity_id;
  retry_policy = cad_retry o.retry_policy;
}

unfoldable pub cad_child_options : ChildWorkflowOptions → CadChildWorkflowOptions
cad_child_options o = record {
  domain = o.domain;
  workflow_id = o.workflow_id;
  task_list = o.task_list;
  execution_start_to_close_timeout = o.execution_start_to_close_timeout;
  task_start_to_close_timeout = o.task_start_to_close_timeout;
  wait_for_cancellation = o.wait_for_cancellation;
  cron_schedule = o.cron_schedule;
  memo = o.memo;
  search_attributes = o.search_attributes;
  retry_policy = cad_retry o.retry_policy;
}

-- CadenceWorkflow.GetActivityInfo, from what the client's GetInfo returns.
unfoldable pub cad_get_activity_info : CadActivityInfo → ActivityInfo
cad_get_activity_info i = record {
  task_token = i.task_token;
  workflow_domain = i.workflow_domain;
  workflow_execution = record { id = i.execution_id; run_id = i.execution_run_id };
  activity_id = i.activity_id;
  activity_type = record { name = i.activity_type; path = [] };
  task_list = i.task_list;
  heartbeat_timeout = i.heartbeat_timeout;
  scheduled_timestamp = i.scheduled_timestamp;
  started_timestamp = i.started_timestamp;
  deadline = i.deadline;
  attempt = i.attempt;
  workflow_type = elim i.workflow_type [
    | none ↦ none
    | some n ↦ some (record { name = n; path = [] })
  ];
}

module _ {Ctx : Type 0} (sdk : CadSdk Ctx) where
  -- CadenceWorkflow.WithActivityOptions
  unfoldable pub cad_with_activity_options : Ctx → ActivityOptions → Ctx
  unfolding cad_activity_options
  cad_with_activity_options ctx o = sdk.with_activity_options ctx (cad_activity_options o)

  -- CadenceWorkflow.WithChildOptions
  unfoldable pub cad_with_child_options : Ctx → ChildWorkflowOptions → Ctx
  unfolding cad_child_options
  cad_with_child_options ctx o = sdk.with_child_options ctx (cad_child_options o)

  -- CadenceWorkflow.WithRetryPolicy
  unfoldable pub cad_with_retry_policy : Ctx → RetryPolicy → Ctx
  cad_with_retry_policy ctx p = sdk.with_retry_policy ctx (cad_retry_policy p)
