-- ===== src/Internal/Types.antt =====
-- internal/types.go: the options and activity data that both engines share. A duration is its
-- nanoseconds, a float its 64-bit pattern, a time an instant in nanoseconds; a nil pointer or map is
-- `none`.
use starlark_worker.Prelude.{ℕ, ℤ, Bool, Option, List, Text}
use starlark_worker.Star.Values.{Value}

pub record RetryPolicy : Type 0 where
  pub initial_interval : ℤ
  pub backoff_coefficient : ℕ
  pub maximum_interval : ℤ
  pub expiration_interval : ℤ
  pub maximum_attempts : ℤ
  pub non_retriable_error_reasons : List Text

pub record ActivityOptions : Type 0 where
  pub task_list : Text
  pub schedule_to_close_timeout : ℤ
  pub schedule_to_start_timeout : ℤ
  pub start_to_close_timeout : ℤ
  pub heartbeat_timeout : ℤ
  pub wait_for_cancellation : Bool
  pub activity_id : Text
  pub retry_policy : Option RetryPolicy
  pub disable_eager_execution : Bool
  pub versioning_intent : ℤ
  pub summary : Text

-- The values of the maps are Go values, here those that the code tells apart.
pub record ChildWorkflowOptions : Type 0 where
  pub domain : Text
  pub workflow_id : Text
  pub task_list : Text
  pub execution_start_to_close_timeout : ℤ
  pub task_start_to_close_timeout : ℤ
  pub wait_for_cancellation : Bool
  pub workflow_id_reuse_policy : ℤ
  pub retry_policy : Option RetryPolicy
  pub cron_schedule : Text
  pub memo : Option (List (Text × Value))
  pub search_attributes : Option (List (Text × Value))
  pub parent_close_policy : ℤ

pub record WorkflowType : Type 0 where
  pub name : Text
  pub path : Text

pub record ActivityType : Type 0 where
  pub name : Text
  pub path : Text

pub record WorkflowExecution : Type 0 where
  pub id : Text
  pub run_id : Text

pub record ActivityInfo : Type 0 where
  pub task_token : Text
  pub workflow_type : Option WorkflowType
  pub workflow_domain : Text
  pub workflow_execution : WorkflowExecution
  pub activity_id : Text
  pub activity_type : ActivityType
  pub task_list : Text
  pub heartbeat_timeout : ℤ
  pub scheduled_timestamp : ℤ
  pub started_timestamp : ℤ
  pub deadline : ℤ
  pub attempt : ℤ
