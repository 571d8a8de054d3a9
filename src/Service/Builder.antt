-- ===== src/Service/Builder.antt =====
-- service/defaults.go, and the builder of service/service.go.
use starlark_worker.Prelude.{
  ℕ, ◌*◌, ℤ, pos, false, Option, none, some, List, [], ◌∷◌, Text, text, ◌==◌, nat_eq, list_eq,
  if◌then◌else◌,
}
use starlark_worker.Internal.Types.{RetryPolicy, ActivityOptions, ChildWorkflowOptions}

-- noTimeout: ten years
abbrev pub no_timeout : ℤ
no_timeout = pos (315360000 * 1000000000)

-- DefaultNonRetriableErrorReasons; `codes` are the names of the yarpc codes, in the code's order.
abbrev pub default_non_retriable_error_reasons : List Text → List Text
default_non_retriable_error_reasons codes =
    text "cadenceInternal:Panic"
    ∷ text "cadenceInternal:Generic"
    ∷ text "400"
    ∷ text "401"
    ∷ text "403"
    ∷ text "404"
    ∷ text "405"
    ∷ text "502"
    ∷ codes

-- The pattern of the float 1.
abbrev one_float : ℕ
one_float = 4607182418800017408

-- DefaultRetryPolicy
abbrev pub default_retry_policy : List Text → RetryPolicy
default_retry_policy codes = record {
  initial_interval = pos (15 * 1000000000);
  backoff_coefficient = one_float;
  maximum_interval = pos 0;
  expiration_interval = pos (300 * 1000000000);
  maximum_attempts = pos 0;
  non_retriable_error_reasons = default_non_retriable_error_reasons codes;
}

-- DefaultActivityOptions
abbrev pub default_activity_options : List Text → ActivityOptions
default_activity_options codes = record {
  task_list = [];
  schedule_to_close_timeout = pos 0;
  schedule_to_start_timeout = pos (15 * 1000000000);
  start_to_close_timeout = pos (15 * 1000000000);
  heartbeat_timeout = pos 0;
  wait_for_cancellation = false;
  activity_id = [];
  retry_policy = some (default_retry_policy codes);
  disable_eager_execution = false;
  versioning_intent = pos 0;
  summary = [];
}

-- DefaultChildWorkflowOptions
abbrev pub default_child_workflow_options : ChildWorkflowOptions
default_child_workflow_options = record {
  domain = [];
  workflow_id = [];
  task_list = [];
  execution_start_to_close_timeout = no_timeout;
  task_start_to_close_timeout = pos 0;
  wait_for_cancellation = false;
  workflow_id_reuse_policy = pos 0;
  retry_policy = none;
  cron_schedule = [];
  memo = none;
  search_attributes = none;
  parent_close_policy = pos 0;
}

-- `P` is the type of a plugin registry.
pub record ServiceBuilder (P : Type 0) : Type 0 where
  pub backend_type : Text
  pub plugins : P
  pub activity_options : ActivityOptions
  pub child_workflow_options : ChildWorkflowOptions

pub data Backend : Type 0 where
  cadence temporal : Backend

pub record Service (P : Type 0) : Type 0 where
  pub plugins : P
  pub activity_options : ActivityOptions
  pub child_workflow_options : ChildWorkflowOptions
  pub workflow : Backend

module _ {P : Type 0} (no_plugins : P) (codes : List Text) where
  -- NewServiceBuilder
  unfoldable pub new_service_builder : Text → ServiceBuilder P
  new_service_builder backend_type = record {
    backend_type = backend_type;
    plugins = no_plugins;
    activity_options = default_activity_options codes;
    child_workflow_options = default_child_workflow_options;
  }

  unfoldable pub set_plugins : P → ServiceBuilder P → ServiceBuilder P
  set_plugins p b = record b { plugins = p }

  -- SetClientTaskList
  unfoldable pub set_client_task_list : Text → ServiceBuilder P → ServiceBuilder P
  set_client_task_list t b = record b {
    activity_options = record b.activity_options { task_list = t };
    child_workflow_options = record b.child_workflow_options { task_list = t };
  }

  unfoldable pub set_activity_options : ActivityOptions → ServiceBuilder P → ServiceBuilder P
  set_activity_options o b = record b { activity_options = o }

  unfoldable pub set_child_workflow_options :
      ChildWorkflowOptions → ServiceBuilder P → ServiceBuilder P
  set_child_workflow_options o b = record b { child_workflow_options = o }

  abbrev pub backend_of_type : Text → Option Backend
  backend_of_type t =
      if t == text "cadence"
      then some cadence
      else if t == text "temporal"
      then some temporal
      else none

  -- Build; `none` is the error of an unsupported backend.
  unfoldable pub build : ServiceBuilder P → Option (Service P)
  build b = elim (backend_of_type b.backend_type) [
    | none ↦ none
    | some be ↦ some (record {
      plugins = b.plugins;
      activity_options = b.activity_options;
      child_workflow_options = b.child_workflow_options;
      workflow = be;
    })
  ]

  -- NewService
  unfoldable pub new_service : P → Text → Text → Option (Service P)
  unfolding build set_client_task_list set_plugins new_service_builder
  new_service plugins task_list backend_type =
      build
        (set_client_task_list task_list (set_plugins plugins (new_service_builder backend_type)))
