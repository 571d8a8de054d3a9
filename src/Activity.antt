-- ===== src/Activity.antt =====
-- activity/activity.go: what activities ask of the engine, over workflow/workflow.go. An activity's context is
-- one of package context, whose values are read in the same way.
use starlark_worker.Prelude.{pos, Option, none, some, []}
use starlark_worker.Internal.Types.{ActivityInfo}
use starlark_worker.Workflow.{Types, Methods, get_backend, on_backend}

-- `Info{}`
abbrev pub empty_info : ActivityInfo
empty_info = record {
  task_token = [];
  workflow_type = none;
  workflow_domain = [];
  workflow_execution = record { id = []; run_id = [] };
  activity_id = [];
  activity_type = record { name = []; path = [] };
  task_list = [];
  heartbeat_timeout = pos 0;
  scheduled_timestamp = pos 0;
  started_timestamp = pos 0;
  deadline = pos 0;
  attempt = pos 0;
}

module _ (t : Types) (m : Methods t) where
  open t use {Ctx, Logger}

  -- GetLogger; a nil logger is `none`.
  unfoldable pub get_logger : Ctx → Option Logger
  get_logger ctx =
      on_backend t m (get_backend t m ctx) (λ b. some (m.get_activity_logger b ctx)) none

  -- GetInfo
  unfoldable pub get_info : Ctx → ActivityInfo
  get_info ctx = on_backend t m (get_backend t m ctx) (λ b. m.get_activity_info b ctx) empty_info
