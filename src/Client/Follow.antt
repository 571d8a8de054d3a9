-- ===== src/Client/Follow.antt =====
-- client/cadence_client/client.go and client/temporal_client/client.go: Run, which starts the workflow of the service
-- and prints how it closes. An event is what the code reads of it.
use starlark_worker.Prelude.{
  ◌*◌, ℤ, pos, Option, none, some, List, [], ◌∷◌, ◌++◌, Text, text, Result, ok, err,
}
use starlark_worker.Cmd.Run.{Start}

-- The attributes of an event that says how the workflow closed: its result, or the reason and the details of
-- its failure; with Temporal, the state of the retries and the failure.
pub record Event : Type 0 where
  pub completed : Option Text
  pub failed : Option (Text × Text)

-- StartWorkflowOptions
pub record StartOptions : Type 0 where
  pub task_list : Text
  pub execution_timeout : ℤ

-- WorkflowFunc
abbrev pub workflow_func : Text
workflow_func = text "starlark-workflow"

-- The client of an engine: the start of a workflow, which gives its ids, and its closing events.
pub record Client (E World : Type 0) : Type 0 where
  pub start_workflow : StartOptions → Text → Start → World → Result E (Text × Text) × World
  pub history : Text → Text → World → List (Result E Event)

-- What is printed.
pub data Line : Type 0 where
  execution_id run_id result fail_first fail_second : Text → Line

-- Ten years
abbrev pub ten_years : ℤ
ten_years = pos (315360000 * 1000000000)

abbrev result_line : Option Text → List Line
result_line none = []
result_line (some r) = result r ∷ []

abbrev fail_lines : Option (Text × Text) → List Line
fail_lines none = []
fail_lines (some (a, b)) = fail_first a ∷ fail_second b ∷ []

abbrev and_lines : {E : Type 0} → List Line → List Line × Option E → List Line × Option E
and_lines printed (rest, e) = (printed ++ rest, e)

-- The loop over the history, up to the first error.
unfoldable pub follow : {E : Type 0} → List (Result E Event) → List Line × Option E
follow [] = ([], none)
follow (err e ∷ events) = ([], some e)
follow (ok event ∷ events) =
    and_lines (result_line event.completed ++ fail_lines event.failed) (follow events)

module _ {E World : Type 0} (client : Client E World) where
  abbrev followed : Result E (Text × Text) × World → (List Line × Option E) × World
  followed (err e, w) = (([], some e), w)
  followed (ok (id, run), w) =
      (and_lines (execution_id id ∷ run_id run ∷ []) (follow (client.history id run w)), w)

  -- Run of the Cadence client
  unfoldable pub cad_client_run : Start → Text → World → (List Line × Option E) × World
  unfolding follow
  cad_client_run start cadence_task_list w = followed (
      client.start_workflow
        (record { task_list = cadence_task_list; execution_timeout = ten_years }) workflow_func
        start w)

  -- Run of the Temporal client
  unfoldable pub temp_client_run : Start → Text → World → (List Line × Option E) × World
  unfolding follow
  temp_client_run start task_queue w = followed (
      client.start_workflow (record { task_list = task_queue; execution_timeout = ten_years })
        workflow_func start w)
