-- ===== src/Internal/Engine/Workers.antt =====
-- internal/internal_worker.go, and the workers of internal/internal_cadence.go and
-- internal/internal_temporal.go, over those of the SDKs.
use starlark_worker.Prelude.{ℤ, pos, Bool, false, Option, Text}
use starlark_worker.Service.Lifecycle.{Attempt, returned, panicked}
use starlark_worker.Internal.Signature.{
  Reflect, Function, Any, update_workflow_function_context_argument,
}

pub record RegisterWorkflowOptions : Type 0 where
  pub name : Text
  pub enable_short_name : Bool
  pub disable_already_registered_check : Bool
  pub versioning_behavior : ℤ

pub record RegisterActivityOptions : Type 0 where
  pub name : Text
  pub enable_short_name : Bool
  pub disable_already_registered_check : Bool
  pub enable_auto_heartbeat : Bool
  pub skip_invalid_struct_functions : Bool

-- The fields of the SDKs' options that the code sets.
pub record CadRegisterOptions : Type 0 where
  pub name : Text
  pub enable_short_name : Bool
  pub disable_already_registered_check : Bool

pub record TempRegisterOptions : Type 0 where
  pub name : Text
  pub versioning_behavior : ℤ
  pub disable_already_registered_check : Bool

pub record TempActivityRegisterOptions : Type 0 where
  pub name : Text
  pub skip_invalid_struct_functions : Bool
  pub disable_already_registered_check : Bool

abbrev pub Done : Type 0 → Type 0
Done World = Attempt (Unit {0}) × World

-- A worker of an SDK, with its options for workflows and for activities; `run` takes the channel of
-- interrupts, where the SDK does.
pub record SdkWorker (T V World Interrupts E O P : Type 0) : Type 0 where
  pub context_type : T
  pub register_workflow_with_options : Function T V World → O → World → Done World
  pub register_activity : V → World → Done World
  pub register_activity_with_options : V → P → World → Done World
  pub start : World → Option E × World
  pub run : Interrupts → World → Option E × World
  pub stop : World → World

abbrev pub on_updated : {F World : Type 0} → Attempt F → (F → Done World) → World → Done World
on_updated (panicked p) rest w = (panicked p, w)
on_updated (returned f) rest w = rest f

module _ {T V World E : Type 0} (reflect : Reflect T V) where
  module _ (worker : SdkWorker T V World (Unit {0}) E CadRegisterOptions CadRegisterOptions) where
    unfoldable pub cad_register_workflow : Any T V World → Text → World → Done World
    cad_register_workflow wf func_name w =
        on_updated (update_workflow_function_context_argument reflect wf worker.context_type)
          (λ f.
            worker.register_workflow_with_options f
              (record {
                name = func_name;
                enable_short_name = false;
                disable_already_registered_check = false;
              })
              w)
          w

    unfoldable pub cad_register_activity : V → World → Done World
    cad_register_activity a w = worker.register_activity a w

    unfoldable pub cad_start : World → Option E × World
    cad_start w = worker.start w

    -- Run takes the channel of interrupts and leaves it out.
    unfoldable pub cad_run : {I : Type 0} → I → World → Option E × World
    cad_run interrupts w = worker.run tt w

    unfoldable pub cad_stop : World → World
    cad_stop w = worker.stop w

    unfoldable pub cad_register_workflow_with_options :
        Any T V World → RegisterWorkflowOptions → World → Done World
    cad_register_workflow_with_options wf options w =
        on_updated (update_workflow_function_context_argument reflect wf worker.context_type)
          (λ f.
            worker.register_workflow_with_options f
              (record {
                name = options.name;
                enable_short_name = options.enable_short_name;
                disable_already_registered_check = options.disable_already_registered_check;
              })
              w)
          w

    unfoldable pub cad_register_activity_with_options :
        V → RegisterActivityOptions → World → Done World
    cad_register_activity_with_options a options w =
        worker.register_activity_with_options a
          (record {
            name = options.name;
            enable_short_name = options.enable_short_name;
            disable_already_registered_check = options.disable_already_registered_check;
          })
          w

module _ {T V World I E : Type 0} (reflect : Reflect T V) where
  module _ (worker : SdkWorker T V World I E TempRegisterOptions TempActivityRegisterOptions) where
    -- A VersioningBehavior that is not set is 0.
    unfoldable pub temp_register_workflow : Any T V World → Text → World → Done World
    temp_register_workflow wf func_name w =
        on_updated (update_workflow_function_context_argument reflect wf worker.context_type)
          (λ f.
            worker.register_workflow_with_options f
              (record {
                name = func_name;
                versioning_behavior = pos 0;
                disable_already_registered_check = false;
              })
              w)
          w

    unfoldable pub temp_register_activity : V → World → Done World
    temp_register_activity a w = worker.register_activity a w

    unfoldable pub temp_start : World → Option E × World
    temp_start w = worker.start w

    unfoldable pub temp_stop : World → World
    temp_stop w = worker.stop w

    unfoldable pub temp_run : I → World → Option E × World
    temp_run interrupts w = worker.run interrupts w

    unfoldable pub temp_register_workflow_with_options :
        Any T V World → RegisterWorkflowOptions → World → Done World
    temp_register_workflow_with_options wf options w =
        on_updated (update_workflow_function_context_argument reflect wf worker.context_type)
          (λ f.
            worker.register_workflow_with_options f
              (record {
                name = options.name;
                versioning_behavior = options.versioning_behavior;
                disable_already_registered_check = options.disable_already_registered_check;
              })
              w)
          w

    unfoldable pub temp_register_activity_with_options :
        V → RegisterActivityOptions → World → Done World
    temp_register_activity_with_options a options w =
        worker.register_activity_with_options a
          (record {
            name = options.name;
            skip_invalid_struct_functions = options.skip_invalid_struct_functions;
            disable_already_registered_check = options.disable_already_registered_check;
          })
          w
