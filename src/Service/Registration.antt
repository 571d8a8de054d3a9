-- ===== src/Service/Registration.antt =====
-- Register and RegisterWithOptions of service/service.go, over a registry of worker/.
pub mod Registered
mod Tests
use starlark_worker.Prelude.{◌≡◌, refl, ap, pos, false, Option, List, [], ◌∷◌, Text, text}
use starlark_worker.Service.Lifecycle.{Attempt, returned, panicked}
use starlark_worker.Internal.Signature.{Reflect, Any}
use starlark_worker.Internal.Engine.Workers.{
  RegisterWorkflowOptions, RegisterActivityOptions, CadRegisterOptions, TempRegisterOptions,
  TempActivityRegisterOptions, Done, SdkWorker, cad_register_workflow, cad_register_activity,
  cad_register_workflow_with_options, cad_register_activity_with_options, temp_register_workflow,
  temp_register_activity, temp_register_workflow_with_options, temp_register_activity_with_options,
}

-- The interface Registry; `W` is a workflow function, `A` an activity.
pub record Registry (W A World : Type 0) : Type 0 where
  pub register_workflow : W → Text → World → Done World
  pub register_activity : A → World → Done World
  pub register_workflow_with_options : W → RegisterWorkflowOptions → World → Done World
  pub register_activity_with_options : A → RegisterActivityOptions → World → Done World

-- ServiceWorkflowFunc
abbrev pub service_workflow_func : Text
service_workflow_func = text "starlark-workflow"

abbrev pub and_then : {World : Type 0} → Done World → (World → Done World) → Done World
and_then (panicked p, w) rest = (panicked p, w)
and_then (returned _, w) rest = rest w

module _ {W A World : Type 0} where
  -- The Register methods of the plugins, in the order in which the loop over the map takes them.
  unfoldable pub register_plugins :
      List (Registry W A World → World → Done World) → Registry W A World → World → Done World
  register_plugins [] registry w = (returned tt, w)
  register_plugins (p ∷ ps) registry w = and_then (p registry w) (register_plugins ps registry)

  -- (*Service).Register; `run` is the method value r.Run.
  unfoldable pub register :
      W → List (Registry W A World → World → Done World) → Registry W A World → World → Done World
  unfolding register_plugins
  register run plugins registry w =
      and_then (registry.register_workflow run service_workflow_func w)
        (register_plugins plugins registry)

  -- (*Service).RegisterWithOptions
  unfoldable pub register_with_options :
      W
      → List (Registry W A World → World → Done World)
      → Registry W A World
      → RegisterWorkflowOptions
      → World
      → Done World
  unfolding register_plugins
  register_with_options run plugins registry options w =
      and_then (registry.register_workflow_with_options run options w)
        (register_plugins plugins registry)

-- The options that name the service's workflow and set nothing else.
abbrev pub name_only : RegisterWorkflowOptions
name_only = record {
  name = service_workflow_func;
  enable_short_name = false;
  disable_already_registered_check = false;
  versioning_behavior = pos 0;
}

module _ {T V World E : Type 0} (reflect : Reflect T V) where
  -- A Cadence worker as a registry.
  abbrev pub cad_registry :
      SdkWorker T V World (Unit {0}) E CadRegisterOptions CadRegisterOptions
      → Registry (Any T V World) V World
  cad_registry worker = record {
    register_workflow = cad_register_workflow reflect worker;
    register_activity = cad_register_activity reflect worker;
    register_workflow_with_options = cad_register_workflow_with_options reflect worker;
    register_activity_with_options = cad_register_activity_with_options reflect worker;
  }

module _ {T V World I E : Type 0} (reflect : Reflect T V) where
  -- A Temporal worker as a registry.
  abbrev pub temp_registry :
      SdkWorker T V World I E TempRegisterOptions TempActivityRegisterOptions
      → Registry (Any T V World) V World
  temp_registry worker = record {
    register_workflow = temp_register_workflow reflect worker;
    register_activity = temp_register_activity reflect worker;
    register_workflow_with_options = temp_register_workflow_with_options reflect worker;
    register_activity_with_options = temp_register_activity_with_options reflect worker;
  }

module _ {T V World I E : Type 0} (reflect : Reflect T V) where
  -- With a Cadence worker and with a Temporal one, Register does what RegisterWithOptions does with
  -- options that name the service's workflow and set nothing else.
  pub register_default_options :
      (cad : SdkWorker T V World (Unit {0}) E CadRegisterOptions CadRegisterOptions)
      (temp : SdkWorker T V World I E TempRegisterOptions TempActivityRegisterOptions)
      (run : Any T V World) (plugins : List (Registry (Any T V World) V World → World → Done World))
      (w : World)
      → (register run plugins (cad_registry reflect cad) w
          ≡ register_with_options run plugins (cad_registry reflect cad) name_only w)
        × (register run plugins (temp_registry reflect temp) w
            ≡ register_with_options run plugins (temp_registry reflect temp) name_only w)
  unfolding register register_with_options cad_register_workflow cad_register_workflow_with_options
      temp_register_workflow temp_register_workflow_with_options
  register_default_options cad temp run plugins w = (refl, refl)
