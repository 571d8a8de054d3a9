-- ===== src/Service/Registration/Registered.antt =====
-- What a worker runs under the name that Register of service/service.go gives to the service's workflow.
use starlark_worker.Prelude.{◌≡◌, refl, true, false, Option, some, List, [], ◌∷◌, Text, All}
use starlark_worker.Service.Lifecycle.{Attempt, returned, panicked}
use starlark_worker.Internal.Signature.{
  Reflect, Function, function, Any, make_func, converted_call,
  update_workflow_function_context_argument,
}
use starlark_worker.Internal.Signature.Calls.{
  Documented, HasTypes, ResultsTyped, workflow, update_typed,
}
use starlark_worker.Internal.Engine.Workers.{
  CadRegisterOptions, Done, SdkWorker, cad_register_workflow,
}
use starlark_worker.Service.Registration.{
  Registry, service_workflow_func, and_then, register_plugins, register, cad_registry,
}

and_then-keeps :
    {World : Type 0} (P : World → Type 0) (r : Done World) (rest : World → Done World)
    → P r.1
    → ((w : World) → P w → P (rest w).1)
    → P (and_then r rest).1
and_then-keeps P (panicked p, w) rest h k = h
and_then-keeps P (returned _, w) rest h k = k w h

and_then-returned :
    {World : Type 0} (r : Done World) (rest : World → Done World)
    → (and_then r rest).0 ≡ returned tt
    → r.0 ≡ returned tt
and_then-returned (panicked p, w) rest h = h
and_then-returned (returned _, w) rest h = refl

module _ {W A World : Type 0} (registry : Registry W A World) (P : World → Type 0) where
  -- A plugin whose registration keeps what holds of the worker.
  abbrev pub Keeps : (Registry W A World → World → Done World) → Type 0
  Keeps p = (w : World) → P w → P (p registry w).1

  register_plugins-keeps :
      (ps : List (Registry W A World → World → Done World)) (w : World)
      → All Keeps ps
      → P w
      → P (register_plugins ps registry w).1
  unfolding register_plugins
  register_plugins-keeps [] w k h = h
  register_plugins-keeps (p ∷ ps) w (k, ks) h =
      and_then-keeps P (p registry w) (register_plugins ps registry) (k w h)
        (λ u. register_plugins-keeps ps u ks)

module _ {T V World E : Type 0} (reflect : Reflect T V) (documented : Documented reflect)
    (worker : SdkWorker T V World (Unit {0}) E CadRegisterOptions CadRegisterOptions) (t : T)
    (ts outs : List T) (body : List V → World → Attempt (List V) × World) where
  abbrev pub run_function : Any T V World
  run_function = function (workflow reflect documented t ts outs body worker.context_type)

  -- The function that the worker is given.
  abbrev pub registered : Function T V World
  registered =
      make_func reflect (record { ins = worker.context_type ∷ ts; outs = outs; variadic = false })
        (converted_call reflect (workflow reflect documented t ts outs body worker.context_type)
          worker.context_type)

  -- For a Cadence worker that keeps the function under its name if it registers it, a run function that is not
  -- variadic and takes the engine's contexts, and plugins whose registration leaves the function
  -- under the service's name as it is: if Register does not panic, the worker has a function under
  -- that name, and called with a context of the engine and arguments of the other types it does what
  -- the run function does with them.
  pub registered_run :
      (plugins : List (Registry (Any T V World) V World → World → Done World)) (w v : World)
      (ctx : V) (rest : List V) (found : World → Text → Option (Function T V World))
      → ((o : CadRegisterOptions) (u : World)
          → (worker.register_workflow_with_options registered o u).0 ≡ returned tt
          → found (worker.register_workflow_with_options registered o u).1 o.name ≡ some registered)
      → ((args : List V) (u : World)
          → HasTypes reflect args (t ∷ ts)
          → ResultsTyped reflect outs (body args u))
      → reflect.assignable worker.context_type t ≡ true
      → All
          (Keeps
            (cad_registry reflect worker)
            (λ u. found u service_workflow_func ≡ some registered))
          plugins
      → (register run_function plugins (cad_registry reflect worker) w).0 ≡ returned tt
      → HasTypes reflect (ctx ∷ rest) (worker.context_type ∷ ts)
      → (g : Function T V World) × (found
            (register run_function plugins (cad_registry reflect worker) w).1
            service_workflow_func
          ≡ some g)
        × (g.body (ctx ∷ rest) v ≡ body (reflect.assign ctx t ∷ rest) v)
  unfolding register cad_register_workflow update_workflow_function_context_argument
  registered_run plugins w v ctx rest found stores typed a keeps ok types =
      let first =
        worker.register_workflow_with_options registered
          (record {
            name = service_workflow_func;
            enable_short_name = false;
            disable_already_registered_check = false;
          })
          w in
      (
        registered,
        and_then-keeps (λ u. found u service_workflow_func ≡ some registered) first _
            (stores _ w (and_then-returned first _ ok))
            (λ u. register_plugins-keeps (cad_registry reflect worker) _ plugins u keeps),
        (update_typed reflect documented t ts outs body worker.context_type typed registered ctx
            rest v a refl types).1,
      )
