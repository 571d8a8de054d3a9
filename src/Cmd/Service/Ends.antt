-- ===== src/Cmd/Service/Ends.antt =====
-- How the process of cmd/service/main.go ends.
use starlark_worker.Prelude.{
  ◌≢◌, Option, none, some, List, [], Text, text, ◌==◌, nat_eq, list_eq, if◌then◌else◌, Bool, true,
  false,
}
use starlark_worker.Service.Lifecycle.{Attempt, returned, panicked}
use starlark_worker.Service.Builder.{Service}
use starlark_worker.Cmd.Service.{
  Options, Worker, Exit, exited, started, registered, built, connected, main,
}

module _ {P Conn World : Type 0} (no_plugins registry : P) (codes : List Text)
    (worker : Worker P Conn World) where
  started_lem :
      (c : Conn) (r : Option Text × World)
      → (started no_plugins registry codes worker c r).0 ≢ exited
  started_lem c (some e, w) h = cc
  started_lem c (none, w) h = cc

  registered_lem :
      (c : Conn) (r : Attempt (Unit {0}) × World)
      → (registered no_plugins registry codes worker c r).0 ≢ exited
  registered_lem c (panicked p, w) h = cc
  registered_lem c (returned _, w) h = started_lem c (worker.start c w) h

  built_lem :
      (c : Conn) (s : Option (Service P)) (w : World)
      → (built no_plugins registry codes worker c s w).0 ≢ exited
  built_lem c none w h = cc
  built_lem c (some s) w h = registered_lem c (worker.register s c w) h

  connected_lem :
      (backend : Text) (opt : Options) (r : Attempt Conn × World)
      → (connected no_plugins registry codes worker backend opt r).0 ≢ exited
  connected_lem backend opt (panicked p, w) h = cc
  connected_lem backend opt (returned c, w) h = built_lem c _ w h

  -- Whatever the options, the engine and the plugins do, the process does not end by the end of main.
  pub main_unfinished :
      (opt : Options) (w : World) → (main no_plugins registry codes worker opt w).0 ≢ exited
  unfolding main
  main_unfinished opt w =
      branches _ _ (opt.backend == text "cadence") (connected_lem (text "cadence") opt _) (
        branches _ _ (opt.backend == []) (connected_lem (text "cadence") opt _) (
          branches _ _ (opt.backend == text "temporal") (connected_lem (text "temporal") opt _)
            (λ h. cc)))
    where
      branches :
          (x y : Exit × World) (b : Bool)
          → x.0 ≢ exited
          → y.0 ≢ exited
          → (if b then x else y).0 ≢ exited
      branches x y true f g = f
      branches x y false f g = g
