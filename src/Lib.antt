-- ===== src/Lib.antt =====
-- A model of the Starlark worker, a service that runs Starlark scripts as Cadence or Temporal
-- workflows. A run unpacks a tar archive with the script, loads it with a module for each plugin,
-- calls its main function, runs the exit hooks that the script registered, and turns errors into
-- those of the engine. The scripts' plugins reach the engine through the context of the run.
--
-- The parts, and the files that model them:
-- - Service/Builder, Service/SetUp and Service/Lifecycle: service/service.go and service/defaults.go,
--   `new_service` and its builder, the context and the globals of a run, and `run` from the archive to
--   the error of the run; Service/Lifecycle/Canceled has its test for a canceled run.
-- - Service/Registration: Register and RegisterWithOptions of service/service.go, over the workers of
--   Internal/Engine.
-- - Service/ExitHooks: service/exit_hook.go. The slice of hooks stands in a heap of backing arrays,
--   since a hook can change the slice that `run` walks.
-- - Service/Threads: service/thread.go and service/plugin.go, the bounded log, the environment and the
--   time that the variable STARLARK_TIME sets.
-- - Star/Codec, Star/Dataclass and Star/Base64: star/codec.go, star/dataclass.go and star/utils.go, the
--   values of Starlark in JSON.
-- - Star/Files and Star/Load: star/fs.go and ext/tar.go, star/star.go and star/callable_object.go.
-- - Ext/JsonPath: ext/json_path.go.
-- - Workflow: workflow/workflow.go over the interface of internal/internal_workflow.go; the context
--   carries the engine, and each function passes its call on to it.
-- - Internal/Types and Internal/Options: internal/types.go, and the conversions of options and
--   activity data of internal/internal_cadence.go and internal/internal_temporal.go.
-- - Internal/Convert: the data converters of these two files.
-- - Internal/Engine and Internal/Signature: the wrappers of these two files for the objects of the SDKs
--   and for their workers, and internal/utils.go, which gives a workflow function the context type of
--   an engine.
-- - Activity: activity/activity.go over the same interface as Workflow.
-- - Internal/Batch: internal/temporalbatch/batchfuture/batch_future.go. The goroutines are steps
--   between the channel operations, in any order that the scheduler takes.
-- - Headers: cadence/headers_context_propagator.go and temporal/headers_context_propagator.go.
-- - Plugin/Request: plugin/request/activities.go, `do_json` and `do_request` with the request, the
--   response and its checks. Plugin/Response: plugin/request/module.go and plugin/request/response.go.
-- - Plugin/Workflow, Plugin/Concurrent and Plugin/Random: plugin/workflow,
--   plugin/concurrent/module.go with plugin/concurrent/callable.go, and plugin/random/module.go. The
--   scripts' calls, behind the unpacking of their arguments, over the functions of the engine.
-- - Plugin/Asserts and Plugin/Digests: plugin/test/module.go, plugin/hashlib/module.go and
--   plugin/uuid.
-- - Plugin/Clock, Plugin/Json and Plugin/RunState: plugin/time/module.go, plugin/json/module.go, and
--   plugin/atexit/module.go, plugin/progress/module.go and plugin/os/module.go.
-- - Client/Package: client/cadence_client/client.go, `load` and `Package`, which pack a script with
--   all that it loads; the Temporal client has the same functions.
-- - Cmd/Run and Cmd/Targets: cmd/cadence_client_main/main.go, the dispatch, the command `package`, and
--   the command `run` from its flags to the call of Run, over Client/Package and Star/Codec. Cmd/Temporal
--   is the command `run` of cmd/temporal_client_main/main.go, and Client/Follow the Run of both clients.
-- - Cmd/Service: cmd/service/main.go, from its options to the end of the process.
-- - Prelude: lists, texts and maps with native numbers, and results that may be errors.
--
-- Parameters stand for code outside the repository: the SDKs of the engines, the Starlark
-- interpreter and its JSON, jsoniter, the readers of archives, the growth of Go slices. What a
-- theorem needs of one is a hypothesis, and a test instantiates it.
--
-- Texts are lists of bytes, Go maps are lists with one entry for a key, and a 64-bit integer is its
-- pattern below 2 ^ 64 where it can overflow. Loops are structural recursion on what they walk; the
-- recursion of `run_from` is on the number of hooks left. Fuel stands in two places: the recursion of
-- `load`, where more than the number of files that can be reached is enough, and the digits of a
-- number, where 19 are enough for 64 bits. The run of a batch future to its end is by recursion on a
-- bound of the measure that every step lowers.
--
-- Not modelled: the set up of clients and workers, the parser of flags, logging and metrics, and the
-- helpers of the tests.
pub mod Prelude
pub mod Client
pub mod Cmd
pub mod Service
pub mod Star
pub mod Ext
pub mod Internal
pub mod Workflow
pub mod Activity
pub mod Plugin
pub mod Headers
