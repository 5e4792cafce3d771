-- ===== src/Lib.antt =====
-- GoAl, a launcher of local model servers (Go): its launch supervisor and the data that it works on.
--
-- The program keeps runtimes, models, pipelines and launch instances in a repository, resolves a
-- model to a command, and supervises the processes it launches. The supervisor arbitrates every
-- launch and restart: it refuses one that clashes with a launch in flight of the same model, mints a
-- claim for one that it grants, and commits a spawn only for a claim that is unspent and still that
-- of the controller's operation. A shutdown waits for the launches between admission and commit. An
-- import restores a graph of runtimes, models and pipelines in one write, each process keeps a bounded
-- log that the web interface queries, and that interface limits its callers and holds their sessions.
-- The pipeline service starts and stops the models of a pipeline as one group, and at its start the
-- program recovers the instances that an earlier run left in flight.
--
-- Prelude is shared: tests on numbers, lists, texts, maps, integers. A Go string is the list of its
-- bytes, a Go map the list of its entries in the order in which it is walked, time.Now() an argument.
--
-- Domain (internal/domain)
--   Instance    instance.go, launch_instance_entry.go: LaunchInstance, UpdateState, UpdateError, Fail,
--               ToStorageEntry, ToDomain; Instance/States, Instance/Stored hold what is proved.
--   Owner       launch_owner.go: LaunchOwner, whose == is owner_eq.
--   Entries     model_entry.go, pipeline.go: the stored runtimes, models and pipelines.
--   EnvPatch    model_entry.go: ApplyEnvPatch.
--   VarResolve  varresolve.go: ResolveString, ResolveArgs, ResolveEnvValues, NewVariableSource. The
--               loop of ResolveString takes one unit of fuel for each turn; each turn consumes at
--               least one byte, so the length of the text is enough. os.LookupEnv is an argument.
--   Command     command.go, model.go, runtime.go: Resolve, Preview, ResolveToInstance. What they take
--               from the operating system and the Go library is the record Host.
-- Process (internal/process)
--   Errors      errors.go; ErrorTree an error as the tree that errors.Is, errors.As and walkErrors walk.
--   Controller  supervisor.go: InstanceController and its mutations, each of which publishes a view.
--   Arbitration arbitration.go: arbitrate, scanConflicts, orphanFence, publishClaimLocked;
--               supervisor.go: compatible.
--   Recovery    supervisor.go: Recover, classifyForRecovery, verifyIdentity, DismissOrphan. The platform's
--               prober, which answers by the PID, runtime.GOOS and strings.ToLower are the record Host.
--   Restart     arbitration.go: instanceOwner, PreflightRestart; supervisor.go: controllerFor, restart.
--   Commit      arbitration.go: consumeSpawnClaimLocked, releaseLaunchOperation, revalidateOperation;
--               supervisor.go: the commit in startCore, beginDrain, the sections of
--               abortPreSpawnCleanup, signalPreSpawnZeroLocked.
--   System      the critical sections as the steps of a relation, taken in any order. A controller that
--               has left the registry lives on in `departed` for the goroutines that hold it: a
--               restart that looked it up before, and the last section of an abort. The lifecycle
--               work after a commit is a step that applies any mutation which enters a state in flight
--               only from one in flight or inside an operation.
--   Logs        log_store.go: LogStore, GetLogs, QueryAggregatedLogs; supervisor.go: QueryLogs. The
--               parser of times, the tests on texts and Go's stable sort are arguments. Broker: LogBroker,
--               Subscribe, Publish, Cancel, Shutdown, as steps that interleave.
--
-- Storage (internal/storage)
--   Collection  the loops over one slice: find, replace, remove by ID.
--   Repository  repository.go: JSONRepository, saveLocked and the rollback around it; its children
--               Runtimes, Models, Pipelines, Instances, Integrity hold the operations on each kind of
--               entry (CRUD, patches, ReplaceRuntimeAndDelete, CascadeDeleteRuntimeAndModels,
--               DeleteTerminalInstances, ValidateCrossReferences); Backfill the legacy entry IDs.
--   Operations  the writing operations as values, for histories. What becomes of the write is an
--               argument of each call: written, not written, or replaced with a failed sync.
--   Import      import_plan.go, import_projection.go: PlanGraphImport in Names and Plan; repository.go:
--               runtimeNameConflicts in Conflicts, ImportGraph in Graph. strings.ToLower and
--               sort.Strings are arguments.
--
-- Application (internal/application)
--   Failures    pipeline_failures.go: the collector, its aggregates, classifyStopFailure.
--   Pipelines   pipeline_service.go: ValidatePipelineEntry and the writing operations over Storage.
--   Lifecycle   pipeline_service.go: startEntry; Phases: startEntry and stopEntry in their loops;
--               Targets: stopTargets; Requests: Start, Autostart, Stop, Restart. The supervisor is the
--               record of its calls AdmitAndStart and Stop, which may change the state as they like.
--
-- Security (internal/webui/security)
--   RateLimit   ratelimit.go: Allow and cleanup. A bucket is looked up in a function of the key, and a
--               time is its nanoseconds.
--   Sessions    session.go: CreateSession, ValidateSession, DestroySession, cleanup; Csrf: csrf.go,
--               ValidateRequest. A random token is an argument.
--
-- The parts meet in the launch instance: Process publishes its states as Domain.Instance has them and
-- writes its stored form, which Storage keeps and Process lists again for the orphan check and the
-- recovery. Application reads Storage for the instances that it asks the supervisor to stop.
--
-- Bounds: opSeq, viewGeneration and the numbers of log events are uint64 and wrap at 2^64; the offset
-- of a page of a query is an int of 64 bits, negative from 2^63 on. A claim is passed by pointer, so its
-- identity is an address of its own, not its operation number.
--
-- Not modelled: the locks themselves (a definition is one critical section), operating-system
-- processes, the concurrency slots, RemoveTerminal (which may enter a controller again), persistence with retry, HTTP handlers,
-- file formats and migrations of the repository, passwords, cookies, and the other services, the platform
-- layer and the updater, which call the operating system and the network.
pub mod Prelude
pub mod Domain
pub mod Process
pub mod Storage
pub mod Application
pub mod Security
