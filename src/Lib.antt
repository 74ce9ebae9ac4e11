-- ===== src/Lib.antt =====
-- Verification of the orchestrator's core, go-core/internal.
--
-- The orchestrator hands the tasks of a plan to agents. A parallel plan is a list of artifacts with
-- dependencies and conflict keys; the executor of kernel/advanced_planner.go starts those that are ready,
-- waits for their workflows, and saves checkpoints through the virtual file system of
-- vfs/manager.go. Envelopes go to agents over the bus of delivery/message_bus.go, under the eyes of the
-- supervisor of delivery/supervisor.go, which follows acknowledgements, confirms payloads, retries and
-- dead-letters.
--
-- Prelude: the shared names; Go's texts (TrimSpace, ToLower), maps and sorts; integers.
-- Domain: the types of go-core/internal/domain. A Go int is an integer without bounds, a time a number of
--   nanoseconds, an `any` a Value.
-- Delivery/Bus: MessageBus; each critical section under its mutex is a function of the state. Bus/Steps
--   interleaves the critical sections of any clients. The stream methods' goroutines are the steps that take and return an item;
--   the channels' blocking is left out.
-- Delivery/Interface: the bus as the supervisor takes it, with two laws of acknowledgements, and the
--   in-memory bus as an instance.
-- Delivery/Record, Delivery/Supervisor: the delivery records and the supervisor over any such bus. The
--   clock's reading is an argument, the checksum of a payload a parameter. Supervisor/Timeouts is
--   InspectTimeouts; Supervisor/Interleavings has every call, and every round of an inspection, as a step.
--   Supervisor/Overlap has two inspections at once.
-- Module Plan/Schedule has readyPlanArtifacts and scheduleReadyArtifactsWithConflicts. Go's sorts are a stable
--   insertion sort; costs and weights are fixed-point numbers.
-- Module Plan/Tasks has the tasks that the executor submits. Supervisor/Health has the health snapshot.
-- Delivery/Workers: the worker pool of an agent over the supervisor; the handlers of the application are
--   parameters. A worker's calls for one delivery follow one another.
-- Module Plan/Policy has task_policy.go. Module Plan/Planner has planner.go: Planner/Steps the steps of a plan,
--   Planner/Artifact the artifacts made of them. The recursion over clusters has the number of files as fuel,
--   and each cluster takes one at least. The model selector's answer is an argument.
-- Module Plan/Executor has executeParallelPlan as a step relation. A step is the arrival of one result, of any
--   running artifact; the store's answer to a checkpoint is a parameter. No fuel is used: the number of
--   steps is bounded by a theorem.
-- Runtime/Probes: kernel/provider_probe_manager.go as a step relation. Runtime/Profile:
--   kernel/execution_profile.go. What they read of the environment is an argument. Runtime/Registry:
--   kernel/registry.go; a score, a float64, is a parameter.
-- Transport: transport/protocol.go, dispatcher.go and session.go, in Transport/Protocol, Dispatcher and
--   Session; handlers, header values and the clock are arguments, and a cancel function is its name.
-- Realtime: realtime/hub.go; the deliveries that Publish makes after it has released the lock are steps.
-- Vfs: the checkpoint store: walkValue and walkHydrate by recursion on the value, WriteCheckpoint and
--   ReadCheckpoint over the file store. SHA-256 is a parameter; the property that needs it assumes
--   only that the texts of one checkpoint do not collide.
--
-- Not modelled: the RabbitMQ bus and the HTTP, SQL and process code, which call code outside the
-- repository; the audit hooks, which do nothing; model routing, memory and
-- self-learning, which are separate components. Errors of the file store are not modelled either.
pub mod Prelude
pub mod Domain
pub mod Delivery
pub mod Plan
pub mod Vfs
pub mod Runtime
pub mod Realtime
pub mod Transport
