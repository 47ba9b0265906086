-- ===== src/Lib.antt =====
-- A verification library of sgt, a coordinator that dispatches coding agents and records their runs.
--
-- The parts and their files. Paths are from the repository's root.
--
-- - Base: the shared names. Base/Database models a store method: a state passed on, errors as values,
--   SQL statements that the database may refuse (`faults`), and a clock. Base/Keeps and Base/Leads say
--   what a method keeps true under every refusal; Base/Keys is about rows that do not clash.
-- - Delivery: internal/store/delivery.go. Delivery/Types and Rows hold the table and its queries,
--   Delivery/Ops the retry loop, DeliverEnvelope (deliver_envelope), ReplayDelivery
--   (replay_delivery) and QuarantineDelivery (quarantine_delivery).
-- - Store: internal/store/store.go, changes.go and reconcile.go. Store/Types has the records and the
--   tables, Store/Changes the change sequence, Store/Rows the lookups, Store/Bullets intents and
--   bullets, Store/Advance the derived status of an intent, AdvanceBulletsForRun and SealBulletForRun,
--   Store/Runs the dispatch of runs, Store/Phases phases and envelopes, Store/Reconcile the start of
--   the coordinator. A Go method CreateRun is create_run, and so on. Store/World adds the
--   deliveries, the rollups and the artifacts; Store/Retention (retention.go), Store/Analytics
--   (analytics.go) and Store/Artifacts (artifact.go) work on all of these.
-- - Runner: internal/runner. Runner/Types has the processes and what is outside, Runner/Phases
--   RunCodeGate and RunAgentPhase (runner.go), Runner/Capture the capture of artifacts
--   (artifacts.go). It delivers its envelopes by Delivery and records its phases by Store.
-- - Engine: internal/dag/engine.go. Engine/Worktrees has prepareWorktree, Engine/Stages RunStage and
--   what a resumed run skips, Engine/Evidence the red and green evidence. It runs phases by Runner.
-- - Naming: internal/naming. Store/Runs labels a run with it.
-- - Graphify: internal/graphify/exclude.go.
-- - Plan: internal/plan/plan.go. That RunStage seeds a plan with it is not part of Engine.
-- - Server: internal/ui. Server/Terminal (dispatch.go, bulletstate.go), Server/Merge and
--   Server/Shipping (server.go) call the store; Server/Stages is about the stages of a run (dispatch.go, gatefix.go and
--   internal/config/config.go); Server/Execute is executeRun (dispatch.go) and runFixCycles
--   (gatefix.go), over a context whose cancellation is a function of the time; Server/Workflow is
--   workflow.go with the pipeline of internal/dag/engine.go.
--
-- A table is the list of its rows in insertion order, which is the order of created_at. The
-- schema's PRIMARY KEYs and unique indexes are tests of the INSERT; of two violations by one
-- INSERT of a run the id is reported. A column with a fixed vocabulary is a data type. Numbers are
-- the natural numbers: a sequence number or a time does not wrap.
--
-- Bounds: the retry loop has delivery_max_attempts rounds, as the source's does. The label search has
-- 64 attempts, as the source's does. The search for a free node id is unbounded in the source; the
-- model tries one candidate more than there are ids in use, which always suffices. The attempts of a
-- phase are counted down from its retries, as the loop of the source counts up to them.
--
-- A process, git and the file system are parameters: the n-th process ends as a given function of n
-- says, and a state counts the processes. A map of counts is a function.
--
-- Not modelled: HTTP handlers, the code host, JSON and YAML, the schema migrations, the mutexes, and
-- the texts of prompts, logs and errors. The digest, the formatting and
-- splitting of strings, path matching on a segment, the redactors and the readings of a payload are
-- parameters.
pub mod Base
pub mod Delivery
pub mod Naming
pub mod Graphify
pub mod Plan
pub mod Runner
pub mod Engine
pub mod Server
pub mod Store
