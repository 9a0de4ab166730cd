-- ===== src/Lib.antt =====
-- The state plane of Canon Systems: shared checkpoints with leases, the task ledger, the
-- dispatch of orchestration runs, and the readers that say what may run next.
--
-- The parts and how they interact. The state API (backend/state-api/state_api) keeps one row per
-- scope in a DynamoDB table: a checkpoint with a version and a lease. An agent acquires the
-- lease, puts checkpoints under its token and the version it expects, renews and releases.
-- `canon resume` and `canon stall-watchdog` (src/canon_systems) only read these rows: they say
-- which task of a manifest comes next, which may run in parallel and whose lease has ended. The
-- task ledger (src/canon_systems/tasks.py) is a list of events that each reader folds into tasks
-- by itself. The run service (backend/knowledge-api/app/services/runs.py) keeps the runs that
-- workers claim.
--
-- Base, Base/Text, Base/Json, Base/Order, Base/Sorted, Base/Strict, Base/Taken: names of the
-- libraries, Boolean tests, Python's text methods, JSON values, strict orders, the stable sort
-- of `sorted` and what a sorted list is, in Base/Strict without two equal keys; Base/Taken is on
-- lists that are mapped or cut.
--
-- Dynamo: the table service, which is not part of the repository, as the record `Dynamo` with
-- the law of `update_item`; Dynamo/Memory is an instance, so the law can be met.
-- Dynamo/Expressions has the conditions of `put_item` and `query` on the keys, with the law
-- `PutLaw`, for the tables of the run ledger and of the task events; Dynamo/Absent is about the
-- condition that both stores write.
--
-- StateApi/Rows is models.py, StateApi/Store the `StateStore` of storage.py, StateApi/Leases
-- leases.py and StateApi/Checkpoints checkpoints.py. A handler takes what its reads return as
-- arguments, since other requests may come between a read and a write. StateApi/Calls are
-- histories of requests in any order. The proofs: Effects and Puts (what each call does to a
-- row), Exclusion, Outcomes, Refusals, Versions, Grants, Handover, Keys.
--
-- Tasks/Events and Tasks/Fold are tasks.py, from `normalize_scope` to `materialize`, Tasks/Make
-- is its `make_event`, Tasks/Merge its `dedupe_events`, and Tasks/Select is `task_matches`,
-- `sort_tasks` and `filter_and_sort`. A `TaskError` is `none`. The proofs: Streams, Totality,
-- Made, Audit, Merge, Merged, Shown, Arranged, Selected, Union, Newest.
--
-- TaskCli is `canon task`, src/canon_systems/tasks_cli.py over tasks_remote.py: the files and
-- the combined view with the server, which is the record `Remote`; TaskCli/Commands the
-- subcommands that create, change and show tasks, TaskCli/Sync `_cmd_sync`. It uses Tasks for
-- the events and their fold; what it needs of the server is in the records `IsAppendOnly` and
-- `IsDurable`. TaskCli/Tests fills both with a server in memory; TaskCli/Plane fills
-- `IsDurable`, and no more than it, with the routes of TaskPlane. The proofs: Views, ReadBack,
-- Closing, Converge, Objects.
--
-- TaskPlane is the server side of the task ledger: backend/shared/canon_backend_shared/tasks.py
-- and the POST route of backend/state-api/state_api/tasks.py, with the put of `TasksStore`, over
-- a table that is the record `EventTable` (an instance is in TaskPlane/Tests); TaskPlane/Listing
-- is its GET route. The proofs: Keys, Writes, Reads.
--
-- Runs is the rows and requests of app/models/run_db.py and run_api.py, with the SQLAlchemy
-- session as the record `Session` (Runs/Memory is an instance); Runs/Service, Runs/Listing and
-- Runs/Events are app/services/runs.py (Runs/Logged is an instance with events). The `LIKE` of
-- PostgreSQL is a parameter, with what its documentation says of a pattern `prefix%`. The
-- proofs: Listing, Claims, Lifecycle, Events.
--
-- Resume, Resume/Lanes and Resume/Threads are task_thread_scheduler.py and resume_engine.py,
-- Resume/Watchdog is stall_watchdog.py. The proofs: Partition, Ready, Target, Threads, Stalls.
--
-- Readiness and its modules are src/canon_systems/readiness.py: what a run ledger row shows of
-- the phases (Readiness), the snapshot (Snapshot), the choice of the newest row (Latest), the
-- report and the pipeline (Report). The proofs: Archived, Verdict, Answer.
--
-- FlowAudit is the evidence of a task, of src/canon_systems/flow_audit.py, dor_telemetry.py and
-- checkpoints.py, with the attestation of a deployment in FlowAudit/Deploy and the command in
-- FlowAudit/Run. The proofs: Errors, Attested, Attestation, Passed, Rejections, Exit. Both read
-- JSON, which is Base/Json.
--
-- RunLedger is backend/shared/canon_backend_shared/run_ledger.py (segments and keys;
-- RunLedger/Fields the normalizers, RunLedger/Parts the dict they make, RunLedger/Record the
-- validation), and RunLedger/Routes is backend/state-api/state_api/run_ledger.py with the put
-- and the query of `RunLedgerStore`, over a table that is the record `LedgerTable`, of which
-- RunLedger/Memory is an instance. Readiness reads what the GET route answers. The proofs: Keys,
-- References, Checked, Writes, Reads.
--
-- Bounds and fuel. Every loop of the modelled code runs over a list, so every function here is
-- structural and none takes fuel. Python's integers are unbounded; versions, epochs and expiries
-- are natural numbers. Texts are compared by code points, and `lower` covers the ASCII letters.
--
-- Not modelled: HTTP, argument parsing, files and printing; of `canon task`, the active task and
-- the notes of a session; exceptions of the database or the network other than a failed
-- condition and a service error code; the archive's uploads and the client of the run ledger;
-- the packages that generate or publish text.
pub mod Base
pub mod Dynamo
pub mod StateApi
pub mod Tasks
pub mod TaskCli
pub mod TaskPlane
pub mod Runs
pub mod Resume
pub mod Readiness
pub mod FlowAudit
pub mod RunLedger
