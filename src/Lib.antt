-- ===== src/Lib.antt =====
-- Syncore: the task store, the autonomy loop over it, and the run queue.
--
-- The program is a service that moves software tasks through the stages plan, execute and review by
-- calls to language models. Its state is in a SQL store. The autonomy loop is called for one task at
-- a time: it reads the newest events of the task, decides from them which stage comes next and which
-- gates hold it back, runs the stage, and writes events that the next call reads. The run queue keeps
-- requests for single runs, and a worker claims and settles them.
--
-- Which file models what (paths from the root of the repository; S stands for
-- services/orchestrator/app/services):
--   Common/*          tests, lists, integers and texts. A text is the list of its code points; strip,
--                     lower and upper know the ASCII letters and spaces.
--   Models            packages/contracts/python/models.py: Task, TaskUpdate, ProjectEvent, …
--   Store, Store/*    services/memory/sqlite_store.py (SQLiteMemoryStore): the tables as lists of rows.
--                     Tasks: create_task, get_task, list_tasks, update_task. Events: events and baton
--                     packets. Runs: agent runs and notifications. Queue: enqueue_run_job,
--                     claim_next_run_job, complete_run_job. Workspaces: workspaces and snapshots.
--                     References: context references, their layers, and research findings.
--                     Order: ORDER BY and LIMIT. Keeps and Returns: invariants
--                     and postconditions of calls.
--   Router            services/router/policy.py: decide.
--   RunQueue          S/run_queue_service.py: enqueue, scan_once, _execute_claimed_job. Work, Settle,
--                     Drain, Scan and Runs hold its lemmas.
--   AgentRuns         S/agent_run_service.py: every operation; Results has get_run_result.
--   Execution         S/run_execution_service.py: what a run reads and what it is configured with.
--                     Providers: _provider_candidates, _complete_with_failover,
--                     _run_complete_with_timeout, _resolve_provider. Guards: the idempotency keys and
--                     _enforce_concurrency_limits. References: _store_text_reference and
--                     _store_run_output_reference. Execute: execute. Stream:
--                     stream_execute. LocalEcho: LocalEchoProvider of
--                     services/orchestrator/app/runs/providers.py. Queue: the interface of the worker,
--                     filled. The others hold lemmas: Frame and Whole say what a run leaves alone.
--   Context           services/orchestrator/app/context: schemas.py and compression_policy.py.
--                     References: retrieval_refs.py. Transform and Optimizer: optimizer.py. Sections
--                     and Fits hold lemmas.
--   Workspace         S/workspace_execution_utils.py: what a policy lets an action do. Profiles:
--                     S/workspace_policy_profiles.py. Packs: S/policy_packs.py. Resolver:
--                     S/execution_policy.py. Risk: verify_diff_risk of S/workspace_risk_service.py.
--                     Dispatch: S/workspace_action_dispatcher.py. The others hold lemmas.
--   Autonomy/Values   _event_int, _event_bool, _as_bool and _latest_event of S/autonomy_service.py.
--   Autonomy/Uuid     UUIDs as numbers, their texts, and parse_uuid of S/autonomy_text_utils.py.
--   Autonomy/Gate     S/autonomy_task_gate.py.
--   Autonomy/Stage    S/autonomy_stage_models.py, results, and the interface Services.
--   Autonomy/Strategy   S/autonomy_failure_policy.py.
--   Autonomy/Finalizer  S/autonomy_finalizer.py.
--   Autonomy/Taxonomy   S/autonomy_failure_handler.py.
--   Autonomy/Failures   S/autonomy_stage_failures.py.
--   Autonomy/Outcomes   S/autonomy_stage_outcomes.py, process and handle_failure of
--                       S/autonomy_stage_processor.py, and the two functions of
--                       S/autonomy_quality_gate.py about repeated failures.
--   Autonomy/Process    S/autonomy_service.py: process_task, process_pending_tasks_once, set_approval.
--                       Preferences: what it reads first, with resolve_autonomy_mode of
--                       S/autonomy_runtime_selector.py. Gates: the gates of the execute stage. Cycles:
--                       the cycles. Blocked: failed tasks. Approval: what the gates hold back. Verdict:
--                       what an approval opens. Retry: how long a retry waits.
--
-- A call is a function from the store to a result and a store: each statement is committed by itself,
-- so what was written before an exception stays. An exception is a value (Store.Error). Times are
-- numbers of microseconds, and the clock and the new UUIDs are functions of a counter in the store
-- (tick), which every reading moves. A UUID is its number.
--
-- Loops over lists are structural. The loop of scan_once has a bound of its own, min(max(limit, 1),
-- 100), which is the number of rounds of scan_rounds. Decimal texts are written with one round for
-- each unit and one more, which is more than the number of digits; a UUID has 32 digits. local_echo
-- cuts a text into pieces with a round for each character, and each piece has one at least.
--
-- Not modelled: the HTTP clients of services/orchestrator/app/runs and the assembly of the context,
-- which are parameters of Execution, and the workspace loop of S/run_execution_service.py; prompts, the
-- choice of provider and model, the scoring of the quality gate, plan artifacts, handoffs and subtasks,
-- which stand behind the interface Services of the autonomy loop; the saved context bundles; the loop
-- around the workspace dispatcher with its runners, files and processes; the analyst digest, metrics,
-- the Postgres store, the HTTP API, the clients and the infrastructure. textwrap.shorten, SHA-1 and
-- the error of pydantic are parameters of Context. Left out of what is modelled: the notes of the
-- autonomy results, sdlc_checked_count of a snapshot, the percentage of tokens that the optimizer saves,
-- the metadata and times of a context section, the lines of the log, the counters of the metrics, a
-- call of a provider that never ends, and UUIDs written with braces or prefixes.
--
-- The foreign keys of scripts/init_sqlite.sql are tested where a row is inserted (Store.refer), in every
-- table of the model but project_events, and a workspace that is deleted is taken out of the rows that refer to it.
-- save_project_event takes the task of an event to be there: its callers here have read the task, or a
-- row of it, and no task is ever deleted. For a missing task the source raises IntegrityError there.
pub mod Common
pub mod Models
pub mod Store
pub mod RunQueue
pub mod Router
pub mod AgentRuns
pub mod Autonomy
pub mod Execution
pub mod Workspace
pub mod Context
pub mod Samples
