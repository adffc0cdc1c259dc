-- ===== src/Lib.antt =====
-- Dayu Agent: a runtime that owns durable runs of a language-model agent.
--
-- A run is reserved in a session store, executed by the supervisor's task against a model provider
-- or a registered tool, and ends in one of four terminal statuses. Its events form a durable stream
-- that readers resume from a cursor. Several tasks, and several workers, share one store.
--
-- Which file models what (paths from the repository's root, under src/dayu_agent):
--   * Errors, Errors/Kinds, Errors/Codes: exceptions.py. A class is a constructor of `ErrorKind`, an
--     error value a `DayuAgentError`; `Failure` adds the KeyError of a dictionary, the
--     CancelledError of a task, and any other exception. A call that may raise is a `Result`.
--   * Runtime/State, Runtime/Transitions, Runtime/Result, Runtime/Session: runtime/state.py,
--     runtime/result.py and contracts/session.py.
--   * Memory/Store, Memory/Sessions, Memory/Runs, Memory/Lifecycle, Memory/Maintenance:
--     memory/store.py. `InMemorySessionStore` is the record `MemoryStore`, and each method is the
--     function of its name in the monad `Exec`, in which what was written before a raise stays.
--   * Memory/Calls: runtime/store.py. A `Call` is a method that changes the store with its arguments;
--     `Reach` and `Future` are what sequences of calls by any tasks lead to.
--   * Memory/Invariant, Memory/Cases, Memory/Entries, Memory/Interrupts, Memory/Pruning and
--     Memory/Contract: the store's invariant, and what its methods promise.
--   * Tools: tools/base.py, tools/permissions.py and tools/registry.py. Guardrails:
--     guardrails/base.py. Metrics: observability/metrics.py. Retry: runtime/retry.py.
--   * Supervisor: agents/supervisor.py. Agent is `SupervisorAgent` with its table of tasks, cancel,
--     initialize, shutdown and _task_done; Requests is _start and request_hash; Tasks are the moves
--     that the tasks and the calls of the supervisor make on the event loop. Commands is
--     _parse_tool_command, Work is _provider_request, _run_tool and _result_from_provider, Attempts
--     is _run_provider_with_retry, Answer is the work of a run made of these, Execution is
--     _execute_owned around any work, Watch is stream_run and _wait_for_result. Supervisor/Provider
--     holds the contract of providers/base.py. Admission, Halting, Recovery and Served, which rests
--     on Reserved, Granted, Owners, Custody, Starts, Moves and Stages, are about the table of tasks;
--     Spoken, Orderly and Answering are about the work of a run; Bounds, Replay, Endings, Settlement
--     and Watching are about the other parts.
--   * Providers: providers/base.py, providers/fake.py and providers/openai.py. Contract is what a
--     provider's generator may yield and raise, Fake and Openai are the two providers, Streams is
--     about what they yield and Consuming about what the supervisor makes of it.
--   * Database: database/store.py and database/models.py. Models holds the rows, Engine the
--     statements that the store sends, as a parameter with its documented laws, Transactions the
--     transaction with its `except` clauses; Transcripts, Reservations, Lifecycle and Sweeps hold the
--     methods of `SQLAlchemyRuntimeStore`. Outcomes, Numbering, Statements, Recording,
--     Commits, Replays, Entering, Ownership, Simulation, Updates and Refinement are about these.
--   * Prelude, Dict and Json: tests, lists, dictionaries and JSON values. Examples: tests, and inputs
--     at which the results apply.
--
-- How the program's world is modelled: the store's asyncio.Lock makes each method one step, so
-- concurrency is the order of calls, which the results quantify over. What uuid4 and utc_now return
-- is an argument (`Stamp`). Times and durations are natural numbers of a fixed small unit, of
-- which `Host.second` is a second. Copies are values. Floating-point numbers are an abstract type with an irreflexive order (`FloatArith`).
-- The validation library's schemas and its model_dump are arguments, as are the outcomes of tool
-- handlers, of provider calls and of the SDK's runs, and what other tasks do to the store between two
-- steps of a task.
--
-- Loops that the code writes as `while True` run on fuel: the retry loop needs one round for each
-- attempt that the budget has left, and the polling of a result one for each poll up to the
-- first that sees the run finished. A reader of a stream may go on for ever, so what it has yielded
-- after any number of rounds is its result.
--
-- A task is at one of four points: not entered, in its work, with an exception on its way to an
-- `except` clause, or done. Its work may raise anything at any time. A `task.cancel()` stays pending
-- until the task sees it, which may be never. `Move` allows every order of these steps.
--
-- Not modelled: the migrations of the database, the HTTP and command-line interfaces, settings, the
-- construction of the providers, logging, telemetry and tracing, all of which are input and output
-- through third-party libraries; the two builtin tools; and the methods of the supervisor that only
-- pass a call on to another. Execution takes the work of a run between its start and its commit as
-- an argument, so that its results hold for any work; Answer is the work of the program. The table
-- of tasks is modelled over the in-memory store, whose methods never suspend.
pub mod Database
pub mod Dict
pub mod Errors
pub mod Examples
pub mod Guardrails
pub mod Json
pub mod Memory
pub mod Metrics
pub mod Prelude
pub mod Providers
pub mod Retry
pub mod Runtime
pub mod Supervisor
pub mod Tools
