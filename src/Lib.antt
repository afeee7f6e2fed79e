-- ===== src/Lib.antt =====
-- Pangi: planning, validating and executing the runs of an assistant.
--
-- A model of the core of the Python package under src/pangi, with proofs about it. A request becomes
-- a Run (domain/runs.py), whose states form a state machine. The Root model's decision is data of
-- application/contracts/orchestration.py; application/services/plan_validator.py accepts or rejects
-- it, and an accepted plan is prepared by application/contracts/orchestration_execution.py. A worker
-- that has claimed the Run executes the prepared plan: application/services/execution_engine.py calls
-- the transactions of adapters/outbound/persistence/sqlite/orchestration_execution.py, and hands over
-- an outcome for composition.
--
-- Files and the code that they model:
--   Prelude: the library names in use, and helpers on lists, sets, dictionaries, integers, results.
--   Text: Python's str as the contracts read it (strip, length, character classes), and datetime,
--     naive or aware, as a number of microseconds.
--   Runs: States, Contracts, Transitions and Outcome model domain/runs.py: its enumerations and
--     tables, the constructors' checks, transition_run and transition_step, resolve_step_outcome.
--     Validity, StepValidity, History, OutcomeLaws and Resolving hold the proofs.
--   Orchestration: Contracts models the contracts of a decision, Facts the JSON facts of a result,
--     Validator all methods of
--     OrchestratorPlanValidator. Order (with Loop, Termination, Completeness), CriticalPath,
--     Synthesis (the conditions on a synthesis task), Acceptance and Failures hold the proofs.
--   Execution: Contracts models the prepared plans, snapshots, requests and outcomes; World the state
--     of an execution; Store the transactions of SqliteOrchestrationExecutionStore on a claimed run,
--     Materialize the one that stores a plan; Engine models DependencyExecutionEngine. The other
--     modules hold the proofs: Preparation and Materialized for plans; Table, ValidSteps, Replacement,
--     Hoare, Transactions and Writes for rows and transactions; Lookup, Progress, Sweep, Operations, Working,
--     Outcomes, Selections, Rounds, Loop and Termination for the engine; Agreement for its outcome.
--   Queue: Contracts models application/contracts/run_queue.py, Events the RunEvent of domain/runs.py,
--     Database the tables runs, run_steps and run_events as the queue of
--     adapters/outbound/persistence/sqlite/runs.py reads and writes them, Store and
--     Recovering all operations of SqliteRunQueueStore, Service the RunQueueService of application/services/run_queue.py. Moves
--     states what the transitions of the domain allow; Invariant the well-formed queue; Writes what the
--     parts of an operation do; Exact, Order, Claiming, Cancelling, Cancelled, Leases and Holding
--     the operations on one Run; Settling, Requeueing, StepRecovery, Recovered, Recovery, Sorting and Expiry the recovery of leases; Served and
--     Safety all calls together.
--   Codec: Json, Plans and Results model the encodings in
--     application/contracts/orchestration_execution.py, with the proofs in RoundTrip, ResultRoundTrip
--     and Reading.
--   Requests: Store models create_or_replay of SqliteRunStore in
--     adapters/outbound/persistence/sqlite/runs.py, Service create_run and request_fingerprint of
--     application/services/runs.py, Access its get_run; Replay, Idempotency and
--     Reception (how a new Run joins the queue) hold the proofs.
--   The modules called Tests and Samples hold examples.
--
-- State and errors. A constructor that checks its fields (`__post_init__`) is a function *_init
-- from the record to a Result; an exception is the error of a Result and keeps its kind. Type
-- checks of Python (isinstance) are types here. The execution's state is a World: the number of
-- transactions so far, the stored plan, the latest attempt of every step in the plan's order, and
-- the run's row. A transaction reads the clock, then the run's row as other tasks have left it
-- (`interfere`: heartbeats, cancellation, recovery of leases), and checks the ownership of the
-- claim; the clock, the interference, the digest that makes step identifiers, the redactor,
-- json.dumps, and the executor of a task are parameters. What the engine relies on is written in
-- the records Ownership and Services.  Services asks of the redactor, the sizes and the error
-- codes only what concerns the results that are recorded for the plan's own tasks; whatever else
-- the redactor refuses does not matter. Ownership has a parameter L, which holds whenever another
-- task can take the claim away: with the empty type for L the claim is never lost, with the unit
-- type it can always be. The steps of a batch, which the code runs with asyncio.gather, run in the
-- batch's order here.
--
-- Fuel. The loop of _topological_order has one round more than there are tasks, and the engine's loop
-- one more than there are steps; both are proved to be enough.
--
-- The queue. A row of runs is kept as the Run that it decodes to, with its queue time; a
-- transaction is a function of the tables, and one that raises leaves them as they were. All
-- stored times are aware instants; SQLite's rounding of julianday to milliseconds is left out,
-- here and in the ownership check of the execution store.
--
-- Rows of steps. A row that is written or read goes through RunStep's constructor and the
-- snapshot's, as _step_from_row does it; so does the CHECK on error_code, which refuses nothing
-- that the constructor takes. The CHECK on the size of result_json is a test in finish_step; those
-- on the JSON of plans and tasks are left out. A retried attempt takes the interrupted row's
-- place, since older attempts are not read again. The facts of a result are JSON values already,
-- so that _json_value is the identity.
--
-- Not modelled: the attributes of events and their redaction, the events of the execution store,
-- the text of JSON, fingerprints and SQL, the result reducer, the listings of Runs, the tasks of
-- RunQueueRuntime (asyncio scheduling), model routing, guardrails, connections, authentication,
-- audit and the web adapters.
pub mod Prelude
pub mod Text
pub mod Runs
pub mod Orchestration
pub mod Execution
pub mod Queue
pub mod Codec
pub mod Requests
