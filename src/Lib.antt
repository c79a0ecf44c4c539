-- ===== src/Lib.antt =====
-- A model of the hub of the multi-agent AIDLC system: a Python program that turns an idea into a
-- delivered project by running specialist agents stage by stage (preflight, intake, requirements,
-- discovery, planning, implementation, integration, evaluation, release). The hub keeps runs,
-- stages, artifacts, events, delegated tasks and human interactions in an SQLite database, publishes
-- every artifact in a directory tree, gives each specialist the least context that its contract
-- declares, and decides after each evaluation whether the delivery passes or is repaired.
--
-- Parts, by file (paths from the repository's root):
--   Common       Boolean tests, lists under tests, exceptions as `Result`, texts, JSON values
--   Domain       src/aidlc/domain/models.py: enumerations (Kinds), records (Records), and the
--                path of a published directory (Paths)
--   Tools        src/aidlc/tools/models.py: `SourceFile` and `SourceBundle` with their validators
--   Storage      src/aidlc/storage: the snapshot kinds and their invalidation (Snapshots), the
--                published directories (Artifacts, `ArtifactStore`), the tables (Database,
--                `WorkflowDatabase`, one child per table)
--   Evaluation   src/aidlc/evaluation: reports, scores and `repair_decision` (models.py), and the
--                quality gates that judge the evidence of current artifacts (Gates, gates.py)
--   Agents       src/aidlc/agents: the contracts of the specialists (Catalog, catalog.py) and the
--                ownership and integration of source (Sources, source.py)
--   A2a          src/aidlc/a2a: durable tasks and the reservation of messages (TaskStore,
--                task_store.py), and the delegation of a stage to a remote agent with the
--                reconciliation of a restarted run (Client, client.py)
--   Orchestration  src/aidlc/orchestration: the projection of the artifacts to an agent's context
--                and the cache key (Context, context.py), and the methods of workflow.py: the token
--                budget of a phase (Budget), the reuse of earlier outputs and the marks of a stage
--                (Hub), what the hub publishes (Publish), the world that a run changes (World) and
--                the operations that it awaits (Services), the agents of a stage (Invocation,
--                Stage), the evaluation with its bounded repairs (Repair), a run from its start to
--                its last status (Workflow), retry and cancellation (Control), and the questions
--                that a person answers (Questions)
--   Human        src/aidlc/human.py: the surface that a prompt is drawn as
--   Examples     the theorems at concrete inputs
--
-- State and operations. A table is a list of rows in insertion order and the database a record of
-- them (`Db`); an operation is a function from the database to the next one, and raises by returning
-- `err`. The lock that the source holds over each operation makes it one step. A row that stores the
-- JSON of a model is the model. The artifact store is the list of its directories by path, with the
-- descriptor of each project. `accept_action` takes the function that publishes the response as a
-- parameter, as the source does, with the state that it changes. A time is a number, and the present
-- time and the new identifiers of `uuid4` are arguments. `hashlib` and `json.dumps` are the record
-- `Hashing`, and Python's floats the record `Floats`; no law of either is assumed. The digest of a
-- message, and whether a text is the pinned package file, are arguments too. A run is an `Exec`, a
-- function on the world of database and artifact store that returns a value or raises, with what was
-- written before a raise kept. What the hub awaits (an agent, a person, pydantic's validations) is a
-- record of operations on that world, and so are the SDK and the network that the client of a remote
-- agent calls. The orchestrator takes the judgment of the gates as one of these operations; the
-- judgment itself is `Evaluation.Gates.evaluate_gates`.
--
-- Bounds. `recover_interrupted_runs` reads at most ten thousand runs, as in the source; its theorem
-- has that bound as a hypothesis. The repair loop runs on fuel, max_evaluation_repair_attempts + 1,
-- which is proved enough. The waits for a person's answer and for the task of a remote agent take
-- fuel as well, since nothing bounds them in the source. Every other loop goes over a list.
--
-- Not modelled: the file system's failures, SQLite itself, the interleaving of asyncio tasks, the
-- HTTP servers, the model calls of the agents, the containers of the sandbox, and the user interface.
pub mod Common
pub mod Domain
pub mod Tools
pub mod Storage
pub mod Evaluation
pub mod Agents
pub mod Orchestration
pub mod Examples
pub mod A2a
pub mod Human
