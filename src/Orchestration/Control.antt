-- ===== src/Orchestration/Control.antt =====
-- `retry` and `cancel` of src/aidlc/orchestration/workflow.py: the hub's table of tasks, beside the
-- world that its runs share.
pub mod Requests
use multi_agent_aidlc.Common.{
  ℕ, ◌+◌, String, Bool, true, false, not, ◌||◌, Option, none, some, List, [], ◌∷◌, Json, num, obj,
  field, end, Result, ok, err, value_error, assertion_error, or_raise, guard, length, select,
  if◌then◌else◌, ◌==◌, string_eq,
}
use multi_agent_aidlc.Common as Common
use multi_agent_aidlc.Domain.{
  RunStatus, RunStatus-discrete, run_status_eq, EventRecord, ContextArtifact, WorkflowRun,
}
use multi_agent_aidlc.Storage.Artifacts.{Store}
use multi_agent_aidlc.Storage.Database.State.{Db}
use multi_agent_aidlc.Storage.Database.Runs.{get_run}
use multi_agent_aidlc.Storage.Database.Events.{events_after}
use multi_agent_aidlc.Orchestration.Hub.{artifact_context}
use multi_agent_aidlc.Orchestration.World.{
  Exit, returned, raised, leaf, World, Host, Exec, ◌>>=◌, ◌>>◌, pure, asks, event, mark_run,
}

-- A task of the hub: `_execute` with its retry attempt, the same after `task.cancel()`, or done.
pub data TaskPhase : Type 0 where
  running cancelling : (retry_attempt : ℕ) → TaskPhase
  over : TaskPhase

-- `self._tasks`
abbrev pub Tasks : Type 0
Tasks = List (String × TaskPhase)

abbrev pub task_of : String → Tasks → Option TaskPhase
task_of run_id [] = none
task_of run_id ((key, phase) ∷ tasks) = if key == run_id then some phase else task_of run_id tasks

abbrev pub set_task : String → TaskPhase → Tasks → Tasks
set_task run_id phase [] = (run_id, phase) ∷ []
set_task run_id phase ((key, old) ∷ tasks) =
    if key == run_id then (run_id, phase) ∷ tasks else (key, old) ∷ set_task run_id phase tasks

-- `task is not None and not task.done()`
abbrev pub is_active : Option TaskPhase → Bool
is_active none = false
is_active (some over) = false
is_active (some (running _)) = true
is_active (some (cancelling _)) = true

-- `task is None or task.done() or task.cancelling()`
abbrev pub is_uncancelable : Option TaskPhase → Bool
is_uncancelable (some (running _)) = false
is_uncancelable _ = true

abbrev pub is_retryable : RunStatus → Bool
is_retryable RunStatus.failed = true
is_retryable RunStatus.blocked = true
is_retryable RunStatus.canceled = true
is_retryable _ = false

-- The retries that were asked for.
unfoldable pub retries : String → Db → ℕ
retries run_id db =
    length (
      select (λ (e : EventRecord). e.event_type == "run.retry_requested")
        (events_after run_id 0 db))

-- The run that is asked for, if it may be retried.
unfoldable pub retryable : String → Option TaskPhase → Db → Result WorkflowRun
retryable run_id task db = Common.◌>>=◌ (get_run run_id db) λ found.
    Common.◌>>=◌ (or_raise found (value_error "Run not found")) λ run.
      Common.◌>>=◌
        (guard (is_retryable run.status)
          (value_error "Only failed, blocked, or canceled runs can be retried"))
        λ _.
          Common.◌>>=◌
            (guard (not (is_active task)) (value_error "This run still has an active workflow"))
            λ _. ok run

abbrev pub with_task :
    Tasks → (ℕ → Tasks) → Exit (WorkflowRun × ℕ) × World → Exit WorkflowRun × World × Tasks
with_task tasks started (raised error, w) = (raised error, w, tasks)
with_task tasks started (returned (run, attempt), w) = (returned run, w, started attempt)

abbrev pub phase_of_cancel : Option TaskPhase → TaskPhase
phase_of_cancel (some (running attempt)) = cancelling attempt
phase_of_cancel (some (cancelling attempt)) = cancelling attempt
phase_of_cancel _ = over

module _ (host : Host) where
  -- `retry`, up to the task that it starts, and the attempt that this task gets. If the last
  -- reading fails, the task was started all the same; it cannot fail then.
  unfoldable pub request_retry : String → Option TaskPhase → Exec (WorkflowRun × ℕ)
  unfolding retryable
  request_retry run_id task = do
    run ← asks (λ db store. retryable run_id task db)
    _ ← asks (artifact_context host.hashing run_id)
    attempt ← asks (λ db store. ok (1 + retries run_id db))
    mark_run host run_id RunStatus.pending run.current_stage none
    event host run_id "run.retry_requested" (obj (field "retry_attempt" (num attempt) end))
    result ←
        asks
          (λ db store. Common.◌>>=◌ (get_run run_id db) (λ found. or_raise found assertion_error))
    pure (result, attempt)

  unfoldable pub retry : String → World → Tasks → Exit WorkflowRun × World × Tasks
  unfolding request_retry
  retry run_id w tasks =
      with_task tasks (λ attempt. set_task run_id (running attempt) tasks)
        (request_retry run_id (task_of run_id tasks) w)

  -- A run whose task has not begun is canceled at once.
  unfoldable pub cancel_pending : String → Option WorkflowRun → Exec (Unit {0})
  unfolding RunStatus-discrete
  cancel_pending run_id none = pure tt
  cancel_pending run_id (some run) =
      if run.status == RunStatus.pending
      then mark_run host run_id RunStatus.canceled run.current_stage none
      else pure tt

  unfoldable pub request_cancel : String → Exec (Unit {0})
  unfolding cancel_pending
  request_cancel run_id = do
    run ← asks (λ db store. get_run run_id db)
    cancel_pending run_id run
    event host run_id "run.cancellation_requested" (obj end)

  abbrev pub canceled : String → Tasks → Exit (Unit {0}) × World → Exit Bool × World × Tasks
  canceled run_id tasks (raised error, w) = (raised error, w, tasks)
  canceled run_id tasks (returned _, w) =
      (returned true, w, set_task run_id (phase_of_cancel (task_of run_id tasks)) tasks)

  unfoldable pub cancel : String → World → Tasks → Exit Bool × World × Tasks
  unfolding request_cancel
  cancel run_id w tasks =
      if is_uncancelable (task_of run_id tasks)
      then (returned false, w, tasks)
      else canceled run_id tasks (request_cancel run_id w)
