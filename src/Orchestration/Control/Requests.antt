-- ===== src/Orchestration/Control/Requests.antt =====
-- What a retry that is accepted has checked and done, and that a run is canceled once.
use mathlib.Core.Path.{subst}
use multi_agent_aidlc.Common.{
  ℕ, ◌+◌, String, ◌≡◌, refl, sym, ap, ◌∙◌, ◌⊎◌, inl, inr, Bool, true, false, not, Option, none,
  some, List, [], ◌∷◌, Json, num, obj, field, end, Result, ok, err, >>=-eq-ok, Bool-cases, or_raise,
  guard, value_error, beq_refl, arith, ◌==◌, string_eq, assertion_error, if◌then◌else◌,
}
use multi_agent_aidlc.Common as Common
use multi_agent_aidlc.Domain.{RunStatus, WorkflowRun, ContextArtifact}
use multi_agent_aidlc.Storage.Database.State.{Db}
use multi_agent_aidlc.Storage.Database.Runs.{get_run}
use multi_agent_aidlc.Orchestration.Hub.{artifact_context}
use multi_agent_aidlc.Orchestration.Workflow.Approval.{continue-returned, asks-returned}
use multi_agent_aidlc.Orchestration.Workflow.Status.{mark_run-Shows, event-Shows, get_run-status}
use multi_agent_aidlc.Orchestration.World.{Exit, returned, raised, World, Host, mark_run, event}
use multi_agent_aidlc.Orchestration.Control.{
  TaskPhase, running, cancelling, over, Tasks, task_of, set_task, is_active, is_uncancelable,
  is_retryable, retries, retryable, with_task, phase_of_cancel, request_retry, retry,
  request_cancel, canceled, cancel,
}

pub task_of-set_task :
    (run_id : String) (phase : TaskPhase) (tasks : Tasks)
    → task_of run_id (set_task run_id phase tasks) ≡ some phase
task_of-set_task run_id phase [] = rw (beq_refl run_id) refl
task_of-set_task run_id phase ((key, old) ∷ tasks) = elim (Bool-cases (key == run_id)) [
  | inl hit ↦ rw hit (rw (beq_refl run_id) refl)
  | inr miss ↦ rw miss (rw miss (task_of-set_task run_id phase tasks))
]

-- The statuses from which a run is taken up again.
abbrev pub IsClosed : RunStatus → Type 0
IsClosed status =
    (status ≡ RunStatus.failed) ⊎ ((status ≡ RunStatus.blocked) ⊎ (status ≡ RunStatus.canceled))

is_retryable-IsClosed : (status : RunStatus) → is_retryable status ≡ true → IsClosed status
is_retryable-IsClosed RunStatus.failed h = inl refl
is_retryable-IsClosed RunStatus.blocked h = inr (inl refl)
is_retryable-IsClosed RunStatus.canceled h = inr (inr refl)
is_retryable-IsClosed RunStatus.pending h = cc h
is_retryable-IsClosed RunStatus.running h = cc h
is_retryable-IsClosed RunStatus.input_required h = cc h
is_retryable-IsClosed RunStatus.completed h = cc h

idle_of : (task : Option TaskPhase) → is_active task ≡ false → (task ≡ none) ⊎ (task ≡ some over)
idle_of none h = inl refl
idle_of (some over) h = inr refl
idle_of (some (running attempt)) h = cc h
idle_of (some (cancelling attempt)) h = cc h

-- The run of an accepted retry, before it.
pub record WasRetryable (host : Host) (run_id : String) (w : World) (tasks : Tasks) : Type 0 where
  pub before : WorkflowRun
  pub read : get_run run_id w.db ≡ ok (some before)
  pub closed : IsClosed before.status
  pub idle : (task_of run_id tasks ≡ none) ⊎ (task_of run_id tasks ≡ some over)
  pub context : List ContextArtifact
  pub intact : artifact_context host.hashing run_id w.db w.store ≡ ok context

guarded : (b : Bool) (e : Common.Error) {u : Unit {0}} → guard b e ≡ ok u → b ≡ true
guarded true e h = refl
guarded false e h = cc h

raised_not :
    {A : Type 0} (o : Option A) (e : Common.Error) {a : A} → or_raise o e ≡ ok a → o ≡ some a
raised_not none e h = cc h
raised_not (some b) e h = ground (arith, h)

retryable-ok :
    (run_id : String) (task : Option TaskPhase) (db : Db) {run : WorkflowRun}
    → retryable run_id task db ≡ ok run
    → (get_run run_id db ≡ ok (some run))
      × (is_retryable run.status ≡ true)
      × (is_active task ≡ false)
unfolding retryable
retryable-ok run_id task db {run} h =
    let (found, e, h1) = >>=-eq-ok (get_run run_id db) _ h in
    let (run1, e1, h2) = >>=-eq-ok (or_raise found (value_error "Run not found")) _ h1 in
    let (_, e2, h3) =
      >>=-eq-ok
        (guard (is_retryable run1.status)
          (value_error "Only failed, blocked, or canceled runs can be retried"))
        _ h2 in
    let (_, e3, h4) =
      >>=-eq-ok (guard (not (is_active task)) (value_error "This run still has an active workflow"))
        _ h3 in
    let same : run1 ≡ run = cc h4 in
    let idle = guarded _ _ e3 in
    (
      e ∙ ap ok (raised_not found _ e1 ∙ ap some same),
      subst (λ (r : WorkflowRun). is_retryable r.status ≡ true) same (guarded _ _ e2),
      ground (arith, idle),
    )

with_task-returned :
    (tasks : Tasks) (starts : ℕ → Tasks) (x : Exit (WorkflowRun × ℕ) × World) {run : WorkflowRun}
    {w' : World} {tasks' : Tasks}
    → with_task tasks starts x ≡ (returned run, w', tasks')
    → (attempt : ℕ) × (x ≡ (returned (run, attempt), w')) × (tasks' ≡ starts attempt)
with_task-returned tasks starts (raised error, w) h = cc h
with_task-returned tasks starts (returned (run1, attempt), w) {run} {w'} h =
    let same_run : run1 ≡ run = cc h in
    let same_world : w ≡ w' = cc h in
    (attempt, λ i. (returned (same_run i, attempt), same_world i), sym (cc h))

returned_parts :
    (run run' : WorkflowRun) (n n' : ℕ) {w w' : World}
    → (let x : Exit (WorkflowRun × ℕ) × World = (returned (run, n), w) in x)
      ≡ (returned (run', n'), w')
    → (run ≡ run') × (n ≡ n')
returned_parts run run' n n' h = (cc h, cc h)

module _ (host : Host) (run_id : String) (w : World) (tasks : Tasks) where
  -- A retry is accepted only for a run that failed, was blocked or was canceled, whose earlier task
  -- is over and whose current artifacts can all be read. The run is then pending, and its new task
  -- counts the retries that were asked for, itself included.
  pub retry-WasRetryable :
      {run : WorkflowRun} {w' : World} {tasks' : Tasks}
      → retry host run_id w tasks ≡ (returned run, w', tasks')
      → WasRetryable host run_id w tasks
        × (run.status ≡ RunStatus.pending)
        × (task_of run_id tasks' ≡ some (running (1 + retries run_id w.db)))
  unfolding retry request_retry
  retry-WasRetryable {run} h =
      let (attempt, e, next_tasks) =
        with_task-returned tasks (λ attempt. set_task run_id (running attempt) tasks)
          (request_retry host run_id (task_of run_id tasks) w) h in
      let (before, allowed, k1) =
        asks-returned (retryable run_id (task_of run_id tasks) w.db) _ w e in
      let (context, intact, k2) =
        asks-returned (artifact_context host.hashing run_id w.db w.store) _ w k1 in
      let (_, w1, marked, k3) =
        continue-returned (mark_run host run_id RunStatus.pending before.current_stage none w) _
          k2 in
      let (_, w2, noted, k4) =
        continue-returned
          (event host run_id "run.retry_requested"
            (obj (field "retry_attempt" (num (1 + retries run_id w.db)) end)) w1)
          _ k3 in
      let (result, reread, k5) =
        asks-returned
          (Common.◌>>=◌ (get_run run_id w2.db) (λ found. or_raise found assertion_error)) _ w2 k4 in
      let (found, e1, e2) = >>=-eq-ok (get_run run_id w2.db) _ reread in
      let (read, closed, idle) = retryable-ok run_id (task_of run_id tasks) w.db allowed in
      let (same_run, same_attempt) =
        returned_parts result run (1 + retries run_id w.db) attempt k5 in
      let pending =
        event-Shows host run_id RunStatus.pending run_id "run.retry_requested" _ w1
          (mark_run-Shows host run_id RunStatus.pending before.current_stage none w marked) noted in
      (
        record {
          before = before;
          read = read;
          closed = is_retryable-IsClosed before.status closed;
          idle = idle_of (task_of run_id tasks) idle;
          context = context;
          intact = intact;
        },
        shown_as _ pending
            (get_run-status run_id w2.db (e1 ∙ ap ok (raised_not found _ e2 ∙ ap some same_run))),
        ap (task_of run_id) next_tasks
            ∙ task_of-set_task run_id (running attempt) tasks
            ∙ ap (λ n. some (running n)) (sym same_attempt),
      )
    where
      shown_as :
          {o : Option RunStatus} (status : RunStatus)
          → (o ≡ none) ⊎ (o ≡ some RunStatus.pending)
          → o ≡ some status
          → status ≡ RunStatus.pending
      shown_as status (inl none_there) there = cc (none_there, there)
      shown_as status (inr pending) there = ground (arith, pending, there)

canceled-returned :
    (host : Host) (run_id : String) (tasks : Tasks) (x : Exit (Unit {0}) × World) {w' : World}
    {tasks' : Tasks}
    → canceled host run_id tasks x ≡ (returned true, w', tasks')
    → tasks' ≡ set_task run_id (phase_of_cancel (task_of run_id tasks)) tasks
canceled-returned host run_id tasks (raised error, w) h = cc h
canceled-returned host run_id tasks (returned _, w) h = sym (cc h)

phase_of_cancel-is_uncancelable :
    (task : Option TaskPhase) → is_uncancelable (some (phase_of_cancel task)) ≡ true
phase_of_cancel-is_uncancelable none = refl
phase_of_cancel-is_uncancelable (some (running attempt)) = refl
phase_of_cancel-is_uncancelable (some (cancelling attempt)) = refl
phase_of_cancel-is_uncancelable (some over) = refl

-- A cancellation that was taken up is not taken up again: a second one changes nothing.
pub cancel_again :
    (host : Host) (run_id : String) (w : World) (tasks : Tasks) {w' : World} {tasks' : Tasks}
    → cancel host run_id w tasks ≡ (returned true, w', tasks')
    → cancel host run_id w' tasks' ≡ (returned false, w', tasks')
unfolding cancel
cancel_again host run_id w tasks {w'} {tasks'} h =
    elim (Bool-cases (is_uncancelable (task_of run_id tasks))) [
      | inl refused ↦ cc (rw refused at h)
      | inr taken ↦
          let next =
            canceled-returned host run_id tasks (request_cancel host run_id w) (rw taken at h) in
          let phase =
            ap (task_of run_id) next
            ∙ task_of-set_task run_id (phase_of_cancel (task_of run_id tasks)) tasks in
          rw (ap is_uncancelable phase ∙ phase_of_cancel-is_uncancelable (task_of run_id tasks))
    ]
