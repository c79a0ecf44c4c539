-- ===== src/Orchestration/Workflow/Conclusion.antt =====
-- How a run that was executed ends: under a terminal status, and complete only after an approval.
use mathlib.Core.Path.{subst}
use multi_agent_aidlc.Common.{
  ℕ, String, ◌≡◌, refl, sym, ap, Bool, true, false, inl, inr, Option, none, some, canceled_error,
  Result, ok, err, Bool-cases, eq_of_beq, arith, all, if◌then◌else◌,
}
use multi_agent_aidlc.Domain.{
  RunStatus, run_status_eq, StageName, WorkflowRun, terminal_run_statuses,
}
use multi_agent_aidlc.Storage.Database.Runs.{get_run}
use multi_agent_aidlc.Evaluation.{Floats}
use multi_agent_aidlc.Orchestration.Context.Key.{Settings}
use multi_agent_aidlc.Orchestration.Services.{Services}
use multi_agent_aidlc.Orchestration.Stage.{preflight}
use multi_agent_aidlc.Orchestration.Workflow.{
  Ended, ended, failed_at, unfinished, is_retry, deliver, is_stopped, finish, body,
  is_remote_cancel, failure_status, on_cancel, on_failure, on_raise, handled, attempt_run, started,
  execute,
}
use multi_agent_aidlc.Orchestration.Workflow.Approval.{at_stage-ended, asks_at-ended}
use multi_agent_aidlc.Orchestration.Workflow.Delivery.{Begun, Delivered, deliver-Delivered}
use multi_agent_aidlc.Orchestration.World.{
  Raised, leaf, leaf_errors, Exit, World, Host, pure, mark_run, mark_stage,
}
use multi_agent_aidlc.Orchestration.Workflow.Status.{
  Shows, mark_run-event-Shows, get_run-status, get_run-run_id,
}

module _ (host : Host) (settings : Settings) {floats : Floats} (threshold : floats.Float)
    (services : Services floats) where
  -- How the run ended, in the world that was left.
  pub data Conclusion (run : WorkflowRun) (retry_attempt : ℕ) (w0 w : World) : Type 0 where
    stopped :
        (refreshed : Option WorkflowRun)
        → get_run run.run_id w.db ≡ ok refreshed
        → is_stopped host settings threshold services run retry_attempt refreshed ≡ true
        → Conclusion run retry_attempt w0 w
    delivered :
        Delivered host settings threshold services run retry_attempt w0 w
        → Conclusion run retry_attempt w0 w
    canceled : Shows run.run_id RunStatus.canceled w.db.runs → Conclusion run retry_attempt w0 w
    failed : Shows run.run_id RunStatus.failed w.db.runs → Conclusion run retry_attempt w0 w

  module _ (run : WorkflowRun) (retry_attempt : ℕ) (w0 : World) where
    stop_or_deliver :
        (fuel : ℕ) (refreshed : Option WorkflowRun) (w : World) {w' : World}
        → Begun host settings threshold services run retry_attempt w0 w
        → get_run run.run_id w.db ≡ ok refreshed
        → (if is_stopped host settings threshold services run retry_attempt refreshed
              then finish {A = Unit {0}} tt
              else deliver host settings threshold services run retry_attempt fuel)
            w
          ≡ (ended tt, w')
        → Conclusion run retry_attempt w0 w'
    stop_or_deliver fuel refreshed w {w'} begun read h =
        elim (Bool-cases
          (is_stopped host settings threshold services run retry_attempt refreshed)) [
            | inl stop ↦
                let same : w ≡ w' = cc (rw stop at h) in
                subst (λ z. Conclusion run retry_attempt w0 z) same (stopped refreshed read stop)
            | inr go ↦ delivered (
                deliver-Delivered host settings threshold services run retry_attempt fuel w0 w begun
                  (rw go at h))
          ]

    body-Conclusion :
        (fuel : ℕ) {w' : World}
        → body host settings threshold services run retry_attempt fuel w0 ≡ (ended tt, w')
        → Conclusion run retry_attempt w0 w'
    unfolding body
    body-Conclusion fuel h =
        let (_, w1, h1, k1) =
          at_stage-ended StageName.preflight
            ((if is_retry host settings threshold services run retry_attempt
                then services.reconcile_run run.run_id
                else pure tt)
              w0)
            _ h in
        let (_, w2, h2, k2) =
          at_stage-ended StageName.preflight
            (mark_run host run.run_id RunStatus.running (some StageName.preflight) none w1) _ k1 in
        let (_, w3, h3, k3) =
          at_stage-ended StageName.preflight (preflight host settings services run w2) _ k2 in
        let (refreshed, read, k4) =
          asks_at-ended StageName.preflight (get_run run.run_id w3.db) _ w3 k3 in
        stop_or_deliver fuel refreshed w3
          (record { prepared = w1; reconciled = h1; marked = w2; running = h2; checked = h3 }) read
          k4

    of_status :
        (is_canceled : Bool) (w : World)
        → Shows run.run_id (if is_canceled then RunStatus.canceled else RunStatus.failed) w.db.runs
        → Conclusion run retry_attempt w0 w
    of_status true w shows = canceled shows
    of_status false w shows = failed shows

    on_failure-Conclusion :
        (stage : StageName) (error : Raised) (w : World)
        → Conclusion run retry_attempt w0
            (on_failure host settings threshold services run retry_attempt stage error w).1
    unfolding on_failure mark_stage
    on_failure-Conclusion stage error w = of_status (all is_remote_cancel (leaf_errors error)) _ (
        mark_run-event-Shows host run.run_id (failure_status (leaf_errors error)) (some stage) _ _ _
          _)

    on_raise-Conclusion :
        (stage : StageName) (error : Raised) (w : World)
        → Conclusion run retry_attempt w0
            (on_raise host settings threshold services run retry_attempt stage error w).1
    unfolding on_raise on_cancel mark_stage
    on_raise-Conclusion stage (leaf canceled_error) w =
        canceled (mark_run-event-Shows host run.run_id RunStatus.canceled (some stage) _ _ _ _)
    on_raise-Conclusion stage error w = on_failure-Conclusion stage error w

    handled-Conclusion :
        (end : Ended (Unit {0}) × World) {exit : Exit (Unit {0})} {w' : World}
        → ((w : World) → end ≡ (ended tt, w) → Conclusion run retry_attempt w0 w)
        → handled host settings threshold services run retry_attempt end ≡ some (exit, w')
        → Conclusion run retry_attempt w0 w'
    handled-Conclusion (ended _, w) {exit} {w'} good h =
        let same : w ≡ w' = cc h in
        subst (λ z. Conclusion run retry_attempt w0 z) same (good w refl)
    handled-Conclusion (failed_at stage error, w) {exit} {w'} good h =
        let same : on_raise host settings threshold services run retry_attempt stage error w
            ≡ (exit, w') =
          cc h in
        subst (λ z. Conclusion run retry_attempt w0 z.1) same (on_raise-Conclusion stage error w)
    handled-Conclusion (unfinished, w) good h = cc h

    shown :
        (run' : WorkflowRun) (w : World) {status : RunStatus}
        → Shows run.run_id status w.db.runs
        → get_run run.run_id w.db ≡ ok (some run')
        → run'.status ≡ status
    shown run' w (inl none_there) read = cc (none_there, get_run-status run.run_id w.db read)
    shown run' w (inr there) read = ground (arith, there, get_run-status run.run_id w.db read)

    blocked_if_stopped :
        (run' : WorkflowRun) (w : World) (refreshed : Option WorkflowRun)
        → get_run run.run_id w.db ≡ ok refreshed
        → is_stopped host settings threshold services run retry_attempt refreshed ≡ true
        → get_run run.run_id w.db ≡ ok (some run')
        → run'.status ≡ RunStatus.blocked
    unfolding is_stopped
    blocked_if_stopped run' w none e stop read = cc (e, read)
    blocked_if_stopped run' w (some refreshed) e stop read =
        let same : refreshed ≡ run' = cc (e, read) in
        subst (λ (r : WorkflowRun). r.status ≡ RunStatus.blocked) same
          (eq_of_beq refreshed.status RunStatus.blocked stop)

    Conclusion-terminal :
        (run' : WorkflowRun) (w : World)
        → Conclusion run retry_attempt w0 w
        → get_run run.run_id w.db ≡ ok (some run')
        → terminal_run_statuses run'.status ≡ true
    Conclusion-terminal run' w (stopped refreshed e stop) read =
        ap terminal_run_statuses (blocked_if_stopped run' w refreshed e stop read)
    Conclusion-terminal run' w (delivered d) read =
        ap terminal_run_statuses (shown run' w d.complete read)
    Conclusion-terminal run' w (canceled shows) read =
        ap terminal_run_statuses (shown run' w shows read)
    Conclusion-terminal run' w (failed shows) read =
        ap terminal_run_statuses (shown run' w shows read)

    Conclusion-Delivered :
        (run' : WorkflowRun) (w : World)
        → Conclusion run retry_attempt w0 w
        → get_run run.run_id w.db ≡ ok (some run')
        → run'.status ≡ RunStatus.completed
        → Delivered host settings threshold services run retry_attempt w0 w
    Conclusion-Delivered run' w (stopped refreshed e stop) read complete =
        cc (blocked_if_stopped run' w refreshed e stop read, complete)
    Conclusion-Delivered run' w (delivered d) read complete = d
    Conclusion-Delivered run' w (canceled shows) read complete =
        cc (shown run' w shows read, complete)
    Conclusion-Delivered run' w (failed shows) read complete =
        cc (shown run' w shows read, complete)

  module _ (fuel : ℕ) (run_id : String) (retry_attempt : ℕ) (w : World) {exit : Exit (Unit {0})}
      {w' : World} {run' : WorkflowRun} where
    started-Conclusion :
        (found : Result (Option WorkflowRun))
        → get_run run_id w.db ≡ found
        → started host settings threshold services fuel retry_attempt w found ≡ some (exit, w')
        → get_run run_id w'.db ≡ ok (some run')
        → (run : WorkflowRun) × (get_run run_id w.db ≡ ok (some run))
          × Conclusion run retry_attempt w w'
    unfolding attempt_run
    started-Conclusion (err error) e h read =
        let same : w ≡ w' = cc h in
        let read' = subst (λ (z : World). get_run run_id z.db ≡ ok (some run')) (sym same) read in
        cc (e, read')
    started-Conclusion (ok none) e h read =
        let same : w ≡ w' = cc h in
        let read' = subst (λ (z : World). get_run run_id z.db ≡ ok (some run')) (sym same) read in
        cc (e, read')
    started-Conclusion (ok (some run)) e h read = (
      run,
      e,
      handled-Conclusion run retry_attempt w
          (body host settings threshold services run retry_attempt fuel w)
          (λ w1 ended_there. body-Conclusion run retry_attempt w fuel ended_there) h,
    )

    -- A run that can be read when its execution is over has a terminal status, whatever the agents
    -- and the services answered or raised, and whatever changed while the hub waited for them.
    pub execute-terminal :
        execute host settings threshold services fuel run_id retry_attempt w ≡ some (exit, w')
        → get_run run_id w'.db ≡ ok (some run')
        → terminal_run_statuses run'.status ≡ true
    unfolding execute
    execute-terminal h read =
        let (run, e, c) = started-Conclusion _ refl h read in
        Conclusion-terminal run retry_attempt w run' w' c (rw (get_run-run_id run_id w.db e) read)

    -- If the run that was executed is then completed, this execution delivered it, from its first
    -- world to its last and with no other step between: the start and the preflight, every stage
    -- before the evaluation in order, run or reused, the rounds of evaluation and repair up to one
    -- whose decision by `repair_decision`, on the run's newest reports and what a person said of this
    -- very evaluation, was `passed` or `deferred`, then the release stage, which ran in the world that
    -- this approval left, on what the evaluation of that round produced, and the marks that complete the run.
    pub execute-Delivered :
        execute host settings threshold services fuel run_id retry_attempt w ≡ some (exit, w')
        → get_run run_id w'.db ≡ ok (some run')
        → run'.status ≡ RunStatus.completed
        → (run : WorkflowRun) × (get_run run_id w.db ≡ ok (some run))
          × Delivered host settings threshold services run retry_attempt w w'
    unfolding execute
    execute-Delivered h read complete =
        let (run, e, c) = started-Conclusion _ refl h read in
        (
          run,
          e,
          Conclusion-Delivered run retry_attempt w run' w' c
              (rw (get_run-run_id run_id w.db e) read) complete,
        )
