-- ===== src/Orchestration/Workflow/Fuel.antt =====
-- The execution of a run is over after as many rounds of repair as the settings allow.
use multi_agent_aidlc.Common.{
  ℕ, zero, suc, ◌+◌, ◌<◌, String, ◌≡◌, refl, Bool, true, false, Option, none, some, List, [], ◌∷◌,
  Result, ok, err, arith, if◌then◌else◌,
}
use multi_agent_aidlc.Domain.{RunStatus, StageName, WorkflowRun}
use multi_agent_aidlc.Orchestration.Stage.{preflight, saved_for}
use multi_agent_aidlc.Storage.Database.Runs.{get_run}
use multi_agent_aidlc.Evaluation.{Floats}
use multi_agent_aidlc.Orchestration.Context.Key.{Settings}
use multi_agent_aidlc.Orchestration.Services.{Services}
use multi_agent_aidlc.Orchestration.Repair.{Progress, Round, release, again}
use multi_agent_aidlc.Orchestration.Workflow.{
  Ended, is_retry, ended, failed_at, unfinished, ended_of, repair_loop, go_round, finish, on_raise,
  all_saved, stage_attempt, reuse_or_run, starting_point, forward_stages, round, forward,
  forward_stage, deliver, body, handled, attempt_run, started, execute,
}
use multi_agent_aidlc.Orchestration.Workflow.Approval.{stage_of}
use multi_agent_aidlc.Orchestration.World.{
  Exit, returned, raised, World, Host, exit_of, pure, leaf, mark_run,
}
use multi_agent_aidlc.Orchestration.Workflow.Rounds.{
  IsFinished, Counted, proceed-IsFinished, at_stage-IsFinished, round-IsFinished, round-Counted,
}

module _ (host : Host) (settings : Settings) {floats : Floats} (threshold : floats.Float)
    (services : Services floats) where
  module _ (run : WorkflowRun) (retry_attempt : ℕ) where
    go_round-IsFinished :
        (next_round : Progress → World → Ended (List String) × World) (attempt : ℕ) (next : Round)
        (w : World)
        → Counted settings.max_evaluation_repair_attempts attempt next
        → ((p : Progress) (w : World)
            → p.attempt ≡ attempt + 1
            → attempt < settings.max_evaluation_repair_attempts
            → IsFinished (next_round p w))
        → IsFinished (go_round host settings threshold services run retry_attempt next_round next w)
    go_round-IsFinished next_round attempt (release ids) w c k = tt
    go_round-IsFinished next_round attempt (again p) w c k = k p w c.0 c.1

    -- The rounds left from an attempt on are as many as the settings.max_evaluation_repair_attempts allows, and the last.
    repair_loop-IsFinished :
        (fuel : ℕ) (p : Progress) (w : World)
        → settings.max_evaluation_repair_attempts < p.attempt + fuel
        → 0 < fuel
        → IsFinished (repair_loop host settings threshold services run retry_attempt fuel p w)
    unfolding repair_loop
    repair_loop-IsFinished zero p w enough some_left = elim some_left [ ]
    repair_loop-IsFinished (suc fuel) p w enough some_left =
        proceed-IsFinished (round host settings threshold services run retry_attempt p w) _
          (round-IsFinished host settings threshold services run retry_attempt p w)
          λ next w1 h.
            go_round-IsFinished
              (repair_loop host settings threshold services run retry_attempt fuel) p.attempt next
              w1 (round-Counted host settings threshold services run retry_attempt p w h)
              (λ p1 w2 counted below. repair_loop-IsFinished fuel p1 w2 (omega arith) (omega arith))

    forward_stage-IsFinished :
        (stage : StageName) (p : Progress) (w : World)
        → IsFinished (forward_stage host settings threshold services run retry_attempt stage p w)
    unfolding forward_stage
    forward_stage-IsFinished stage p w =
        at_stage-IsFinished stage
          (saved_for host settings services is_again run stage
            (stage_attempt host settings threshold services run retry_attempt stage p) w)
          _
          λ saved w1 _.
            at_stage-IsFinished stage
              (
                exit_of (
                    if is_again
                    then all_saved host settings threshold services run retry_attempt stage saved
                    else ok false),
                w1,
              )
              _
              λ reused w2 _.
                at_stage-IsFinished stage
                  (reuse_or_run host settings threshold services run retry_attempt stage p saved
                    reused w2)
                  _ (λ ids w3 _. tt)
      where
        is_again : Bool
        is_again = is_retry host settings threshold services run retry_attempt

    forward-IsFinished :
        (stages : List StageName) (p : Progress) (w : World)
        → IsFinished (forward host settings threshold services run retry_attempt stages p w)
    unfolding forward
    forward-IsFinished [] p w = tt
    forward-IsFinished (stage ∷ stages) p w =
        proceed-IsFinished
          (forward_stage host settings threshold services run retry_attempt stage p w) _
          (forward_stage-IsFinished stage p w) (λ p' w1 _. forward-IsFinished stages p' w1)

    deliver-IsFinished :
        (w : World)
        → IsFinished (
            deliver host settings threshold services run retry_attempt
              (suc settings.max_evaluation_repair_attempts)
              w)
    unfolding deliver
    deliver-IsFinished w =
        at_stage-IsFinished StageName.preflight
          (
            exit_of
                (starting_point host settings threshold services run retry_attempt w.db w.store),
            w,
          )
          _
          λ p w1 _.
            proceed-IsFinished
              (forward host settings threshold services run retry_attempt forward_stages p w1) _
              (forward-IsFinished forward_stages p w1)
              λ p2 w2 _.
                proceed-IsFinished
                  (repair_loop host settings threshold services run retry_attempt
                    (suc settings.max_evaluation_repair_attempts) p2 w2)
                  _
                  (repair_loop-IsFinished (suc settings.max_evaluation_repair_attempts) p2 w2
                    (omega arith) (omega arith))
                  λ ids w3 _.
                    at_stage-IsFinished StageName.release
                      (stage_of host settings threshold services run retry_attempt StageName.release
                        0 none false ids w3)
                      _
                      λ _ w4 _.
                        at_stage-IsFinished StageName.release
                          (mark_run host run.run_id RunStatus.completed (some StageName.release)
                            none w4)
                          _ (λ _ w5 _. ended_of-IsFinished _)
      where
        ended_of-IsFinished :
            {A : Type 0} (x : Exit A × World) → IsFinished (ended_of StageName.release x)
        ended_of-IsFinished (returned a, w) = tt
        ended_of-IsFinished (raised error, w) = tt

    stop_or_deliver-IsFinished :
        (stops : Bool) (w : World)
        → IsFinished (
            (if stops
                then finish {A = Unit {0}} tt
                else deliver host settings threshold services run retry_attempt
                    (suc settings.max_evaluation_repair_attempts))
              w)
    stop_or_deliver-IsFinished true w = tt
    stop_or_deliver-IsFinished false w = deliver-IsFinished w

    body-IsFinished :
        (w : World)
        → IsFinished (
            body host settings threshold services run retry_attempt
              (suc settings.max_evaluation_repair_attempts)
              w)
    unfolding body
    body-IsFinished w =
        at_stage-IsFinished StageName.preflight
          ((if is_retry host settings threshold services run retry_attempt
              then services.reconcile_run run.run_id
              else pure tt)
            w)
          _
          λ _ w1 _.
            at_stage-IsFinished StageName.preflight
              (mark_run host run.run_id RunStatus.running (some StageName.preflight) none w1) _
              λ _ w2 _.
                at_stage-IsFinished StageName.preflight (preflight host settings services run w2) _
                  λ _ w3 _.
                    at_stage-IsFinished StageName.preflight (exit_of (get_run run.run_id w3.db), w3)
                      _ λ refreshed w4 _. stop_or_deliver-IsFinished _ w4

    handled-some :
        (x : Ended (Unit {0}) × World)
        → IsFinished x
        → (r : Exit (Unit {0}) × World) × (handled host settings threshold services run
              retry_attempt x
            ≡ some r)
    handled-some (ended _, w) h = ((returned tt, w), refl)
    handled-some (failed_at stage error, w) h =
        (on_raise host settings threshold services run retry_attempt stage error w, refl)
    handled-some (unfinished, w) h = elim h [ ]

  -- An execution is over after one round more than `max_evaluation_repair_attempts`, from any
  -- attempt at which a retry takes it up, whatever the agents and the services do.
  pub execute_total :
      (run_id : String) (retry_attempt : ℕ) (w : World)
      → (r : Exit (Unit {0}) × World) × (execute host settings threshold services
            (suc settings.max_evaluation_repair_attempts)
            run_id
            retry_attempt
            w
          ≡ some r)
  unfolding execute attempt_run
  execute_total run_id retry_attempt w = over (get_run run_id w.db)
    where
      over :
          (found : Result (Option WorkflowRun))
          → (r : Exit (Unit {0}) × World) × (started host settings threshold services
                (suc settings.max_evaluation_repair_attempts)
                retry_attempt
                w
                found
              ≡ some r)
      over (err error) = ((raised (leaf error), w), refl)
      over (ok none) = ((returned tt, w), refl)
      over (ok (some run)) = handled-some run retry_attempt _ (body-IsFinished run retry_attempt w)
