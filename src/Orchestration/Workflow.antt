-- ===== src/Orchestration/Workflow.antt =====
-- `WorkflowOrchestrator._execute` of src/aidlc/orchestration/workflow.py: a run from its preflight to
-- its release, and what an exception makes of it. `retry` and `cancel` stand in the child Control.
pub mod Status
pub mod Approval
pub mod Delivery
pub mod Conclusion
pub mod Rounds
pub mod Fuel
use multi_agent_aidlc.Common.{
  ℕ, zero, suc, String, Bool, true, false, not, ◌&&◌, ◌||◌, Option, none, some, List, [], ◌∷◌, Json,
  str, obj, field, end, Error, canceled_error, remote_task_canceled, Result, ok, err, find, map,
  all, length, if◌then◌else◌, ◌==◌, nat_eq, concat,
}
use multi_agent_aidlc.Common as Common
use multi_agent_aidlc.Domain.{
  RunStatus, RunStatus-discrete, run_status_eq, StageName, StageName-discrete, stage_name_eq,
  stage_text, ArtifactRecord, WorkflowRun,
}
use multi_agent_aidlc.Storage.Artifacts.{Store}
use multi_agent_aidlc.Storage.Database.State.{Db}
use multi_agent_aidlc.Storage.Database.Runs.{get_run}
use multi_agent_aidlc.Storage.Database.Index.{list_artifacts}
use multi_agent_aidlc.Evaluation.{Floats}
use multi_agent_aidlc.Orchestration.Context.Key.{Settings}
use multi_agent_aidlc.Orchestration.Hub.{artifact_context, is_completed}
use multi_agent_aidlc.Orchestration.Services.{Services}
use multi_agent_aidlc.Orchestration.Invocation.{StageCall}
use multi_agent_aidlc.Orchestration.Stage.{stage_agents, saved_for, run_stage, preflight}
use multi_agent_aidlc.Orchestration.Repair.{Progress, Round, release, again, resumed, decide}
use multi_agent_aidlc.Orchestration.World.{
  Raised, leaf, group, leaf_errors, Exit, returned, raised, World, Host, Exec, asks, exit_of, event,
  mark_run, mark_stage,
}
use multi_agent_aidlc.Orchestration.World as World

-- How the `try` block ends: with a value, or by an exception while `current_stage` stands at a stage.
-- `unfinished` is no end of the code: the fuel of the model was too little.
pub data Ended (A : Type 0) : Type 0 where
  ended : A → Ended A
  failed_at : StageName → Raised → Ended A
  unfinished : Ended A

abbrev pub Body : Type 0 → Type 0
Body A = World → Ended A × World

abbrev pub proceed : {A B : Type 0} → Ended A × World → (A → Body B) → Ended B × World
proceed (ended a, w) rest = rest a w
proceed (failed_at stage error, w) rest = (failed_at stage error, w)
proceed (unfinished, w) rest = (unfinished, w)

infixl 10 ◌>>=◌ ◌>>◌
abbrev pub ◌>>=◌ : {A B : Type 0} → Body A → (A → Body B) → Body B
◌>>=◌ first rest w = proceed (first w) rest

abbrev pub ◌>>◌ : {A B : Type 0} → Body A → Body B → Body B
first >> rest = first >>= λ _. rest

abbrev pub finish : {A : Type 0} → A → Body A
finish a w = (ended a, w)

abbrev pub ended_of : {A : Type 0} → StageName → Exit A × World → Ended A × World
ended_of stage (returned a, w) = (ended a, w)
ended_of stage (raised error, w) = (failed_at stage error, w)

-- A statement while `current_stage` stands at the stage.
abbrev pub at_stage : {A : Type 0} → StageName → Exec A → Body A
at_stage stage exec w = ended_of stage (exec w)

-- The stages before the evaluation.
abbrev pub forward_stages : List StageName
forward_stages =
    StageName.intake ∷ StageName.requirements ∷ StageName.discovery ∷ StageName.planning
    ∷ StageName.implementation ∷ StageName.integration ∷ []

abbrev pub is_repaired_stage : StageName → Bool
is_repaired_stage StageName.implementation = true
is_repaired_stage StageName.integration = true
is_repaired_stage _ = false

-- `isinstance(error, RemoteTaskCanceled)`
abbrev pub is_remote_cancel : Error → Bool
is_remote_cancel (remote_task_canceled _) = true
is_remote_cancel _ = false

abbrev pub failure_status : List Error → RunStatus
failure_status errors = if all is_remote_cancel errors then RunStatus.canceled else RunStatus.failed

abbrev pub status_event : RunStatus → String
status_event RunStatus.canceled = "run.canceled"
status_event _ = "run.failed"

abbrev pub join_texts : List String → String
join_texts [] = ""
join_texts (text ∷ []) = text
join_texts (text ∷ texts) = concat text (concat "; " (join_texts texts))

module _ (host : Host) (settings : Settings) {floats : Floats} (threshold : floats.Float)
    (services : Services floats) (run : WorkflowRun) (retry_attempt : ℕ) where
  abbrev pub is_retry : Bool
  is_retry = not (retry_attempt == 0)

  abbrev pub call_of : StageName → (repair_attempt : ℕ) → Option Json → StageCall
  call_of stage repair_attempt feedback = record {
    run = run;
    stage = stage;
    repair_attempt = repair_attempt;
    repair_feedback = feedback;
    retry_attempt = retry_attempt;
  }

  abbrev pub all_saved : StageName → List ArtifactRecord → Result Bool
  all_saved stage saved =
      Common.◌>>=◌ (is_completed stage (find (λ item. item.name == stage) run.stages)) λ completed.
        Common.◌>>=◌ (stage_agents stage) λ specs. ok (completed && length saved == length specs)

  abbrev pub stage_attempt : StageName → Progress → ℕ
  stage_attempt stage p = if is_repaired_stage stage then p.attempt else 0

  -- A stage whose outputs are all saved is passed over; any other runs.
  unfoldable pub reuse_or_run :
      StageName → Progress → List ArtifactRecord → (reused : Bool) → Exec (List String)
  reuse_or_run stage p saved true =
      World.◌>>=◌
        (event host run.run_id "stage.reused" (obj (field "stage" (str (stage_text stage)) end)))
        (λ _. World.pure (map (λ item. item.metadata.artifact_id) saved))
  reuse_or_run stage p saved false =
      run_stage host settings services
        (call_of stage (stage_attempt stage p)
          (if stage_attempt stage p == 0 then none else p.feedback))
        is_retry p.parent_ids

  -- One round of the loop over the stages before the evaluation.
  unfoldable pub forward_stage : StageName → Progress → Body Progress
  unfolding reuse_or_run
  forward_stage stage p = do
    saved ←
        at_stage stage (saved_for host settings services is_retry run stage (stage_attempt stage p))
    reused ← at_stage stage (asks λ db store. if is_retry then all_saved stage saved else ok false)
    ids ← at_stage stage (reuse_or_run stage p saved reused)
    finish (record p { parent_ids = ids })

  unfoldable pub forward : List StageName → Progress → Body Progress
  unfolding forward_stage
  forward [] p = finish p
  forward (stage ∷ stages) p = do p' ← forward_stage stage p; forward stages p'

  -- The stages of a repair run in full.
  unfoldable pub repair_stages : List StageName → Progress → Body Progress
  repair_stages [] p = finish p
  repair_stages (stage ∷ stages) p = do
    ids ←
        at_stage stage
          (run_stage host settings services (call_of stage p.attempt p.feedback) false p.parent_ids)
    repair_stages stages (record p { parent_ids = ids })

  abbrev pub after_decision : Round → Body Round
  after_decision (release ids) = finish (release ids)
  after_decision (again p) = do
    p' ← repair_stages (StageName.implementation ∷ StageName.integration ∷ []) p
    finish (again p')

  -- The body of `while True`.
  unfoldable pub round : Progress → Body Round
  unfolding repair_stages
  round p = do
    ids ← at_stage StageName.evaluation (
        run_stage host settings services (call_of StageName.evaluation p.attempt p.feedback)
          is_retry p.parent_ids)
    next ←
        at_stage StageName.evaluation (
          decide floats host services settings threshold run.run_id (record p { parent_ids = ids }))
    after_decision next

  abbrev pub go_round : (Progress → Body (List String)) → Round → Body (List String)
  go_round next (release ids) = finish ids
  go_round next (again p) = next p

  -- `while True`, for as many rounds as the fuel allows.
  unfoldable pub repair_loop : (fuel : ℕ) → Progress → Body (List String)
  unfolding round
  repair_loop zero p = λ w. (unfinished, w)
  repair_loop (suc fuel) p = round p >>= go_round (repair_loop fuel)

  -- `attempt`, `feedback` and `parent_ids` at the start of the loops.
  unfoldable pub starting_point : Db → Store → Result Progress
  starting_point db store =
      let ids = map (λ item. item.metadata.artifact_id) (list_artifacts run.run_id db) in
      if is_retry
      then Common.◌>>=◌ (artifact_context host.hashing run.run_id db store)
          (λ context. resumed context ids)
      else ok (record { attempt = 0; feedback = none; parent_ids = ids })

  -- The block after a preflight that lets the run go on.
  unfoldable pub deliver : (fuel : ℕ) → Body (Unit {0})
  unfolding repair_loop starting_point forward
  deliver fuel = do
    p ← at_stage StageName.preflight (asks starting_point)
    p' ← forward forward_stages p
    ids ← repair_loop fuel p'
    _ ←
        at_stage StageName.release
          (run_stage host settings services (call_of StageName.release 0 none) false ids)
    at_stage StageName.release
        (mark_run host run.run_id RunStatus.completed (some StageName.release) none)
    at_stage StageName.release (event host run.run_id "run.completed" (obj end))

  -- `refreshed is None or refreshed.status == RunStatus.BLOCKED`
  abbrev pub is_stopped : Option WorkflowRun → Bool
  unfolding RunStatus-discrete
  is_stopped none = true
  is_stopped (some refreshed) = refreshed.status == RunStatus.blocked

  -- The `try` block.
  unfoldable pub body : (fuel : ℕ) → Body (Unit {0})
  unfolding deliver
  body fuel = do
    at_stage StageName.preflight
        (if is_retry then services.reconcile_run run.run_id else World.pure tt)
    at_stage StageName.preflight
        (mark_run host run.run_id RunStatus.running (some StageName.preflight) none)
    at_stage StageName.preflight (preflight host settings services run)
    refreshed ← at_stage StageName.preflight (asks (λ db store. get_run run.run_id db))
    if is_stopped refreshed then finish tt else deliver fuel

  -- `except asyncio.CancelledError`
  unfoldable pub on_cancel : StageName → Exec (Unit {0})
  on_cancel stage = World.◌>>◌ (mark_stage host run.run_id stage RunStatus.canceled none) (
      World.◌>>◌ (mark_run host run.run_id RunStatus.canceled (some stage) none)
        (event host run.run_id "run.canceled" (obj (field "stage" (str (stage_text stage)) end))))

  -- `except Exception`
  unfoldable pub on_failure : StageName → Raised → Exec (Unit {0})
  on_failure stage error =
      let errors = leaf_errors error in
      let message = join_texts (map services.describe errors) in
      let status = failure_status errors in
      World.◌>>◌ (mark_stage host run.run_id stage status (some message)) (
        World.◌>>◌ (mark_run host run.run_id status (some stage) (some message)) (
          event host run.run_id (status_event status)
            (obj (field "stage" (str (stage_text stage)) (field "error" (str message) end)))))

  -- Which handler takes an exception.
  unfoldable pub on_raise : StageName → Raised → Exec (Unit {0})
  unfolding on_cancel on_failure
  on_raise stage (leaf canceled_error) = on_cancel stage
  on_raise stage error = on_failure stage error

  abbrev pub handled : Ended (Unit {0}) × World → Option (Exit (Unit {0}) × World)
  handled (ended _, w) = some (returned tt, w)
  handled (failed_at stage error, w) = some (on_raise stage error w)
  handled (unfinished, w) = none

  -- The `try` statement; `none` when the fuel was too little.
  unfoldable pub attempt_run : (fuel : ℕ) → World → Option (Exit (Unit {0}) × World)
  unfolding body on_raise
  attempt_run fuel w = handled (body fuel w)

module _ (host : Host) (settings : Settings) {floats : Floats} (threshold : floats.Float)
    (services : Services floats) where
  abbrev pub started :
      (fuel retry_attempt : ℕ)
      → World
      → Result (Option WorkflowRun)
      → Option (Exit (Unit {0}) × World)
  started fuel retry_attempt w (err error) = some (raised (leaf error), w)
  started fuel retry_attempt w (ok none) = some (returned tt, w)
  started fuel retry_attempt w (ok (some run)) =
      attempt_run host settings threshold services run retry_attempt fuel w

  -- `_execute`: a run that is not there is left alone.
  unfoldable pub execute :
      (fuel : ℕ) → String → (retry_attempt : ℕ) → World → Option (Exit (Unit {0}) × World)
  unfolding attempt_run
  execute fuel run_id retry_attempt w = started fuel retry_attempt w (get_run run_id w.db)
