-- ===== src/Orchestration/Workflow/Delivery.antt =====
-- A run that is delivered, step by step from the world in which it began.
use mathlib.Core.Path.{subst}
use multi_agent_aidlc.Common.{
  ℕ, String, ◌≡◌, refl, sym, Bool, true, false, none, some, List, [], ◌∷◌, map, str, obj, field,
  end, ok, if◌then◌else◌, nat_eq, ◌==◌, Result,
}
use multi_agent_aidlc.Domain.{RunStatus, StageName, WorkflowRun, ArtifactRecord, stage_text}
use multi_agent_aidlc.Evaluation.{Floats}
use multi_agent_aidlc.Orchestration.Context.Key.{Settings}
use multi_agent_aidlc.Orchestration.Services.{Services}
use multi_agent_aidlc.Orchestration.Stage.{saved_for, preflight}
use multi_agent_aidlc.Orchestration.Repair.{Progress}
use multi_agent_aidlc.Orchestration.Workflow.{
  ended, is_retry, all_saved, stage_attempt, reuse_or_run, forward_stage, forward, forward_stages,
  repair_loop, starting_point, deliver,
}
use multi_agent_aidlc.Orchestration.Workflow.Approval.{
  proceed-ended, continue-returned, ended_of-ended, at_stage-ended, asks_at-ended, stage_of, Rounds,
  repair_loop-Rounds,
}
use multi_agent_aidlc.Orchestration.World.{returned, World, Host, event, mark_run, pure}
use multi_agent_aidlc.Orchestration.Workflow.Status.{Shows, mark_run-Shows, event-Shows}

module _ (host : Host) (settings : Settings) {floats : Floats} (threshold : floats.Float)
    (services : Services floats) (run : WorkflowRun) (retry_attempt : ℕ) where
  -- The outputs of the stage that are reused, or those of a run of it.
  pub data Produced (stage : StageName) (p : Progress) (saved : List ArtifactRecord) (w : World)
      : List String → World → Type 0 where
    reused :
        (w' : World)
        → is_retry host settings threshold services run retry_attempt ≡ true
        → all_saved host settings threshold services run retry_attempt stage saved ≡ ok true
        → event host run.run_id "stage.reused" (obj (field "stage" (str (stage_text stage)) end)) w
          ≡ (returned tt, w')
        → Produced stage p saved w
            (map (λ (item : ArtifactRecord). item.metadata.artifact_id) saved)
            w'
    ran :
        (ids : List String) (w' : World)
        → stage_of host settings threshold services run retry_attempt stage
            (stage_attempt host settings threshold services run retry_attempt stage p)
            (if stage_attempt host settings threshold services run retry_attempt stage p == 0
              then none
              else p.feedback)
            (is_retry host settings threshold services run retry_attempt)
            p.parent_ids
            w
          ≡ (returned ids, w')
        → Produced stage p saved w ids w'

  -- The stages went by in order, each reused or run, from the first world to the second.
  pub data Forwarded : List StageName → Progress → World → Progress → World → Type 0 where
    nothing : (p : Progress) (w : World) → Forwarded [] p w p w
    through :
        (stage : StageName) (stages : List StageName) (p : Progress) (w : World)
        (saved : List ArtifactRecord) (found : World) (ids : List String) (w1 : World)
        (p' : Progress) (w' : World)
        → saved_for host settings services
            (is_retry host settings threshold services run retry_attempt)
            run
            stage
            (stage_attempt host settings threshold services run retry_attempt stage p)
            w
          ≡ (returned saved, found)
        → Produced stage p saved found ids w1
        → Forwarded stages (record p { parent_ids = ids }) w1 p' w'
        → Forwarded (stage ∷ stages) p w p' w'

  -- The start of a run: the reconciliation of a retry, the mark, and the preflight.
  pub record Begun (w w' : World) : Type 0 where
    pub prepared : World
    pub reconciled :
        (if is_retry host settings threshold services run retry_attempt
            then services.reconcile_run run.run_id
            else pure tt)
          w
        ≡ (returned tt, prepared)
    pub marked : World
    pub running :
        mark_run host run.run_id RunStatus.running (some StageName.preflight) none prepared
        ≡ (returned tt, marked)
    pub checked : preflight host settings services run marked ≡ (returned tt, w')

  -- A delivery from its first world to its last: the start, every stage in order, the rounds of
  -- evaluation up to an approval, then the release stage on what was approved, and the marks that
  -- complete the run. Each step takes the world that the one before it left.
  pub record Delivered (w w' : World) : Type 0 where
    pub ready : World
    pub begun : Begun w ready
    pub start : Progress
    pub started :
        starting_point host settings threshold services run retry_attempt ready.db ready.store
        ≡ ok start
    pub built : Progress
    pub staged : World
    pub forwarded : Forwarded (forward_stages) start ready built staged
    pub ids : List String
    pub approved_in : World
    pub rounds :
        Rounds host settings threshold services run retry_attempt built staged ids approved_in
    pub released : List String
    pub after : World
    pub release_ran :
        stage_of host settings threshold services run retry_attempt StageName.release 0 none false
          ids approved_in
        ≡ (returned released, after)
    pub marked : World
    pub completed :
        mark_run host run.run_id RunStatus.completed (some StageName.release) none after
        ≡ (returned tt, marked)
    pub noted : event host run.run_id "run.completed" (obj end) marked ≡ (returned tt, w')
    pub complete : Shows run.run_id RunStatus.completed w'.db.runs

  if_retry :
      (retry : Bool) (r : Result Bool)
      → (if retry then r else ok false) ≡ ok true
      → (retry ≡ true) × (r ≡ ok true)
  if_retry true r h = (refl, h)
  if_retry false r h = cc h

  reuse_or_run-Produced :
      (stage : StageName) (p : Progress) (saved : List ArtifactRecord) (reusable : Bool) (w : World)
      {ids : List String} {w' : World}
      → (if is_retry host settings threshold services run retry_attempt
          then all_saved host settings threshold services run retry_attempt stage saved
          else ok false)
        ≡ ok reusable
      → reuse_or_run host settings threshold services run retry_attempt stage p saved reusable w
        ≡ (returned ids, w')
      → Produced stage p saved w ids w'
  unfolding reuse_or_run
  reuse_or_run-Produced stage p saved true w {ids} {w'} e h =
      let (_, w1, noted, k) =
        continue-returned
          (event host run.run_id "stage.reused" (obj (field "stage" (str (stage_text stage)) end))
            w)
          _ h in
      let (retries, whole) = if_retry _ _ e in
      let same_ids : map (λ (item : ArtifactRecord). item.metadata.artifact_id) saved ≡ ids =
        cc k in
      let same_world : w1 ≡ w' = cc k in
      subst (λ z. Produced stage p saved w ids z) same_world
        (subst (λ z. Produced stage p saved w z w1) same_ids (reused w1 retries whole noted))
  reuse_or_run-Produced stage p saved false w {ids} {w'} e h = ran ids w' h

  forward-Forwarded :
      (stages : List StageName) (p : Progress) (w : World) {p' : Progress} {w' : World}
      → forward host settings threshold services run retry_attempt stages p w ≡ (ended p', w')
      → Forwarded stages p w p' w'
  unfolding forward forward_stage
  forward-Forwarded [] p w {p'} {w'} h =
      let same : p ≡ p' = cc h in
      let same_world : w ≡ w' = cc h in
      subst (λ z. Forwarded [] p w p' z) same_world
        (subst (λ z. Forwarded [] p w z w) same (nothing p w))
  forward-Forwarded (stage ∷ stages) p w {p'} {w'} h =
      let (p1, w1, h1, k1) =
        proceed-ended (forward_stage host settings threshold services run retry_attempt stage p w) _
          h in
      let (saved, w2, h2, k2) =
        at_stage-ended stage
          (saved_for host settings services
            (is_retry host settings threshold services run retry_attempt) run stage
            (stage_attempt host settings threshold services run retry_attempt stage p) w)
          _ h1 in
      let (reusable, e, k3) =
        asks_at-ended stage
          (if is_retry host settings threshold services run retry_attempt
            then all_saved host settings threshold services run retry_attempt stage saved
            else ok false)
          _ w2 k2 in
      let (ids, w3, h4, k4) =
        at_stage-ended stage
          (reuse_or_run host settings threshold services run retry_attempt stage p saved reusable
            w2)
          _ k3 in
      let same : record p { parent_ids = ids } ≡ p1 = cc k4 in
      let same_world : w3 ≡ w1 = cc k4 in
      through stage stages p w saved w2 ids w3 p' w' h2
        (reuse_or_run-Produced stage p saved reusable w2 e h4)
        (subst (λ z. Forwarded stages z w3 p' w') (sym same)
          (subst (λ z. Forwarded stages p1 z p' w') (sym same_world)
            (forward-Forwarded stages p1 w1 k1)))

  pub deliver-Delivered :
      (fuel : ℕ) (w0 w : World) {w' : World}
      → Begun w0 w
      → deliver host settings threshold services run retry_attempt fuel w ≡ (ended tt, w')
      → Delivered w0 w'
  unfolding deliver
  deliver-Delivered fuel w0 w begun h =
      let (p, started, k1) =
        asks_at-ended StageName.preflight
          (starting_point host settings threshold services run retry_attempt w.db w.store) _ w h in
      let (p2, w2, h2, k2) =
        proceed-ended
          (forward host settings threshold services run retry_attempt (forward_stages) p w) _ k1 in
      let (ids, w3, h3, k3) =
        proceed-ended (repair_loop host settings threshold services run retry_attempt fuel p2 w2) _
          k2 in
      let (released, w4, h4, k4) =
        at_stage-ended StageName.release
          (stage_of host settings threshold services run retry_attempt StageName.release 0 none
            false ids w3)
          _ k3 in
      let (_, w5, h5, k5) =
        at_stage-ended StageName.release
          (mark_run host run.run_id RunStatus.completed (some StageName.release) none w4) _ k4 in
      let noted = ended_of-ended StageName.release _ k5 in
      let completed =
        mark_run-Shows host run.run_id RunStatus.completed (some StageName.release) none w4 h5 in
      record {
        ready = w;
        begun = begun;
        start = p;
        started = started;
        built = p2;
        staged = w2;
        forwarded = forward-Forwarded (forward_stages) p w h2;
        ids = ids;
        approved_in = w3;
        rounds =
            repair_loop-Rounds host settings threshold services run retry_attempt fuel p2 w2 h3;
        released = released;
        after = w4;
        release_ran = h4;
        marked = w5;
        completed = h5;
        noted = noted;
        complete =
            event-Shows host run.run_id RunStatus.completed run.run_id "run.completed" (obj end) w5
              completed noted;
      }
