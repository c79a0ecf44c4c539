-- ===== src/Orchestration/Workflow/Approval.antt =====
-- The rounds of the repair loop, which is left only by an approval.
use mathlib.Core.Path.{subst}
use multi_agent_aidlc.Common.{
  ℕ, zero, suc, String, ◌≡◌, refl, ap, ◌∙◌, Bool, Option, List, [], ◌∷◌, Json, Result, ok, err,
  arith,
}
use multi_agent_aidlc.Domain.{run_status_eq, StageName, WorkflowRun}
use multi_agent_aidlc.Evaluation.{Floats, Outcome, overall_score}
use multi_agent_aidlc.Orchestration.Context.Key.{Settings}
use multi_agent_aidlc.Orchestration.Services.{Services}
use multi_agent_aidlc.Orchestration.Stage.{run_stage}
use multi_agent_aidlc.Orchestration.Repair.{
  Progress, Round, release, again, Evidence, evidence, decision_of, note_decision, act_on,
  request_repair, note_exhausted, decide,
}
use multi_agent_aidlc.Orchestration.Workflow.{
  Ended, is_retry, ended, failed_at, unfinished, proceed, ended_of, call_of, repair_loop, go_round,
  after_decision, repair_stages, round,
}
use multi_agent_aidlc.Orchestration.World.{
  Exit, returned, raised, World, Host, Exec, continue, exit_of,
}

module _ {A B : Type 0} where
  pub proceed-ended :
      (x : Ended A × World) (rest : A → World → Ended B × World) {b : B} {w' : World}
      → proceed x rest ≡ (ended b, w')
      → (a : A) × (w : World) × (x ≡ (ended a, w)) × (rest a w ≡ (ended b, w'))
  proceed-ended (ended a, w) rest h = (a, w, refl, h)
  proceed-ended (failed_at stage error, w) rest h = cc h
  proceed-ended (unfinished, w) rest h = cc h

  pub continue-returned :
      (x : Exit A × World) (rest : A → Exec B) {b : B} {w' : World}
      → continue x rest ≡ (returned b, w')
      → (a : A) × (w : World) × (x ≡ (returned a, w)) × (rest a w ≡ (returned b, w'))
  continue-returned (returned a, w) rest h = (a, w, refl, h)
  continue-returned (raised error, w) rest h = cc h

module _ {A : Type 0} where
  pub ended_of-ended :
      (stage : StageName) (x : Exit A × World) {a : A} {w : World}
      → ended_of stage x ≡ (ended a, w)
      → x ≡ (returned a, w)
  ended_of-ended stage (returned a, w) h = ground (arith, h)
  ended_of-ended stage (raised error, w) h = cc h

module _ {A B : Type 0} where
  pub at_stage-ended :
      (stage : StageName) (x : Exit A × World) (rest : A → World → Ended B × World) {b : B}
      {w' : World}
      → proceed (ended_of stage x) rest ≡ (ended b, w')
      → (a : A) × (w : World) × (x ≡ (returned a, w)) × (rest a w ≡ (ended b, w'))
  at_stage-ended stage (returned a, w) rest h = (a, w, refl, h)
  at_stage-ended stage (raised error, w) rest h = cc h

  pub asks_at-ended :
      (stage : StageName) (r : Result A) (rest : A → World → Ended B × World) (w : World) {b : B}
      {w' : World}
      → proceed (ended_of stage (exit_of r, w)) rest ≡ (ended b, w')
      → (a : A) × (r ≡ ok a) × (rest a w ≡ (ended b, w'))
  asks_at-ended stage (ok a) rest w h = (a, refl, h)
  asks_at-ended stage (err error) rest w h = cc h

  pub asks-returned :
      (r : Result A) (rest : A → Exec B) (w : World) {b : B} {w' : World}
      → continue (exit_of r, w) rest ≡ (returned b, w')
      → (a : A) × (r ≡ ok a) × (rest a w ≡ (returned b, w'))
  asks-returned (ok a) rest w h = (a, refl, h)
  asks-returned (err error) rest w h = cc h

-- The outcomes with which the loop is left for the release.
pub data IsApproval : Outcome → Type 0 where
  passed : IsApproval Outcome.passed
  deferred : IsApproval Outcome.deferred

module _ (host : Host) (settings : Settings) {floats : Floats} (threshold : floats.Float)
    (services : Services floats) where
  -- In the world `judged` the run's newest reports, with what a person said of them, were decided on
  -- with an approval, and with no step but the record of this decision between, the release of
  -- the identifiers that the round had reached began.
  pub record Approved (run : WorkflowRun) (p : Progress) (judged : World) (ids : List String)
      (released : World) : Type 0 where
    pub reports : Evidence floats
    pub read : evidence floats host services run.run_id judged.db judged.store ≡ ok reports
    pub score : Option floats.Float
    pub scored : overall_score floats reports.evaluation ≡ ok score
    pub outcome : Outcome
    pub decided : decision_of floats host services settings threshold p.attempt reports ≡ ok outcome
    pub approval : IsApproval outcome
    pub noted :
        note_decision floats host services settings threshold run.run_id p.attempt reports score
          outcome judged
        ≡ (returned tt, released)
    pub given : p.parent_ids ≡ ids

  module _ (run : WorkflowRun) where
    act_on-release :
        (p : Progress) (e : Evidence floats) (outcome : Outcome) (w : World) {ids : List String}
        {w' : World}
        → act_on floats host services settings threshold run.run_id p e outcome w
          ≡ (returned (release ids), w')
        → IsApproval outcome × (p.parent_ids ≡ ids) × (w ≡ w')
    unfolding act_on
    act_on-release p e Outcome.passed w h = (passed, cc h, cc h)
    act_on-release p e Outcome.deferred w h = (deferred, cc h, cc h)
    act_on-release p e Outcome.repair w h =
        let (p', w1, h1, again_h) =
          continue-returned
            (request_repair floats host services settings threshold run.run_id p e w) _ h in
        cc again_h
    act_on-release p e Outcome.exhausted w h =
        let (_, w1, h1, thrown) =
          continue-returned (note_exhausted floats host services settings threshold run.run_id p w)
            _ h in
        cc thrown

    decide-Approved :
        (p : Progress) (w : World) {ids : List String} {w' : World}
        → decide floats host services settings threshold run.run_id p w
          ≡ (returned (release ids), w')
        → Approved run p w ids w'
    unfolding decide
    decide-Approved p w h =
        let (e, read, k1) =
          asks-returned (evidence floats host services run.run_id w.db w.store) _ w h in
        let (outcome, decided, k2) =
          asks-returned (decision_of floats host services settings threshold p.attempt e) _ w k1 in
        let (score, scored, k3) = asks-returned (overall_score floats e.evaluation) _ w k2 in
        let (_, w1, noted, k4) =
          continue-returned
            (note_decision floats host services settings threshold run.run_id p.attempt e score
              outcome w)
            _ k3 in
        let (approval, given, same) = act_on-release p e outcome w1 k4 in
        record {
          reports = e;
          read = read;
          score = score;
          scored = scored;
          outcome = outcome;
          decided = decided;
          approval = approval;
          noted =
              noted
              ∙ ap (λ (z : World). let x : Exit (Unit {0}) × World = (returned tt, z) in x) same;
          given = given;
        }

  module _ (run : WorkflowRun) (retry_attempt : ℕ) where
    abbrev pub stage_of :
        StageName → ℕ → Option Json → (reuse : Bool) → List String → Exec (List String)
    stage_of stage attempt feedback =
        run_stage host settings services
          (call_of host settings threshold services run retry_attempt stage attempt feedback)

    -- The evaluation stage of a round ran, from the first world to the second.
    abbrev pub IsEvaluated : Progress → World → Progress → World → Type 0
    IsEvaluated p w p' judged =
        (ids : List String) × (stage_of StageName.evaluation p.attempt p.feedback
            (is_retry host settings threshold services run retry_attempt) p.parent_ids w
          ≡ (returned ids, judged))
        × (p' ≡ record p { parent_ids = ids })

    -- The rounds of evaluation and repair, one after the other, up to the one that approves.
    pub data Rounds : Progress → World → List String → World → Type 0 where
      approved :
          (p p' : Progress) (w judged : World) (ids : List String) (w' : World)
          → IsEvaluated p w p' judged
          → Approved run p' judged ids w'
          → Rounds p w ids w'
      repaired :
          (p p' : Progress) (w judged : World) (asked_for : Progress) (asked : World)
          (next : Progress) (w1 : World) (ids : List String) (w' : World)
          → IsEvaluated p w p' judged
          → decide floats host services settings threshold run.run_id p' judged
            ≡ (returned (again asked_for), asked)
          → repair_stages host settings threshold services run retry_attempt
              (StageName.implementation ∷ StageName.integration ∷ [])
              asked_for
              asked
            ≡ (ended next, w1)
          → Rounds next w1 ids w'
          → Rounds p w ids w'

    after_decision-Rounds :
        (next_round : Progress → World → Ended (List String) × World) (p p' : Progress)
        (w judged : World) (next : Round) (w2 : World) {found : Round} {w3 : World}
        {ids : List String} {w' : World}
        → IsEvaluated p w p' judged
        → decide floats host services settings threshold run.run_id p' judged ≡ (returned next, w2)
        → after_decision host settings threshold services run retry_attempt next w2
          ≡ (ended found, w3)
        → go_round host settings threshold services run retry_attempt next_round found w3
          ≡ (ended ids, w')
        → ((p1 : Progress) (w4 : World) → next_round p1 w4 ≡ (ended ids, w') → Rounds p1 w4 ids w')
        → Rounds p w ids w'
    after_decision-Rounds next_round p p' w judged (release ids1) w2 {found} {w3} {ids} {w'}
          evaluated decided h k later =
        let found_is : release ids1 ≡ found = cc h in
        let world_is : w2 ≡ w3 = cc h in
        let k' = rw (← found_is, ← world_is) at k in
        let same_ids : ids1 ≡ ids = cc k' in
        let same_world : w2 ≡ w' = cc k' in
        approved p p' w judged ids w' evaluated (
          subst (λ z. Approved run p' judged ids z) same_world
            (subst (λ z. Approved run p' judged z w2) same_ids
              (decide-Approved run p' judged decided)))
    after_decision-Rounds next_round p p' w judged (again p1) w2 {found} {w3} {ids} {w'} evaluated
          decided h k later =
        let (p2, w3', h3, k3) =
          proceed-ended
            (repair_stages host settings threshold services run retry_attempt
              (StageName.implementation ∷ StageName.integration ∷ []) p1 w2)
            _ h in
        let found_is : again p2 ≡ found = cc k3 in
        let world_is : w3' ≡ w3 = cc k3 in
        let k' = rw (← found_is, ← world_is) at k in
        repaired p p' w judged p1 w2 p2 w3' ids w' evaluated decided h3 (later p2 w3' k')

    round-Rounds :
        (next_round : Progress → World → Ended (List String) × World) (p : Progress) (w : World)
        (found : Round) (w3 : World) {ids : List String} {w' : World}
        → round host settings threshold services run retry_attempt p w ≡ (ended found, w3)
        → go_round host settings threshold services run retry_attempt next_round found w3
          ≡ (ended ids, w')
        → ((p1 : Progress) (w4 : World) → next_round p1 w4 ≡ (ended ids, w') → Rounds p1 w4 ids w')
        → Rounds p w ids w'
    unfolding round
    round-Rounds next_round p w found w3 h k later =
        let (ids, w1, h1, k1) =
          at_stage-ended StageName.evaluation
            (stage_of StageName.evaluation p.attempt p.feedback
              (is_retry host settings threshold services run retry_attempt) p.parent_ids w)
            _ h in
        let p1 : Progress = record p { parent_ids = ids } in
        let (next, w2, h2, k2) =
          at_stage-ended StageName.evaluation
            (decide floats host services settings threshold run.run_id p1 w1) _ k1 in
        after_decision-Rounds next_round p p1 w w1 next w2 (ids, h1, refl) h2 k2 k later

    pub repair_loop-Rounds :
        (fuel : ℕ) (p : Progress) (w : World) {ids : List String} {w' : World}
        → repair_loop host settings threshold services run retry_attempt fuel p w ≡ (ended ids, w')
        → Rounds p w ids w'
    unfolding repair_loop
    repair_loop-Rounds zero p w h = cc h
    repair_loop-Rounds (suc fuel) p w h =
        let (found, w1, h1, k1) =
          proceed-ended (round host settings threshold services run retry_attempt p w) _ h in
        round-Rounds (repair_loop host settings threshold services run retry_attempt fuel) p w found
          w1 h1 k1 (λ p1 w2 e. repair_loop-Rounds fuel p1 w2 e)
