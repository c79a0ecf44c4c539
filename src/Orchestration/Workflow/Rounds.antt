-- ===== src/Orchestration/Workflow/Rounds.antt =====
-- One round of the repair loop: it ends, and goes on only below the limit, with the next attempt.
use mathlib.Core.Path.{subst}
use multi_agent_aidlc.Common.{
  ℕ, ◌+◌, ◌<◌, String, ◌≡◌, refl, ◌∙◌, false, List, [], ◌∷◌, Result, ok, err, arith,
}
use multi_agent_aidlc.Domain.{StageName, WorkflowRun}
use multi_agent_aidlc.Evaluation.{Floats, Outcome, overall_score}
use multi_agent_aidlc.Evaluation.Verdicts.{Reason, Reason-repair, repair_decision-Reason}
use multi_agent_aidlc.Orchestration.Context.Key.{Settings}
use multi_agent_aidlc.Orchestration.Services.{Services}
use multi_agent_aidlc.Orchestration.Repair.{
  Progress, Round, release, again, Evidence, evidence, decision_of, note_decision, act_on,
  request_repair, note_exhausted, decide,
}
use multi_agent_aidlc.Orchestration.Workflow.{
  Ended, is_retry, ended, failed_at, unfinished, proceed, ended_of, after_decision, repair_stages,
  round,
}
use multi_agent_aidlc.Orchestration.Workflow.Approval.{at_stage-ended, proceed-ended, stage_of}
use multi_agent_aidlc.Orchestration.World.{
  Exit, returned, raised, World, Host, Exec, continue, exit_of,
}

abbrev pub IsFinished : {A : Type 0} → Ended A × World → Type 0
IsFinished (ended _, w) = Unit {0}
IsFinished (failed_at _ _, w) = Unit {0}
IsFinished (unfinished, w) = ⊥

-- The value that a block returns, if it does, has the property.
abbrev Returns : {A : Type 0} → (A → Type 0) → Exit A × World → Type 0
Returns P (returned a, w) = P a
Returns P (raised _, w) = Unit {0}

module _ {A B : Type 0} where
  pub proceed-IsFinished :
      (x : Ended A × World) (rest : A → World → Ended B × World)
      → IsFinished x
      → ((a : A) (w : World) → x ≡ (ended a, w) → IsFinished (rest a w))
      → IsFinished (proceed x rest)
  proceed-IsFinished (ended a, w) rest h k = k a w refl
  proceed-IsFinished (failed_at stage error, w) rest h k = tt
  proceed-IsFinished (unfinished, w) rest h k = h

  pub at_stage-IsFinished :
      (stage : StageName) (x : Exit A × World) (rest : A → World → Ended B × World)
      → ((a : A) (w : World) → x ≡ (returned a, w) → IsFinished (rest a w))
      → IsFinished (proceed (ended_of stage x) rest)
  at_stage-IsFinished stage (returned a, w) rest k = k a w refl
  at_stage-IsFinished stage (raised error, w) rest k = tt

  continue-Returns :
      (P : B → Type 0) (x : Exit A × World) (rest : A → Exec B)
      → ((a : A) (w : World) → Returns P (rest a w))
      → Returns P (continue x rest)
  continue-Returns P (returned a, w) rest k = k a w
  continue-Returns P (raised error, w) rest k = tt

  asks-Returns :
      (P : B → Type 0) (r : Result A) (rest : A → Exec B) (w : World)
      → ((a : A) → r ≡ ok a → Returns P (rest a w))
      → Returns P (continue (exit_of r, w) rest)
  asks-Returns P (ok a) rest w k = k a refl
  asks-Returns P (err error) rest w k = tt

module _ {A : Type 0} where
  Returns-at :
      (P : A → Type 0) (x : Exit A × World) {a : A} {w : World}
      → Returns P x
      → x ≡ (returned a, w)
      → P a
  Returns-at P (returned b, w1) {a} h e = let same : b ≡ a = cc e in subst P same h
  Returns-at P (raised error, w) h e = cc e

-- A round after which the loop goes on: the attempt is counted, and was below the limit.
abbrev pub Counted : (limit attempt : ℕ) → Round → Type 0
Counted limit attempt (release _) = Unit {0}
Counted limit attempt (again p) = (p.attempt ≡ attempt + 1) × (attempt < limit)

module _ (host : Host) (settings : Settings) {floats : Floats} (threshold : floats.Float)
    (services : Services floats) where
  abbrev pub limit : ℕ
  limit = settings.max_evaluation_repair_attempts

  module _ (run_id : String) (p : Progress) (e : Evidence floats) where
    act_on-Counted :
        (outcome : Outcome) (w : World)
        → Reason floats e.gates e.evaluation p.attempt limit threshold e.human outcome
        → Returns
            (Counted limit p.attempt)
            (act_on floats host services settings threshold run_id p e outcome w)
    unfolding act_on
    act_on-Counted Outcome.passed w reason = tt
    act_on-Counted Outcome.deferred w reason = tt
    act_on-Counted Outcome.repair w reason =
        continue-Returns (Counted limit p.attempt)
          (request_repair floats host services settings threshold run_id p e w) _
          (λ _ _. (
            refl,
            Reason-repair floats e.gates e.evaluation p.attempt limit threshold e.human reason,
          ))
    act_on-Counted Outcome.exhausted w reason =
        continue-Returns (Counted limit p.attempt)
          (note_exhausted floats host services settings threshold run_id p w) _ (λ _ _. tt)

  decide-Counted :
      (run_id : String) (p : Progress) (w : World)
      → Returns
          (Counted limit p.attempt)
          (decide floats host services settings threshold run_id p w)
  unfolding decide decision_of
  decide-Counted run_id p w =
      asks-Returns (Counted limit p.attempt) (evidence floats host services run_id w.db w.store) _ w
        λ e read.
          asks-Returns (Counted limit p.attempt)
            (decision_of floats host services settings threshold p.attempt e) _ w
            λ outcome decided.
              asks-Returns (Counted limit p.attempt) (overall_score floats e.evaluation) _ w
                λ score scored.
                  continue-Returns (Counted limit p.attempt)
                    (note_decision floats host services settings threshold run_id p.attempt e score
                      outcome w)
                    _
                    (λ _ w1. act_on-Counted run_id p e outcome w1 (
                      repair_decision-Reason floats e.gates e.evaluation p.attempt limit threshold
                        e.human decided))

  module _ (run : WorkflowRun) (retry_attempt : ℕ) where
    repair_stages-IsFinished :
        (stages : List StageName) (p : Progress) (w : World)
        → IsFinished (repair_stages host settings threshold services run retry_attempt stages p w)
    unfolding repair_stages
    repair_stages-IsFinished [] p w = tt
    repair_stages-IsFinished (stage ∷ stages) p w =
        at_stage-IsFinished stage
          (stage_of host settings threshold services run retry_attempt stage p.attempt p.feedback
            false p.parent_ids w)
          _ (λ ids w1 _. repair_stages-IsFinished stages (record p { parent_ids = ids }) w1)

    repair_stages-attempt :
        (stages : List StageName) (p : Progress) (w : World) {p' : Progress} {w' : World}
        → repair_stages host settings threshold services run retry_attempt stages p w
          ≡ (ended p', w')
        → p'.attempt ≡ p.attempt
    unfolding repair_stages
    repair_stages-attempt [] p w h = ground (arith, h)
    repair_stages-attempt (stage ∷ stages) p w h =
        let (ids, w1, h1, k1) =
          at_stage-ended stage
            (stage_of host settings threshold services run retry_attempt stage p.attempt p.feedback
              false p.parent_ids w)
            _ h in
        repair_stages-attempt stages (record p { parent_ids = ids }) w1 k1

    abbrev repair_round : List StageName
    repair_round = StageName.implementation ∷ StageName.integration ∷ []

    after_decision-IsFinished :
        (next : Round) (w : World)
        → IsFinished (after_decision host settings threshold services run retry_attempt next w)
    after_decision-IsFinished (release ids) w = tt
    after_decision-IsFinished (again p) w =
        proceed-IsFinished
          (repair_stages host settings threshold services run retry_attempt repair_round p w) _
          (repair_stages-IsFinished repair_round p w) (λ p' w1 _. tt)

    after_decision-Counted :
        (attempt : ℕ) (next : Round) (w : World) {next' : Round} {w' : World}
        → Counted limit attempt next
        → after_decision host settings threshold services run retry_attempt next w
          ≡ (ended next', w')
        → Counted limit attempt next'
    after_decision-Counted attempt (release ids) w {next'} c h =
        let same : release ids ≡ next' = cc h in subst (Counted limit attempt) same c
    after_decision-Counted attempt (again p) w {next'} c h =
        let (p', w1, h1, k1) =
          proceed-ended
            (repair_stages host settings threshold services run retry_attempt repair_round p w) _
            h in
        let kept = repair_stages-attempt repair_round p w h1 in
        let same : again p' ≡ next' = cc k1 in subst (Counted limit attempt) same (kept ∙ c.0, c.1)

    module _ (p : Progress) (w : World) where
      abbrev evaluated : Exit (List String) × World
      evaluated =
          stage_of host settings threshold services run retry_attempt StageName.evaluation p.attempt
            p.feedback (is_retry host settings threshold services run retry_attempt) p.parent_ids w

      pub round-IsFinished :
          IsFinished (round host settings threshold services run retry_attempt p w)
      unfolding round
      round-IsFinished = at_stage-IsFinished StageName.evaluation evaluated _ λ ids w1 _.
          at_stage-IsFinished StageName.evaluation
            (decide floats host services settings threshold run.run_id
              (record p { parent_ids = ids }) w1)
            _ (λ next w2 _. after_decision-IsFinished next w2)

      pub round-Counted :
          {next : Round} {w' : World}
          → round host settings threshold services run retry_attempt p w ≡ (ended next, w')
          → Counted limit p.attempt next
      unfolding round
      round-Counted h =
          let (ids, w1, h1, k1) = at_stage-ended StageName.evaluation evaluated _ h in
          let p1 : Progress = record p { parent_ids = ids } in
          let (next1, w2, h2, k2) =
            at_stage-ended StageName.evaluation
              (decide floats host services settings threshold run.run_id p1 w1) _ k1 in
          after_decision-Counted p.attempt next1 w2
            (Returns-at (Counted limit p.attempt)
              (decide floats host services settings threshold run.run_id p1 w1)
              (decide-Counted run.run_id p1 w1) h2)
            k2
