-- ===== src/Evaluation/Verdicts.antt =====
-- What each outcome of `repair_decision` says of the reports, the person's verdict and the attempt.
use mathlib.Core.Path.{subst}
use multi_agent_aidlc.Common.{
  ℕ, ltb, ◌≡◌, ◌≢◌, ◌⊎◌, inl, inr, ◌<◌, ◌≤◌, true, Option, none, some, ok, refl, arith, >>=-eq-ok,
  Bool-cases,
}
use multi_agent_aidlc.Evaluation.{
  Floats, QualityGateReport, Verdict, HumanVerdict, Outcome, EvaluationReport, overall_score,
  decide_repair, machine_decision, repair_decision, repair_or_exhausted,
}

module _ (floats : Floats) where
  open floats use {Float, ge}

  -- The machine's reason to pass a delivery.
  pub record IsGood (gates : QualityGateReport) (evaluation : EvaluationReport floats)
      (threshold : Float) : Type 0 where
    pub verdict : gates.verdict ≡ Verdict.passed
    pub score : Float
    pub scored : overall_score floats evaluation ≡ ok (some score)
    pub enough : ge score threshold ≡ true

  -- A repair is asked for: by a person, or by the machine on reports that are complete.
  abbrev pub IsWanted : QualityGateReport → Option HumanVerdict → Type 0
  IsWanted gates human =
      (human ≡ some HumanVerdict.repair) ⊎ ((human ≡ none) × (gates.verdict ≢ Verdict.blocked))

  -- The reason for an outcome.
  pub Reason :
      QualityGateReport
      → EvaluationReport floats
      → (attempt limit : ℕ) → Float
      → Option HumanVerdict
      → Outcome
      → Type 0
  Reason gates evaluation attempt limit threshold human Outcome.passed =
      (human ≡ some HumanVerdict.accept) ⊎ ((human ≡ none) × IsGood gates evaluation threshold)
  Reason gates evaluation attempt limit threshold human Outcome.deferred =
      (human ≡ none)
      × ((gates.verdict ≡ Verdict.blocked)
          ⊎ ((gates.verdict ≡ Verdict.passed) × (overall_score floats evaluation ≡ ok none)))
  Reason gates evaluation attempt limit threshold human Outcome.repair =
      (attempt < limit) × IsWanted gates human
  Reason gates evaluation attempt limit threshold human Outcome.exhausted =
      (limit ≤ attempt) × IsWanted gates human

  pub Reason-repair :
      (gates : QualityGateReport) (evaluation : EvaluationReport floats) (attempt limit : ℕ)
      (threshold : Float) (human : Option HumanVerdict)
      → Reason gates evaluation attempt limit threshold human Outcome.repair
      → attempt < limit
  unfolding Reason
  Reason-repair gates evaluation attempt limit threshold human reason = reason.0

  repair_or_exhausted-Reason :
      (gates : QualityGateReport) (evaluation : EvaluationReport floats) (attempt limit : ℕ)
      (threshold : Float) (human : Option HumanVerdict)
      → IsWanted gates human
      → Reason gates evaluation attempt limit threshold human
          (repair_or_exhausted floats attempt limit)
  unfolding Reason
  repair_or_exhausted-Reason gates evaluation attempt limit threshold human wanted =
      elim (Bool-cases (ltb attempt limit)) [
        | inl below ↦ rw below (ground arith, wanted)
        | inr reached ↦ rw reached (ground arith, wanted)
      ]

  machine_decision-Reason :
      (gates : QualityGateReport) (evaluation : EvaluationReport floats) (attempt limit : ℕ)
      (threshold : Float) (verdict : Verdict) (score : Option Float)
      → gates.verdict ≡ verdict
      → overall_score floats evaluation ≡ ok score
      → Reason gates evaluation attempt limit threshold none
          (machine_decision floats verdict score attempt limit threshold)
  unfolding Reason machine_decision
  machine_decision-Reason gates evaluation attempt limit threshold Verdict.blocked score v s =
      (refl, inl v)
  machine_decision-Reason gates evaluation attempt limit threshold Verdict.failed score v s =
      repair_or_exhausted-Reason gates evaluation attempt limit threshold none
        (inr (refl, λ h. cc (v, h)))
  machine_decision-Reason gates evaluation attempt limit threshold Verdict.passed none v s =
      (refl, inr (v, s))
  machine_decision-Reason gates evaluation attempt limit threshold Verdict.passed (some score) v s =
      elim (Bool-cases (ge score threshold)) [
        | inl enough ↦
            rw enough
              (inr (refl, record { verdict = v; score = score; scored = s; enough = enough }))
        | inr short ↦ rw short (
            repair_or_exhausted-Reason gates evaluation attempt limit threshold none
              (inr (refl, λ h. cc (v, h))))
      ]

  decide_repair-Reason :
      (gates : QualityGateReport) (evaluation : EvaluationReport floats) (attempt limit : ℕ)
      (threshold : Float) (human : Option HumanVerdict) (score : Option Float)
      → overall_score floats evaluation ≡ ok score
      → Reason gates evaluation attempt limit threshold human
          (decide_repair floats gates.verdict score attempt limit threshold human)
  unfolding Reason decide_repair
  decide_repair-Reason gates evaluation attempt limit threshold (some HumanVerdict.accept) score s =
      inl refl
  decide_repair-Reason gates evaluation attempt limit threshold (some HumanVerdict.repair) score s =
      repair_or_exhausted-Reason gates evaluation attempt limit threshold _ (inl refl)
  decide_repair-Reason gates evaluation attempt limit threshold none score s =
      machine_decision-Reason gates evaluation attempt limit threshold gates.verdict score refl s

  -- Every outcome of the decision has its reason: a delivery passes by a person's acceptance, or with
  -- no person's verdict by passed gates and a score that reaches the threshold; it is deferred only
  -- without a person's verdict, on blocked gates or with passed gates and no score; it is repaired
  -- only below the attempt limit, and exhausted only at the limit, in both cases because a person
  -- asked for the repair or, with no person's verdict, on gates that are not blocked.
  pub repair_decision-Reason :
      (gates : QualityGateReport) (evaluation : EvaluationReport floats) (attempt limit : ℕ)
      (threshold : Float) (human : Option HumanVerdict) {outcome : Outcome}
      → repair_decision floats gates evaluation attempt limit threshold human ≡ ok outcome
      → Reason gates evaluation attempt limit threshold human outcome
  unfolding repair_decision
  repair_decision-Reason gates evaluation attempt limit threshold human h =
      let (score, scored, e) = >>=-eq-ok (overall_score floats evaluation) _ h in
      subst (Reason gates evaluation attempt limit threshold human) (cc e)
        (decide_repair-Reason gates evaluation attempt limit threshold human score scored)
