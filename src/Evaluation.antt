-- ===== src/Evaluation.antt =====
-- The evaluation of a delivery, src/aidlc/evaluation/models.py: rubric scores, the evaluation report
-- and the decision on repair. Python's floats are a parameter.
pub mod Verdicts
pub mod Gates
use multi_agent_aidlc.Common.{
  ℕ, String, Bool, true, false, not, ◌&&◌, ◌||◌, Option, none, some, List, [], ◌∷◌, Result, ok, err,
  ◌>>=◌, value_error, any, is_empty, ltb, if◌then◌else◌,
}

-- What the code uses of Python's floats: `statistics.fmean`, which raises on no data, and `>=`.
pub record Floats : Type 1 where
  pub Float : Type 0
  pub fmean : List Float → Result Float
  pub ge : Float → Float → Bool

pub data GateStatus : Type 0 where
  passed failed not_executed : GateStatus

pub record QualityGate : Type 0 where
  pub name : String
  pub status : GateStatus
  pub detail : String
  pub evidence_artifact_ids : List String

pub data Verdict : Type 0 where
  passed failed blocked : Verdict

pub record QualityGateReport : Type 0 where
  pub profile : String
  pub run_id : String
  pub repair_attempt : ℕ
  pub verdict : Verdict
  pub gates : List QualityGate
  pub source_artifact_ids : List String
  pub deferred_checks : List String

pub data EvaluationStatus : Type 0 where
  evaluated not_evaluated : EvaluationStatus

-- `Literal["accept", "repair"]`, the verdict of a person.
pub data HumanVerdict : Type 0 where
  accept repair : HumanVerdict

pub data Outcome : Type 0 where
  passed deferred repair exhausted : Outcome

abbrev pub present {ℓ} : {A : Type ℓ} → Option A → Bool
present none = false
present (some _) = true

-- `[x for x in xs if x is not None]`
abbrev pub present_values {ℓ} : {A : Type ℓ} → List (Option A) → List A
present_values [] = []
present_values (none ∷ xs) = present_values xs
present_values (some x ∷ xs) = x ∷ present_values xs

module _ (floats : Floats) where
  open floats use {Float, fmean, ge}

  pub record RubricScore : Type 0 where
    pub applicable : Bool
    pub score : Option Float
    pub rationale : String
    pub evidence_artifact_ids : List String

  -- `RubricScore.validate_applicability`
  unfoldable pub validate_applicability : RubricScore → Result RubricScore
  validate_applicability rubric =
      if rubric.applicable && not (present rubric.score)
      then err (value_error "An applicable rubric requires a score")
      else if not rubric.applicable && present rubric.score
      then err (value_error "A not-applicable rubric cannot publish a score")
      else ok rubric

  pub record EvaluationReport : Type 0 where
    pub status : EvaluationStatus
    pub requirement_coverage : Option RubricScore
    pub mvp_completeness : Option RubricScore
    pub usability : Option RubricScore
    pub architecture : Option RubricScore
    pub maintainability : Option RubricScore
    pub risk_acceptance : Option RubricScore
    pub summary : String
    pub recommended_repairs : List String
    pub quality_gates : Option QualityGateReport

  abbrev pub judgments : EvaluationReport → List (Option RubricScore)
  judgments report =
      report.requirement_coverage ∷ report.mvp_completeness ∷ report.usability ∷ report.architecture
      ∷ report.maintainability ∷ report.risk_acceptance ∷ []

  -- The scores of the applicable rubrics.
  abbrev pub applicable_scores : List (Option RubricScore) → List (Option Float)
  applicable_scores [] = []
  applicable_scores (none ∷ values) = applicable_scores values
  applicable_scores (some value ∷ values) =
      let rest = applicable_scores values in if value.applicable then value.score ∷ rest else rest

  unfoldable pub mean_score : List (Option Float) → Result (Option Float)
  mean_score [] = ok none
  mean_score (score ∷ scores) = do mean ← fmean (present_values (score ∷ scores)); ok (some mean)

  unfoldable pub score_values : EvaluationStatus → List (Option RubricScore) → Result (Option Float)
  unfolding mean_score
  score_values not_evaluated values =
      if any present values
      then err (value_error "An unevaluated report cannot publish rubric scores")
      else ok none
  score_values evaluated values =
      if any (λ value. not (present value)) values
      then err (value_error "An evaluated report requires all six rubric judgments")
      else mean_score (applicable_scores values)

  unfoldable pub overall_score : EvaluationReport → Result (Option Float)
  unfolding score_values
  overall_score report = score_values report.status (judgments report)

  -- `"repair" if attempt < limit else "exhausted"`
  abbrev pub repair_or_exhausted : ℕ → ℕ → Outcome
  repair_or_exhausted attempt limit =
      if ltb attempt limit then Outcome.repair else Outcome.exhausted

  -- The decision without a person's verdict.
  unfoldable pub machine_decision : Verdict → Option Float → ℕ → ℕ → Float → Outcome
  machine_decision blocked score attempt limit threshold = Outcome.deferred
  machine_decision failed score attempt limit threshold = repair_or_exhausted attempt limit
  machine_decision passed none attempt limit threshold = Outcome.deferred
  machine_decision passed (some score) attempt limit threshold =
      if ge score threshold then Outcome.passed else repair_or_exhausted attempt limit

  unfoldable pub decide_repair :
      Verdict → Option Float → ℕ → ℕ → Float → Option HumanVerdict → Outcome
  unfolding machine_decision
  decide_repair verdict score attempt limit threshold (some accept) = Outcome.passed
  decide_repair verdict score attempt limit threshold (some repair) =
      repair_or_exhausted attempt limit
  decide_repair verdict score attempt limit threshold none =
      machine_decision verdict score attempt limit threshold

  unfoldable pub repair_decision :
      QualityGateReport
      → EvaluationReport
      → (attempt limit : ℕ) → (threshold : Float) → Option HumanVerdict
      → Result Outcome
  unfolding decide_repair
  repair_decision gates evaluation attempt limit threshold human_decision = do
    score ← overall_score evaluation
    ok (decide_repair gates.verdict score attempt limit threshold human_decision)
