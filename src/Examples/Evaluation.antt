-- ===== src/Examples/Evaluation.antt =====
-- The theorem on the repair decision at a concrete input, with whole numbers for the floats.
use multi_agent_aidlc.Common.{
  ℕ, ◌≡◌, refl, true, none, some, List, [], ◌∷◌, Result, ok, err, stop_iteration, leb,
}
use multi_agent_aidlc.Evaluation.{
  Floats, QualityGateReport, Verdict, EvaluationStatus, EvaluationReport, RubricScore, Outcome,
  repair_decision, overall_score,
}
use multi_agent_aidlc.Evaluation.Verdicts.{Reason, repair_decision-Reason}

abbrev pub whole : Floats
whole = record { Float = ℕ; fmean = mean; ge = λ a b. leb b a }
  where
    mean : List ℕ → Result ℕ
    mean [] = err stop_iteration
    mean (x ∷ xs) = ok x

abbrev pub gates : QualityGateReport
gates = record {
  profile = "python-stdlib-v1";
  run_id = "run_1";
  repair_attempt = 1;
  verdict = Verdict.passed;
  gates = [];
  source_artifact_ids = [];
  deferred_checks = [];
}

abbrev four : RubricScore whole
four = record { applicable = true; score = some 4; rationale = "good"; evidence_artifact_ids = [] }

abbrev pub report : EvaluationReport whole
report = record {
  status = EvaluationStatus.evaluated;
  requirement_coverage = some four;
  mvp_completeness = some four;
  usability = some four;
  architecture = some four;
  maintainability = some four;
  risk_acceptance = some four;
  summary = "summary";
  recommended_repairs = [];
  quality_gates = none;
}

below_threshold : repair_decision whole gates report 1 2 5 none ≡ ok Outcome.repair
unfolding repair_decision overall_score
below_threshold = refl

repair_decision-Reason_example : Reason whole gates report 1 2 5 none Outcome.repair
repair_decision-Reason_example =
    repair_decision-Reason whole gates report 1 2 5 none below_threshold
