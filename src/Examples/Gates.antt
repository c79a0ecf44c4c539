-- ===== src/Examples/Gates.antt =====
-- The quality gates on a run with one source and the three reports on it.
use multi_agent_aidlc.Tools.Source.{validate_source}
use multi_agent_aidlc.Agents.Sources.{current_sources}
use multi_agent_aidlc.Common.{
  String, ◌≡◌, refl, Bool, true, false, none, some, [], ◌∷◌, List, Option, Json, null, bool, num,
  str, arr, obj, cons, nil, field, end, ok,
}
use multi_agent_aidlc.Domain.{StageName, ArtifactKind, AgentContext, ContextArtifact}
use multi_agent_aidlc.Evaluation.{Verdict}
use multi_agent_aidlc.Evaluation.Gates.{Validators, evaluate_gates}
use multi_agent_aidlc.Evaluation.Gates.Assurance.{IsAssured, evaluate_gates-IsAssured}
use multi_agent_aidlc.Examples.Data.{metadata, hashing}
use multi_agent_aidlc.Examples.Sources.{file_json}

abbrev same_value : Json → Json → Bool
same_value (obj _) (obj _) = true
same_value _ _ = false

abbrev has_value : Option Json → Bool
has_value (some (str _)) = true
has_value _ = false

abbrev lenient : Validators
lenient = record {
  requirements = λ content.
      ok (record { functional_requirements = null ∷ []; acceptance_criteria = null ∷ [] });
  analysis = λ report. ok (record { run_id = "run_1"; findings = [] });
  sandbox_execution = λ execution. ok tt;
  counts_tests = λ text. ok (has_value text);
  is_image = has_value;
  same_json = same_value;
  describe = λ e. "error";
  findings_text = λ findings. "Static analysis has findings";
}

abbrev execution : Json
execution = obj (
    field "runtime" (str "runc") (
      field "exit_code" (num 0) (
        field "cleanup_succeeded" (bool true) (
          field "timed_out" (bool false) (
            field "output_truncated" (bool false)
              (field "oom_killed" (bool false) (field "image" (str "sha256:0") end)))))))

abbrev published : String → ArtifactKind → String → List String → Json → ContextArtifact
published id kind agent parents content = record {
  metadata = record (metadata id kind StageName.evaluation agent) {
    parent_artifact_ids = parents;
    execution = execution;
    content_sha256 = "value";
  };
  content = content;
}

abbrev report_on : String → String → Json
report_on id_field hash_field = obj (
    field id_field (str "art_2") (
      field hash_field (str "value") (
        field "status" (str "completed")
          (field "stderr" (str "Ran 3 tests in 0.1s") (field "execution" execution end)))))

abbrev evidence_context : AgentContext
evidence_context = record {
  retry_attempt = 0;
  run_id = "run_1";
  idea = "An idea";
  stage = StageName.evaluation;
  artifacts =
      published "art_1" ArtifactKind.requirements_spec "requirements-agent" [] null
      ∷ published "art_2" ArtifactKind.code_change "backend-agent" []
          (obj (field "files" (arr (cons (file_json "backend/app.py") nil)) end))
      ∷ published "art_3" ArtifactKind.build_report "trusted-sandbox-service" ("art_2" ∷ [])
          (report_on "source_artifact_id" "source_sha256")
      ∷ published "art_4" ArtifactKind.test_report "trusted-sandbox-service" ("art_2" ∷ [])
          (report_on "source_artifact_id" "source_sha256")
      ∷ published "art_5" ArtifactKind.static_analysis_report "static-analysis-agent" ("art_2" ∷ [])
          (report_on "artifact_id" "content_sha256")
      ∷ [];
  human_response = none;
  repair_attempt = 0;
  repair_feedback = none;
  repair_artifact_id = none;
  repair_artifact_sha256 = none;
}

verdict_passes : (evaluate_gates lenient hashing evidence_context "runc").verdict ≡ Verdict.passed
unfolding evaluate_gates current_sources validate_source
verdict_passes = refl

evaluate_gates-IsAssured_example : IsAssured lenient hashing evidence_context "runc"
evaluate_gates-IsAssured_example =
    evaluate_gates-IsAssured lenient hashing evidence_context "runc" verdict_passes
