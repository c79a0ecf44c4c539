-- ===== src/Evaluation/Gates.antt =====
-- src/aidlc/evaluation/gates.py: the quality gates, judged on the evidence of current artifacts alone.
pub mod Published
pub mod Checks
pub mod Evidence
pub mod Assurance
use multi_agent_aidlc.Common.{
  String, Bool, true, false, not, ◌&&◌, Option, none, some, List, [], ◌∷◌, ◌++◌, map, Json, num,
  bool, arr, Items, nil, cons, get, is_str, Error, Result, ok, err, ◌>>=◌, ◌>>◌, guard, or_raise,
  value_error, key_error, any, all, select, find_last, is_empty, concat, if◌then◌else◌, ◌==◌,
  string_eq, nat_eq,
}
use multi_agent_aidlc.Domain.{
  ArtifactKind, ArtifactKind-discrete, artifact_kind_eq, AgentContext, ContextArtifact, Hashing,
  content_digest, resolve_project,
}
use multi_agent_aidlc.Tools.Source.{validate_source, has_duplicate}
use multi_agent_aidlc.Agents.Sources.{current_sources, is_under}
use multi_agent_aidlc.Evaluation.{GateStatus, QualityGate, QualityGateReport, Verdict}

-- What pydantic reads of an analysis.
pub record Analysis : Type 0 where
  pub run_id : String
  pub findings : List Json

-- What pydantic reads of the requirements.
pub record Requirements : Type 0 where
  pub functional_requirements : List Json
  pub acceptance_criteria : List Json

-- pydantic's validations, the regular expressions, Python's `==` on JSON and `str` of an exception.
pub record Validators : Type 0 where
  pub requirements : Json → Result Requirements
  pub analysis : Json → Result Analysis
  pub sandbox_execution : Json → Result (Unit {0})
  -- `Ran [1-9][0-9]* tests? in `, on the text or ""; it raises on what is not a text.
  pub counts_tests : Option Json → Result Bool
  -- `sha256:[a-f0-9]{64}`, on the image of an execution that validates
  pub is_image : Option Json → Bool
  pub same_json : Json → Json → Bool
  pub describe : Error → String
  pub findings_text : List Json → String  -- the message with the number of findings

abbrev pub id_of : ContextArtifact → String
id_of item = item.metadata.artifact_id

abbrev pub ids_of : List ContextArtifact → List String
ids_of items = map (λ (item : ContextArtifact). item.metadata.artifact_id) items

abbrev pub has_text : String → List String → Bool
has_text text texts = any (λ t. t == text) texts

-- `list(dict.fromkeys(ids))`
abbrev pub distinct : List String → List String
distinct [] = []
distinct (id ∷ ids) = id ∷ select (λ other. not (other == id)) (distinct ids)

abbrev pub joined : (separator : String) → List String → String
joined separator [] = ""
joined separator (text ∷ []) = text
joined separator (text ∷ texts) = concat text (concat separator (joined separator texts))

-- `content.get("reports", [content])`, where anything but a list has none
abbrev pub reports_of : Json → Items
reports_of content = of_reports (get content "reports")
  where
    of_reports : Option Json → Items
    of_reports none = cons content nil
    of_reports (some (arr reports)) = reports
    of_reports (some _) = nil

abbrev pub other_deferred_checks : List String
other_deferred_checks =
    "integration and browser tests" ∷ "dependency and security scanning"
    ∷ "requirement-to-test coverage" ∷ "runsc/Kata comparison" ∷ []

-- The default of `QualityGateReport.deferred_checks`.
abbrev pub default_deferred_checks : List String
default_deferred_checks = "type checking" ∷ other_deferred_checks

abbrev pub is_zero : Option Json → Bool
is_zero (some (num n)) = n == 0
is_zero (some (bool b)) = not b
is_zero _ = false

abbrev pub is_bool : Bool → Option Json → Bool
is_bool true (some (bool b)) = b
is_bool false (some (bool b)) = not b
is_bool _ _ = false

-- The key by which a report of the kind names its source, and that of the source's hash.
unfoldable pub source_key : ArtifactKind → String
source_key ArtifactKind.static_analysis_report = "artifact_id"
source_key _ = "source_artifact_id"

unfoldable pub hash_key : ArtifactKind → String
hash_key ArtifactKind.static_analysis_report = "content_sha256"
hash_key _ = "source_sha256"

unfoldable pub trusted_producer : ArtifactKind → String
trusted_producer ArtifactKind.static_analysis_report = "static-analysis-agent"
trusted_producer _ = "trusted-sandbox-service"

-- The reports of one artifact that name the source.
abbrev pub naming : String → String → ContextArtifact → Items → List (ContextArtifact × Json)
naming key id artifact nil = []
naming key id artifact (cons report reports) =
    let rest = naming key id artifact reports in
    if is_str (get report key) id then (artifact, report) ∷ rest else rest

unfoldable pub candidates :
    ArtifactKind → String → List ContextArtifact → List (ContextArtifact × Json)
unfolding ArtifactKind-discrete source_key
candidates kind id [] = []
candidates kind id (artifact ∷ artifacts) =
    let rest = candidates kind id artifacts in
    if artifact.metadata.kind == kind
    then naming (source_key kind) id artifact (reports_of artifact.content) ++ rest
    else rest

abbrev pub last_of : List (ContextArtifact × Json) → Option (ContextArtifact × Json)
last_of items = find_last (λ _. true) items

-- What one source's evidence comes to.
pub data Finding : Type 0 where
  missing : Finding
  failed : Error → Finding
  fine : Finding

abbrev pub is_missing : Finding → Bool
is_missing missing = true
is_missing (failed _) = false
is_missing fine = false

abbrev pub is_failed : Finding → Bool
is_failed missing = false
is_failed (failed _) = true
is_failed fine = false

module _ (validators : Validators) where
  open validators use {
    requirements, analysis, sandbox_execution, counts_tests, is_image, same_json, describe,
    findings_text,
  }

  -- The part of `_check_report` for an analysis.
  abbrev pub check_analysis : ContextArtifact → Json → Result (Unit {0})
  check_analysis source report = do
    validated ← analysis report
    guard (validated.run_id == source.metadata.workflow_run_id)
        (value_error "Analysis belongs to another run")
    guard (is_empty validated.findings) (value_error (findings_text validated.findings))

  -- `re.search` runs on test reports only.
  abbrev pub tests_counted : ArtifactKind → Json → Result Bool
  unfolding ArtifactKind-discrete
  tests_counted kind report =
      if kind == ArtifactKind.test_report then counts_tests (get report "stderr") else ok true

  abbrev pub check_sandbox : ArtifactKind → ContextArtifact → Json → Result (Unit {0})
  check_sandbox kind artifact report = do
    execution ← or_raise (get report "execution") (key_error "execution")
    guard (same_json artifact.metadata.execution execution)
        (value_error "Sandbox manifest and report execution disagree")
    counted ← tests_counted kind report
    guard counted (value_error "No executed unittest count in the trusted worker output")

  unfoldable pub is_isolated : (runtime : String) → (status execution : Json) → Bool
  is_isolated runtime status execution =
      is_str (some status) "completed"
      && (is_str (get execution "runtime") runtime
          && (is_zero (get execution "exit_code")
              && (is_bool true (get execution "cleanup_succeeded")
                  && (is_bool false (get execution "timed_out")
                      && (is_bool false (get execution "output_truncated")
                          && (is_bool false (get execution "oom_killed")
                              && is_image (get execution "image")))))))

  -- `_check_report`
  unfoldable pub check_report :
      ArtifactKind
      → (source artifact : ContextArtifact) → Json
      → (runtime : String) → Result (Unit {0})
  unfolding ArtifactKind-discrete hash_key trusted_producer is_isolated
  check_report kind source artifact report runtime = do
    hash ← or_raise (get report (hash_key kind)) (key_error (hash_key kind))
    guard (is_str (some hash) source.metadata.content_sha256)
        (value_error "Evidence source hash mismatch")
    guard (has_text (id_of source) artifact.metadata.parent_artifact_ids)
        (value_error "Evidence manifest does not reference the source parent")
    guard (artifact.metadata.producing_agent == trusted_producer kind)
        (value_error "Evidence was not published by the trusted execution service")
    (if kind == ArtifactKind.static_analysis_report
        then check_analysis source report
        else check_sandbox kind artifact report)
    execution ← or_raise (get report "execution") (key_error "execution")
    sandbox_execution execution
    status ← or_raise (get report "status") (key_error "status")
    guard (is_isolated runtime status execution)
        (value_error "Execution failed, lacks pinned isolation evidence, or used another runtime")

  abbrev pub finding_of :
      ArtifactKind
      → (runtime : String) → ContextArtifact
      → Option (ContextArtifact × Json)
      → Finding
  finding_of kind runtime source none = missing
  finding_of kind runtime source (some (artifact, report)) =
      elim (check_report kind source artifact report runtime) [
        | ok _ ↦ fine
        | err error ↦ failed error
      ]

  -- The judgment of a source: by the last report that names it.
  unfoldable pub judge :
      ArtifactKind → (runtime : String) → List ContextArtifact → ContextArtifact → Finding
  unfolding candidates check_report
  judge kind runtime artifacts source =
      finding_of kind runtime source (last_of (candidates kind (id_of source) artifacts))

  abbrev pub status_of : (missing_any failed_any : Bool) → GateStatus
  status_of true failed_any = GateStatus.not_executed
  status_of false true = GateStatus.failed
  status_of false false = GateStatus.passed

  -- `failures`, and the sources without evidence
  abbrev pub failure_texts : List (ContextArtifact × Finding) → List String
  failure_texts [] = []
  failure_texts ((source, failed error) ∷ rest) =
      concat (id_of source) (concat ": " (describe error)) ∷ failure_texts rest
  failure_texts ((source, missing) ∷ rest) = failure_texts rest
  failure_texts ((source, fine) ∷ rest) = failure_texts rest

  abbrev pub missing_ids : List (ContextArtifact × Finding) → List String
  missing_ids [] = []
  missing_ids ((source, missing) ∷ rest) = id_of source ∷ missing_ids rest
  missing_ids ((source, failed error) ∷ rest) = missing_ids rest
  missing_ids ((source, fine) ∷ rest) = missing_ids rest

  abbrev pub missing_texts : List String → List String
  missing_texts [] = []
  missing_texts (id ∷ ids) =
      concat "Missing current-source evidence: " (joined ", " (id ∷ ids)) ∷ []

  abbrev pub detail_or : String → List String → String
  detail_or otherwise [] = otherwise
  detail_or otherwise (text ∷ texts) = joined "; " (text ∷ texts)

  abbrev pub evidence_ids : ArtifactKind → List ContextArtifact → List ContextArtifact → List String
  evidence_ids kind artifacts [] = []
  evidence_ids kind artifacts (source ∷ sources) =
      let rest = evidence_ids kind artifacts sources in
      elim (last_of (candidates kind (id_of source) artifacts)) [
        | none ↦ rest
        | some (artifact, report) ↦ id_of artifact ∷ rest
      ]

  -- `_execution_gate`
  unfoldable pub execution_gate :
      String
      → ArtifactKind
      → (sources artifacts : List ContextArtifact) → (runtime : String) → (ready : Bool)
      → QualityGate
  unfolding judge
  execution_gate name kind sources artifacts runtime false = record {
    name = name;
    status = GateStatus.not_executed;
    detail = "Requires executable source from every implementation specialist.";
    evidence_artifact_ids = [];
  }
  execution_gate name kind sources artifacts runtime true =
      let findings = map (λ source. (source, judge kind runtime artifacts source)) sources in
      record {
        name = name;
        status =
            status_of (any (λ source. is_missing (judge kind runtime artifacts source)) sources)
              (any (λ source. is_failed (judge kind runtime artifacts source)) sources);
        detail =
            detail_or
              (concat "Current-source "
                (concat name (concat " evidence passes under " (concat runtime "."))))
              (failure_texts findings ++ missing_texts (missing_ids findings));
        evidence_artifact_ids = distinct (evidence_ids kind artifacts sources);
      }

  abbrev pub check_requirements : Json → Result (Unit {0})
  check_requirements content = do
    spec ← requirements content
    guard (not (is_empty spec.functional_requirements) && not (is_empty spec.acceptance_criteria))
        (value_error "Requirements and acceptance criteria must be nonempty")

  abbrev pub requirements_judged : ContextArtifact → Result (Unit {0}) → QualityGate
  requirements_judged latest (ok _) = record {
    name = "requirements_schema";
    status = GateStatus.passed;
    detail = "Requirements schema and acceptance criteria validate.";
    evidence_artifact_ids = id_of latest ∷ [];
  }
  requirements_judged latest (err error) = record {
    name = "requirements_schema";
    status = GateStatus.failed;
    detail = describe error;
    evidence_artifact_ids = id_of latest ∷ [];
  }

  unfoldable pub requirements_gate : Option ContextArtifact → QualityGate
  requirements_gate none = record {
    name = "requirements_schema";
    status = GateStatus.not_executed;
    detail = "No requirements artifact is available.";
    evidence_artifact_ids = [];
  }
  requirements_gate (some latest) = requirements_judged latest (check_requirements latest.content)

  abbrev pub is_bundle : ContextArtifact → Bool
  is_bundle item = elim (validate_source item.content) [ ok _ ↦ true | err _ ↦ false ]

  -- All current source is there and validates.
  abbrev pub is_ready : List ContextArtifact → Bool
  is_ready sources = not (is_empty sources) && all is_bundle sources

  abbrev pub source_gate : List ContextArtifact → QualityGate
  source_gate sources = record {
    name = "executable_source";
    status = if is_ready sources then GateStatus.passed else GateStatus.not_executed;
    detail =
        if is_ready sources
        then "Current project source is a validated Python/React bundle."
        else "Current implementation includes proposals or unsupported/missing source.";
    evidence_artifact_ids = ids_of sources;
  }

  abbrev pub is_not_executed : QualityGate → Bool
  is_not_executed gate = is_unrun gate.status
    where
      is_unrun : GateStatus → Bool
      is_unrun GateStatus.not_executed = true
      is_unrun _ = false

  abbrev pub is_failed_gate : QualityGate → Bool
  is_failed_gate gate = is_failure gate.status
    where
      is_failure : GateStatus → Bool
      is_failure GateStatus.failed = true
      is_failure _ = false

  unfoldable pub verdict_of : List QualityGate → Verdict
  verdict_of gates =
      if any is_not_executed gates
      then Verdict.blocked
      else if any is_failed_gate gates
      then Verdict.failed
      else Verdict.passed

  abbrev pub has_ui : ContextArtifact → Bool
  has_ui item = elim (validate_source item.content) [
    | ok files ↦ any (λ file. is_under "ui/" file) files
    | err _ ↦ false
  ]

  module _ (hashing : Hashing) where
    abbrev pub is_intact : (run_id : String) → ContextArtifact → Bool
    is_intact run_id item =
        item.metadata.workflow_run_id == run_id
        && content_digest hashing item.content == item.metadata.content_sha256

    -- `ArtifactMetadata.model_validate`, whose validator checks the project, and the comparison.
    unfoldable pub check_artifact : String → ContextArtifact → Result (Unit {0})
    unfolding resolve_project
    check_artifact run_id item = do
      _ ← resolve_project hashing item.metadata.project_id item.metadata.workflow_run_id
      guard (is_intact run_id item) (value_error "Artifact run identity or content hash mismatch")

    abbrev pub check_each : String → List ContextArtifact → Result (Unit {0})
    check_each run_id [] = ok tt
    check_each run_id (item ∷ items) = do check_artifact run_id item; check_each run_id items

    -- The checks on every artifact, before any gate.
    unfoldable pub check_integrity : String → List ContextArtifact → Result (Unit {0})
    unfolding check_artifact has_duplicate
    check_integrity run_id artifacts = do
      check_each run_id artifacts
      guard (not (has_duplicate (ids_of artifacts))) (value_error "Duplicate artifact identity")

    abbrev pub latest_requirements : List ContextArtifact → Option ContextArtifact
    unfolding ArtifactKind-discrete
    latest_requirements artifacts =
        find_last (λ item. item.metadata.kind == ArtifactKind.requirements_spec) artifacts

    abbrev pub all_gates : (runtime : String) → List ContextArtifact → List QualityGate
    all_gates runtime artifacts =
        let sources = current_sources artifacts in
        let executable = select is_bundle sources in
        let gate = λ (name : String) (kind : ArtifactKind).
          execution_gate name kind executable artifacts runtime (is_ready sources) in
        record {
          name = "artifact_integrity";
          status = GateStatus.passed;
          detail = "Input manifests, run identity, and content hashes validate.";
          evidence_artifact_ids = ids_of artifacts;
        }
        ∷ requirements_gate (latest_requirements artifacts)
        ∷ source_gate sources
        ∷ gate "build" ArtifactKind.build_report
        ∷ gate "unit_tests" ArtifactKind.test_report
        ∷ gate "static_analysis" ArtifactKind.static_analysis_report
        ∷ []

    abbrev pub judged : AgentContext → (runtime : String) → Result (Unit {0}) → QualityGateReport
    judged context runtime (err error) = record {
      profile = "python-stdlib-v1";
      run_id = context.run_id;
      repair_attempt = context.repair_attempt;
      verdict = Verdict.blocked;
      gates =
          record {
            name = "artifact_integrity";
            status = GateStatus.failed;
            detail = describe error;
            evidence_artifact_ids = [];
          }
          ∷ [];
      source_artifact_ids = [];
      deferred_checks = default_deferred_checks;
    }
    judged context runtime (ok _) =
        let executable = select is_bundle (current_sources context.artifacts) in
        let react = any has_ui executable in
        record {
          profile = if react then "python-react-v1" else "python-stdlib-v1";
          run_id = context.run_id;
          repair_attempt = context.repair_attempt;
          verdict = verdict_of (all_gates runtime context.artifacts);
          gates = all_gates runtime context.artifacts;
          source_artifact_ids = ids_of executable;
          deferred_checks =
              if react
              then "backend type checking" ∷ other_deferred_checks
              else default_deferred_checks;
        }

    -- `evaluate_gates`
    unfoldable pub evaluate_gates : AgentContext → (runtime : String) → QualityGateReport
    unfolding check_integrity verdict_of execution_gate requirements_gate
    evaluate_gates context runtime =
        judged context runtime (check_integrity context.run_id context.artifacts)
