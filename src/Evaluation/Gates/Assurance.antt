-- ===== src/Evaluation/Gates/Assurance.antt =====
-- What a passed verdict of the quality gates says of the evidence for each current source.
use mathlib.Core.List.{Memᴰ}
use multi_agent_aidlc.Common.{
  String, ◌≡◌, inl, inr, refl, arith, true, false, List, [], ◌∷◌, ok, >>=-eq-ok, Bool-cases,
  Result-cases, All, any, all, select, eq_of_beq, string_eq, nat_eq,
}
use multi_agent_aidlc.Domain.{
  ArtifactKind, artifact_kind_eq, AgentContext, ContextArtifact, Hashing, content_digest,
  resolve_project,
}
use multi_agent_aidlc.Tools.Source.{SourceFile, validate_source}
use multi_agent_aidlc.Agents.Sources.{current_sources}
use multi_agent_aidlc.Evaluation.{GateStatus, QualityGate, Verdict}
use multi_agent_aidlc.Evaluation.Gates.Checks.{guard-ok}
use multi_agent_aidlc.Evaluation.Gates.Evidence.{
  HasEvidence, all-Mem, any-Mem, select-Mem, All-Mem, execution_gate-evidence,
}
use multi_agent_aidlc.Evaluation.Gates.{
  Validators, execution_gate, source_gate, verdict_of, is_bundle, is_ready, evaluate_gates, judged,
  check_integrity, all_gates, is_not_executed, is_failed_gate, is_intact, check_artifact,
  check_each,
}

module _ (validators : Validators) where
  verdict_of-passed :
      (gates : List QualityGate) (gate : QualityGate)
      → verdict_of validators gates ≡ Verdict.passed
      → Memᴰ gate gates
      → gate.status ≡ GateStatus.passed
  unfolding verdict_of
  verdict_of-passed gates gate h m = elim (Bool-cases (any (is_not_executed validators) gates)) [
    | inl some_unrun ↦ cc (rw some_unrun at h)
    | inr none_unrun ↦ elim (Bool-cases (any (is_failed_gate validators) gates)) [
      | inl some_failed ↦ cc (rw (none_unrun, some_failed) at h)
      | inr none_failed ↦
          passed_of gate.status (any-Mem (is_not_executed validators) gates none_unrun m)
            (any-Mem (is_failed_gate validators) gates none_failed m)
    ]
  ]
    where
      passed_of :
          (status : GateStatus)
          → is_not_executed validators
              (record { name = ""; status = status; detail = ""; evidence_artifact_ids = [] })
            ≡ false
          → is_failed_gate validators
              (record { name = ""; status = status; detail = ""; evidence_artifact_ids = [] })
            ≡ false
          → status ≡ GateStatus.passed
      passed_of GateStatus.passed h1 h2 = refl
      passed_of GateStatus.failed h1 h2 = cc h2
      passed_of GateStatus.not_executed h1 h2 = cc h1

module _ (validators : Validators) (hashing : Hashing) where
  -- The artifact is of the run and its project, and has the hash of its manifest.
  pub IsOwn : (run_id : String) → ContextArtifact → Type 0
  IsOwn run_id item =
      (item.metadata.workflow_run_id ≡ run_id)
      × (content_digest hashing item.content ≡ item.metadata.content_sha256)
      × (project : String) × (resolve_project hashing item.metadata.project_id
            item.metadata.workflow_run_id
          ≡ ok project)

  pub IsBundle : ContextArtifact → Type 0
  IsBundle source = (files : List SourceFile) × (validate_source source.content ≡ ok files)

  -- What a passed verdict stands for.
  pub record IsAssured (context : AgentContext) (runtime : String) : Type 0 where
    pub intact : All (IsOwn context.run_id) context.artifacts
    pub bundles : All IsBundle (current_sources context.artifacts)
    pub built :
        All
          (HasEvidence validators ArtifactKind.build_report runtime context.artifacts)
          (current_sources context.artifacts)
    pub tested :
        All
          (HasEvidence validators ArtifactKind.test_report runtime context.artifacts)
          (current_sources context.artifacts)
    pub analyzed :
        All
          (HasEvidence validators ArtifactKind.static_analysis_report runtime context.artifacts)
          (current_sources context.artifacts)

  IsBundle-of : (source : ContextArtifact) → is_bundle validators source ≡ true → IsBundle source
  unfolding IsBundle
  IsBundle-of source h = elim (Result-cases (validate_source source.content)) [
    | inl (files, valid) ↦ (files, valid)
    | inr (e, invalid) ↦ cc (rw (invalid, is_bundle) at h)
  ]

  source_gate-ready :
      (sources : List ContextArtifact)
      → (source_gate validators sources).status ≡ GateStatus.passed
      → is_ready validators sources ≡ true
  source_gate-ready sources h = elim (Bool-cases (is_ready validators sources)) [
    | inl ready ↦ ready
    | inr unready ↦ cc (rw (unready, source_gate) at h)
  ]

  check_artifact-IsOwn :
      (run_id : String) (item : ContextArtifact)
      → check_artifact validators hashing run_id item ≡ ok tt
      → IsOwn run_id item
  unfolding check_artifact IsOwn
  check_artifact-IsOwn run_id item h =
      let (project, known, h1) =
        >>=-eq-ok (resolve_project hashing item.metadata.project_id item.metadata.workflow_run_id) _
          h in
      let own : is_intact validators hashing run_id item ≡ true = guard-ok _ _ h1 in
      (
        eq_of_beq item.metadata.workflow_run_id run_id (ground (arith, own)),
        eq_of_beq (content_digest hashing item.content) item.metadata.content_sha256
            (ground (arith, own)),
        project,
        known,
      )

  check_each-IsOwn :
      (run_id : String) (artifacts : List ContextArtifact)
      → check_each validators hashing run_id artifacts ≡ ok tt
      → All (IsOwn run_id) artifacts
  check_each-IsOwn run_id [] h = tt
  check_each-IsOwn run_id (item ∷ items) h =
      let (_, one, h1) = >>=-eq-ok (check_artifact validators hashing run_id item) _ h in
      (check_artifact-IsOwn run_id item one, check_each-IsOwn run_id items h1)

  check_integrity-IsOwn :
      (run_id : String) (artifacts : List ContextArtifact)
      → check_integrity validators hashing run_id artifacts ≡ ok tt
      → All (IsOwn run_id) artifacts
  unfolding check_integrity
  check_integrity-IsOwn run_id artifacts h =
      let (_, each, _) = >>=-eq-ok (check_each validators hashing run_id artifacts) _ h in
      check_each-IsOwn run_id artifacts each

  module _ (context : AgentContext) (runtime : String)
      (passes : (gate : QualityGate)
        → Memᴰ gate (all_gates validators hashing runtime context.artifacts)
        → gate.status ≡ GateStatus.passed) where
    bundled : all (is_bundle validators) (current_sources context.artifacts) ≡ true
    bundled =
        let ready =
          source_gate-ready (current_sources context.artifacts)
            (passes _ (Memᴰ.tail (Memᴰ.tail (Memᴰ.head refl)))) in
        ground (arith, ready)

    -- The gate of the kind, as `all_gates` has it.
    evidence_of :
        (name : String) (kind : ArtifactKind)
        → Memᴰ
            (execution_gate validators name kind
              (select (is_bundle validators) (current_sources context.artifacts))
              context.artifacts
              runtime
              (is_ready validators (current_sources context.artifacts)))
            (all_gates validators hashing runtime context.artifacts)
        → All
            (HasEvidence validators kind runtime context.artifacts)
            (current_sources context.artifacts)
    evidence_of name kind member = All-Mem _ (current_sources context.artifacts) (λ source m.
        execution_gate-evidence validators runtime name kind _ context.artifacts _ source
          (passes _ member)
          (select-Mem (is_bundle validators) (current_sources context.artifacts)
            (all-Mem (is_bundle validators) (current_sources context.artifacts) bundled m) m))

    gates-IsAssured :
        check_integrity validators hashing context.run_id context.artifacts ≡ ok tt
        → IsAssured context runtime
    gates-IsAssured intact = record {
      intact = check_integrity-IsOwn context.run_id context.artifacts intact;
      bundles = All-Mem IsBundle (current_sources context.artifacts) (λ source m.
          IsBundle-of source
            (all-Mem (is_bundle validators) (current_sources context.artifacts) bundled m));
      built =
          evidence_of "build" ArtifactKind.build_report
            (Memᴰ.tail (Memᴰ.tail (Memᴰ.tail (Memᴰ.head refl))));
      tested =
          evidence_of "unit_tests" ArtifactKind.test_report
            (Memᴰ.tail (Memᴰ.tail (Memᴰ.tail (Memᴰ.tail (Memᴰ.head refl)))));
      analyzed =
          evidence_of "static_analysis" ArtifactKind.static_analysis_report
            (Memᴰ.tail (Memᴰ.tail (Memᴰ.tail (Memᴰ.tail (Memᴰ.tail (Memᴰ.head refl))))));
    }

  -- If the verdict of the quality gates is passed, every artifact belongs to the run and to a
  -- project that is valid for it, and has the hash of its manifest; every current source is a bundle
  -- that validates; and for each current source there is a build, a test and an analysis artifact
  -- that comes from the trusted producer, has the source as a parent, and has as its content, or in
  -- the list `reports` of it, a report that names the source and its very hash, completed with a
  -- clean execution under the runtime, and tells of tests that were run, if it is of a test, or of
  -- an analysis without findings.
  pub evaluate_gates-IsAssured :
      (context : AgentContext) (runtime : String)
      → (evaluate_gates validators hashing context runtime).verdict ≡ Verdict.passed
      → IsAssured context runtime
  unfolding evaluate_gates
  evaluate_gates-IsAssured context runtime h =
      elim (Result-cases (check_integrity validators hashing context.run_id context.artifacts)) [
        | inr (e, broken) ↦ cc (rw (broken, judged) at h)
        | inl (u, intact) ↦
            let verdict : verdict_of validators
                  (all_gates validators hashing runtime context.artifacts)
                ≡ Verdict.passed =
              rw (intact, judged) at h in
            gates-IsAssured context runtime
              (λ gate.
                verdict_of-passed validators
                  (all_gates validators hashing runtime context.artifacts) gate verdict)
              intact
      ]
