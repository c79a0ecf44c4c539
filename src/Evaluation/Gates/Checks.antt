-- ===== src/Evaluation/Gates/Checks.antt =====
-- What `_check_report` asks of a report by the kind of its artifact.
use multi_agent_aidlc.Common.{
  ◌≡◌, Bool, true, false, Option, none, some, List, [], ◌∷◌, Json, get, Error, ok, guard, or_raise,
  >>=-eq-ok, eq_of_beq, ◌==◌, string_eq, is_empty, if◌then◌else◌, refl,
}
use multi_agent_aidlc.Domain.{
  ArtifactKind, ArtifactKind-discrete, artifact_kind_eq, ContextArtifact,
}
use multi_agent_aidlc.Evaluation.Gates.{
  Validators, Analysis, check_analysis, check_sandbox, tests_counted,
}

pub guard-ok : (b : Bool) (e : Error) {u : Unit {0}} → guard b e ≡ ok u → b ≡ true
guard-ok true e h = refl
guard-ok false e h = cc h

pub or_raise-ok : (o : Option Json) (e : Error) {x : Json} → or_raise o e ≡ ok x → o ≡ some x
or_raise-ok none e h = cc h
or_raise-ok (some y) e h = cc h

is_empty-eq {ℓ} : {A : Type ℓ} (xs : List A) → is_empty xs ≡ true → xs ≡ []
is_empty-eq [] h = refl
is_empty-eq (x ∷ xs) h = cc h

module _ (validators : Validators) where
  -- The report's execution is that of the artifact's manifest.
  pub record IsMatched (artifact : ContextArtifact) (report : Json) : Type 0 where
    pub execution : Json
    pub reported : get report "execution" ≡ some execution
    pub same : validators.same_json artifact.metadata.execution execution ≡ true

  -- An analysis is of the run and found nothing; a build or a test has the execution of its manifest,
  -- and a test reports that tests were run.
  pub Checked : ArtifactKind → (source artifact : ContextArtifact) → Json → Type 0
  Checked ArtifactKind.static_analysis_report source artifact report =
      (found : Analysis) × (validators.analysis report ≡ ok found)
      × (found.run_id ≡ source.metadata.workflow_run_id)
      × (found.findings ≡ [])
  Checked ArtifactKind.test_report source artifact report =
      IsMatched artifact report × (validators.counts_tests (get report "stderr") ≡ ok true)
  Checked ArtifactKind.build_report source artifact report = IsMatched artifact report
  Checked _ source artifact report = Unit {0}

  check_sandbox-IsMatched :
      (kind : ArtifactKind) (artifact : ContextArtifact) (report : Json)
      → check_sandbox validators kind artifact report ≡ ok tt
      → IsMatched artifact report × (tests_counted validators kind report ≡ ok true)
  check_sandbox-IsMatched kind artifact report h =
      let (execution, reported, h1) = >>=-eq-ok (or_raise (get report "execution") _) _ h in
      let (_, same, h2) =
        >>=-eq-ok (guard (validators.same_json artifact.metadata.execution execution) _) _ h1 in
      let (counted, counts, h3) = >>=-eq-ok (tests_counted validators kind report) _ h2 in
      let positive : counted ≡ true = guard-ok _ _ h3 in
      (
        record {
          execution = execution;
          reported = or_raise-ok _ _ reported;
          same = guard-ok _ _ same;
        },
        rw positive at counts,
      )

  check_analysis-Checked :
      (source artifact : ContextArtifact) (report : Json)
      → check_analysis validators source report ≡ ok tt
      → Checked ArtifactKind.static_analysis_report source artifact report
  unfolding Checked
  check_analysis-Checked source artifact report h =
      let (found, valid, h1) = >>=-eq-ok (validators.analysis report) _ h in
      let (_, own, h2) =
        >>=-eq-ok (guard (found.run_id == source.metadata.workflow_run_id) _) _ h1 in
      (
        found,
        valid,
        eq_of_beq found.run_id source.metadata.workflow_run_id (guard-ok _ _ own),
        is_empty-eq found.findings (guard-ok _ _ h2),
      )

  pub check-Checked :
      (kind : ArtifactKind) (source artifact : ContextArtifact) (report : Json)
      → (if kind == ArtifactKind.static_analysis_report
          then check_analysis validators source report
          else check_sandbox validators kind artifact report)
        ≡ ok tt
      → Checked kind source artifact report
  unfolding Checked ArtifactKind-discrete
  check-Checked ArtifactKind.static_analysis_report source artifact report h =
      check_analysis-Checked source artifact report h
  check-Checked ArtifactKind.test_report source artifact report h =
      check_sandbox-IsMatched ArtifactKind.test_report artifact report h
  check-Checked ArtifactKind.build_report source artifact report h =
      (check_sandbox-IsMatched ArtifactKind.build_report artifact report h).0
  check-Checked _ source artifact report h = tt
