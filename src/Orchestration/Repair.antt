-- ===== src/Orchestration/Repair.antt =====
-- The repair loop of `WorkflowOrchestrator._execute` in src/aidlc/orchestration/workflow.py: the
-- decision on an evaluated delivery, and the request for a repair.
use multi_agent_aidlc.Common.{
  ℕ, ◌+◌, String, Bool, true, false, not, ◌&&◌, ◌||◌, Option, none, some, List, [], ◌∷◌, ◌++◌, Json,
  null, num, str, obj, field, end, get, Result, ok, err, or_raise, key_error, stop_iteration,
  runtime_error, select, find_last, if◌then◌else◌, ◌==◌, string_eq,
}
use multi_agent_aidlc.Common as Common
use multi_agent_aidlc.Domain.{
  StageName, StageName-discrete, stage_name_eq, stage_text, ArtifactKind, kind_text,
  ArtifactKind-discrete, artifact_kind_eq, PromptKind, PromptKind-discrete, prompt_kind_eq,
  Decision, accept, repair, ContextArtifact, HumanInteraction, HumanResponse,
}
use multi_agent_aidlc.Storage.Artifacts.{Publication, Store}
use multi_agent_aidlc.Storage.Database.State.{Db}
use multi_agent_aidlc.Storage.Database.Interactions.{list_interactions}
use multi_agent_aidlc.Evaluation.{
  Floats, EvaluationReport, HumanVerdict, Outcome, QualityGateReport, overall_score,
  repair_decision,
}
use multi_agent_aidlc.Orchestration.Context.Key.{Settings}
use multi_agent_aidlc.Orchestration.Hub.{artifact_context}
use multi_agent_aidlc.Orchestration.Services.{Services}
use multi_agent_aidlc.Orchestration.World.{
  Host, Exec, ◌>>=◌, ◌>>◌, pure, throw, asks, event, publish, index_artifact,
}

-- What the loop carries: `attempt`, `feedback` and `parent_ids`.
pub record Progress : Type 0 where
  pub attempt : ℕ
  pub feedback : Option Json
  pub parent_ids : List String

-- The loop is left for the release, or goes round again.
pub data Round : Type 0 where
  release : List String → Round
  again : Progress → Round

-- The newest artifact of a kind.
unfoldable pub latest : ArtifactKind → List ContextArtifact → Result ContextArtifact
unfolding ArtifactKind-discrete
latest kind context =
    or_raise (find_last (λ item. item.metadata.kind == kind) context) stop_iteration

-- An answer to an evaluation's prompt on the report with the digest.
unfoldable pub is_verdict_on : (digest : String) → HumanInteraction → Bool
unfolding StageName-discrete PromptKind-discrete
is_verdict_on digest item =
    item.stage == StageName.evaluation
    && (item.prompt.kind == PromptKind.evaluation_decision
        && (has_answer item.response && item.artifact_sha256 == digest))
  where
    has_answer : Option HumanResponse → Bool
    has_answer none = false
    has_answer (some _) = true

-- A decision other than these two is none to `repair_decision`.
abbrev pub verdict_of : Decision → Option HumanVerdict
verdict_of accept = some HumanVerdict.accept
verdict_of repair = some HumanVerdict.repair
verdict_of _ = none

abbrev pub response_verdict : Option HumanInteraction → Option HumanVerdict
response_verdict none = none
response_verdict (some item) = decided item.response
  where
    decided : Option HumanResponse → Option HumanVerdict
    decided none = none
    decided (some response) = verdict_of response.decision

-- `human_decision`
unfoldable pub human_verdict : String → (digest : String) → Db → Option HumanVerdict
unfolding is_verdict_on
human_verdict run_id digest db =
    response_verdict (find_last (is_verdict_on digest) (list_interactions run_id db))

abbrev pub outcome_text : Outcome → String
outcome_text Outcome.passed = "passed"
outcome_text Outcome.deferred = "deferred"
outcome_text Outcome.repair = "repair"
outcome_text Outcome.exhausted = "exhausted"

abbrev pub verdict_json : Option HumanVerdict → Json
verdict_json none = null
verdict_json (some HumanVerdict.accept) = str "accept"
verdict_json (some HumanVerdict.repair) = str "repair"

abbrev pub exhausted_error : Common.Error
exhausted_error = runtime_error "Evaluation repair limit exhausted; release withheld"

-- `repairs[-1]["content"]` and its attempt; with no repair request the run starts at the first.
unfoldable pub resumed : List ContextArtifact → List String → Result Progress
unfolding ArtifactKind-discrete
resumed context parent_ids =
    from (find_last (λ item. item.metadata.kind == ArtifactKind.repair_request) context)
  where
    attempt_of : Json → Option Json → Result Progress
    attempt_of content (some (num n)) =
        ok (record { attempt = n; feedback = some content; parent_ids = parent_ids })
    attempt_of content _ = err (key_error "attempt")

    from : Option ContextArtifact → Result Progress
    from none = ok (record { attempt = 0; feedback = none; parent_ids = parent_ids })
    from (some item) = attempt_of item.content (get item.content "attempt")

module _ (floats : Floats) where
  -- The reports that a decision is made on, and what a person said of them.
  pub record Evidence : Type 0 where
    pub gates_id : String
    pub evaluation_id : String
    pub gates : QualityGateReport
    pub evaluation : EvaluationReport floats
    pub human : Option HumanVerdict

  module _ (host : Host) (services : Services floats) where
    -- The newest reports of the run's current artifacts.
    unfoldable pub evidence : String → Db → Store → Result Evidence
    unfolding latest human_verdict
    evidence run_id db store =
        Common.◌>>=◌ (artifact_context host.hashing run_id db store) λ context.
          Common.◌>>=◌ (latest ArtifactKind.quality_gate_report context) λ gate_artifact.
            Common.◌>>=◌ (latest ArtifactKind.evaluation_report context) λ evaluation_artifact.
              Common.◌>>=◌ (services.parse_gates gate_artifact.content) λ gates.
                Common.◌>>=◌ (services.parse_evaluation evaluation_artifact.content) λ evaluation.
                  ok (record {
                    gates_id = gate_artifact.metadata.artifact_id;
                    evaluation_id = evaluation_artifact.metadata.artifact_id;
                    gates = gates;
                    evaluation = evaluation;
                    human = human_verdict run_id evaluation_artifact.metadata.content_sha256 db;
                  })

    module _ (settings : Settings) (threshold : floats.Float) where
      unfoldable pub decision_of : ℕ → Evidence → Result Outcome
      decision_of attempt e =
          repair_decision floats e.gates e.evaluation attempt
            settings.max_evaluation_repair_attempts threshold e.human

      unfoldable pub note_decision :
          String → ℕ → Evidence → Option floats.Float → Outcome → Exec (Unit {0})
      note_decision run_id attempt e score outcome = event host run_id "evaluation.decision" (
          obj (
            field "decision" (str (outcome_text outcome)) (
              field "repair_attempt" (num attempt) (
                field "quality_gate_artifact_id" (str e.gates_id) (
                  field "evaluation_artifact_id" (str e.evaluation_id) (
                    field "overall_score" (services.dump_score score)
                      (field "human_decision" (verdict_json e.human) end)))))))

      abbrev pub feedback_of : ℕ → Evidence → Json
      feedback_of attempt e = obj (
          field "attempt" (num attempt) (
            field "quality_gates" (services.dump_gates e.gates)
              (field "evaluation" (services.dump_evaluation e.evaluation) end)))

      abbrev pub repair_publication : String → Progress → Evidence → Publication
      repair_publication run_id p e = record {
        run_id = run_id;
        stage = StageName.evaluation;
        kind = ArtifactKind.repair_request;
        producing_agent = "orchestrator";
        content = feedback_of (p.attempt + 1) e;
        markdown = services.repair_markdown (p.attempt + 1);
        parent_artifact_ids = p.parent_ids ++ e.gates_id ∷ [];
        model_id = none;
        prompt_version = "deterministic-v1";
        execution = obj end;
      }

      -- The request for the next attempt.
      unfoldable pub request_repair : String → Progress → Evidence → Exec String
      request_repair run_id p e = do
        request ← publish host (repair_publication run_id p e)
        index_artifact host request
        event host run_id "artifact.created" (
            obj (
              field "artifact_id" (str request.metadata.artifact_id) (
                field "kind" (str (kind_text ArtifactKind.repair_request))
                  (field "stage" (str (stage_text StageName.evaluation)) end))))
        event host run_id "repair.started" (
            obj (
              field "attempt" (num (p.attempt + 1))
                (field "artifact_id" (str request.metadata.artifact_id) end)))
        pure request.metadata.artifact_id

      abbrev pub next_attempt : Progress → Evidence → (request_id : String) → Progress
      next_attempt p e request_id = record {
        attempt = p.attempt + 1;
        feedback = some (feedback_of (p.attempt + 1) e);
        parent_ids = p.parent_ids ++ request_id ∷ [];
      }

      abbrev pub note_exhausted : String → Progress → Exec (Unit {0})
      note_exhausted run_id p =
          event host run_id "repair.exhausted" (obj (field "repair_attempts" (num p.attempt) end))

      unfoldable pub act_on : String → Progress → Evidence → Outcome → Exec Round
      unfolding request_repair
      act_on run_id p e Outcome.passed = pure (release p.parent_ids)
      act_on run_id p e Outcome.deferred = pure (release p.parent_ids)
      act_on run_id p e Outcome.exhausted = do note_exhausted run_id p; throw exhausted_error
      act_on run_id p e Outcome.repair = do
        request_id ← request_repair run_id p e
        pure (again (next_attempt p e request_id))

      -- The loop's body after the evaluation stage, up to the stages of the repair.
      unfoldable pub decide : String → Progress → Exec Round
      unfolding decision_of note_decision act_on
      decide run_id p = do
        e ← asks (evidence run_id)
        outcome ← asks (λ db store. decision_of p.attempt e)
        score ← asks (λ db store. overall_score floats e.evaluation)
        note_decision run_id p.attempt e score outcome
        act_on run_id p e outcome
