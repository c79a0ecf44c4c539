-- ===== src/Orchestration/Stage.antt =====
-- `WorkflowOrchestrator._run_stage` of src/aidlc/orchestration/workflow.py: the hub's own work of a
-- stage, around the tasks of its agents, and `_preflight`.
use multi_agent_aidlc.Common.{
  ℕ, ◌+◌, String, Bool, true, false, not, ◌&&◌, none, some, List, [], Json, num, str, obj, field,
  end, Result, ok, err, or_raise, key_error, any, is_empty, map, if◌then◌else◌, ◌==◌,
}
use multi_agent_aidlc.Domain.{
  RunStatus, StageName, StageName-discrete, stage_name_eq, stage_text, ArtifactKind, kind_text,
  ArtifactKind-discrete, artifact_kind_eq, AgentContext, ArtifactRecord, ContextArtifact,
  WorkflowRun,
}
use multi_agent_aidlc.Agents.{AgentSpec, agents_by_stage}
use multi_agent_aidlc.Storage.Artifacts.{Publication, Store}
use multi_agent_aidlc.Storage.Database.State.{Db}
use multi_agent_aidlc.Storage.Database.Index.{list_artifacts}
use multi_agent_aidlc.Evaluation.{Floats, Verdict}
use multi_agent_aidlc.Orchestration.Context.Key.{Settings}
use multi_agent_aidlc.Orchestration.Hub.{
  artifact_context, saved_outputs, stage_started, stage_completed,
}
use multi_agent_aidlc.Orchestration.Publish.{integrate}
use multi_agent_aidlc.Orchestration.Services.{Services}
use multi_agent_aidlc.Orchestration.Invocation.{StageCall, task_group}
use multi_agent_aidlc.Orchestration.World.{
  Exit, World, Host, Exec, ◌>>=◌, ◌>>◌, pure, exit_of, asks, on_db, event, mark_run, mark_stage,
  publish, index_artifact,
}

abbrev pub verdict_text : Verdict → String
verdict_text Verdict.passed = "passed"
verdict_text Verdict.failed = "failed"
verdict_text Verdict.blocked = "blocked"

-- `AGENTS_BY_STAGE[stage]`
abbrev pub stage_agents : StageName → Result (List AgentSpec)
stage_agents stage = or_raise (agents_by_stage stage) (key_error (stage_text stage))

unfoldable pub has_kind : ArtifactKind → String → Db → Bool
unfolding ArtifactKind-discrete
has_kind kind run_id db = any (λ item. item.metadata.kind == kind) (list_artifacts run_id db)

-- What is published for the gates of an evaluation.
abbrev pub gates_publication :
    String → (content : Json) → (markdown profile : String) → List ContextArtifact → Publication
gates_publication run_id content markdown profile artifacts = record {
  run_id = run_id;
  stage = StageName.evaluation;
  kind = ArtifactKind.quality_gate_report;
  producing_agent = "deterministic-quality-gates";
  content = content;
  markdown = markdown;
  parent_artifact_ids = map (λ item. item.metadata.artifact_id) artifacts;
  model_id = none;
  prompt_version = profile;
  execution = obj end;
}

abbrev pub block_reason : String
block_reason = "Required host capabilities are unavailable. See the capability report."

module _ (host : Host) (settings : Settings) {floats : Floats} (services : Services floats) where
  abbrev pub start_stage : String → StageName → Exec (Unit {0})
  start_stage run_id stage = on_db host (λ now db. stage_started now run_id stage db)

  abbrev pub complete_stage : String → StageName → Exec (Unit {0})
  complete_stage run_id stage = on_db host (λ now db. stage_completed now run_id stage db)

  abbrev pub context_of : String → Exec (List ContextArtifact)
  context_of run_id = asks (artifact_context host.hashing run_id)

  -- `_saved_outputs`, if outputs are reused
  abbrev pub saved_for : Bool → WorkflowRun → StageName → ℕ → Exec (List ArtifactRecord)
  saved_for false run stage attempt = pure []
  saved_for true run stage attempt = asks (λ db store. elim (stage_agents stage) [
    | err e ↦ err e
    | ok specs ↦ saved_outputs host.hashing run stage attempt specs db store
  ])

  abbrev pub integrated : String → List String → Exec (List String)
  integrated run_id parent_ids w = keep (
      integrate host.hashing services.pinned (host.uuid w.step) (host.clock w.step) run_id
        parent_ids w.db w.store)
    where
      keep : Result (List String) × Db × Store → Exit (List String) × World
      keep (outcome, db, store) =
          (exit_of outcome, record w { db = db; store = store; step = w.step + 1 })

  -- The source is merged, unless it was and the outputs are reused.
  unfoldable pub integration_step : Bool → String → StageName → List String → Exec (List String)
  unfolding has_kind StageName-discrete
  integration_step reuse run_id stage parent_ids w =
      if stage == StageName.integration
        && not (reuse && has_kind ArtifactKind.integrated_source run_id w.db)
      then integrated run_id parent_ids w
      else pure parent_ids w

  abbrev pub hub_context : StageCall → List ContextArtifact → AgentContext
  hub_context call artifacts = record {
    retry_attempt = call.retry_attempt;
    run_id = call.run.run_id;
    idea = call.run.idea;
    stage = call.stage;
    artifacts = artifacts;
    human_response = none;
    repair_attempt = call.repair_attempt;
    repair_feedback = call.repair_feedback;
    repair_artifact_id = none;
    repair_artifact_sha256 = none;
  }

  -- The gates are judged and published, and the context is read again.
  unfoldable pub judge_gates : StageCall → List ContextArtifact → Exec (List ContextArtifact)
  judge_gates call artifacts = do
    report ← asks (λ db store. services.evaluate_gates (hub_context call artifacts))
    artifact ← publish host (
        gates_publication call.run.run_id (services.dump_gates report)
          (services.gates_markdown report) report.profile artifacts)
    index_artifact host artifact
    artifacts' ← context_of call.run.run_id
    event host call.run.run_id "artifact.created" (
        obj (
          field "artifact_id" (str artifact.metadata.artifact_id) (
            field "kind" (str (kind_text artifact.metadata.kind))
              (field "stage" (str (stage_text call.stage)) end))))
    event host call.run.run_id "quality_gates.completed" (
        obj (
          field "artifact_id" (str artifact.metadata.artifact_id) (
            field "verdict" (str (verdict_text report.verdict))
              (field "repair_attempt" (num call.repair_attempt) end))))
    pure artifacts'

  -- The evaluation stage judges the gates, unless saved outputs stand with a report of them.
  unfoldable pub gates_step :
      StageCall → List ArtifactRecord → List ContextArtifact → Exec (List ContextArtifact)
  unfolding judge_gates StageName-discrete ArtifactKind-discrete
  gates_step call saved artifacts =
      if call.stage == StageName.evaluation
        && not (
            not (is_empty saved)
            && any (λ item. item.metadata.kind == ArtifactKind.quality_gate_report) artifacts)
      then judge_gates call artifacts
      else pure artifacts

  -- `_run_stage`; the identifier of the gates' report joins parents that nothing reads again.
  unfoldable pub run_stage : StageCall → (reuse : Bool) → List String → Exec (List String)
  unfolding integration_step gates_step
  run_stage call reuse parent_ids = do
    saved ← saved_for reuse call.run call.stage call.repair_attempt
    mark_run host call.run.run_id RunStatus.running (some call.stage) none
    start_stage call.run.run_id call.stage
    _ ← integration_step reuse call.run.run_id call.stage parent_ids
    specs ← asks (λ db store. stage_agents call.stage)
    artifacts ← context_of call.run.run_id
    artifacts' ← gates_step call saved artifacts
    ids ← task_group host settings services call (hub_context call artifacts') saved specs
    complete_stage call.run.run_id call.stage
    pure ids

  abbrev pub note_override : String → (ready : Bool) → Exec (Unit {0})
  note_override run_id true = pure tt
  note_override run_id false =
      event host run_id "preflight.override"
        (obj (field "reason" (str "AIDLC_ENFORCE_HOST_PREFLIGHT is false") end))

  -- The branches of `_preflight` after the report is indexed.
  unfoldable pub conclude_preflight : String → (ready : Bool) → Exec (Unit {0})
  conclude_preflight run_id ready =
      if not ready && settings.enforce_host_preflight
      then (do
        mark_stage host run_id StageName.preflight RunStatus.blocked (some block_reason)
        mark_run host run_id RunStatus.blocked (some StageName.preflight) (some block_reason)
        event host run_id "run.blocked" (
            obj (
              field "stage" (str (stage_text StageName.preflight))
                (field "reason" (str block_reason) end))))
      else (do note_override run_id ready; complete_stage run_id StageName.preflight)

  -- `_preflight`
  unfoldable pub preflight : WorkflowRun → Exec (Unit {0})
  unfolding conclude_preflight
  preflight run = do
    start_stage run.run_id StageName.preflight
    report ← services.inspect_host
    artifact ← publish host (record {
      run_id = run.run_id;
      stage = StageName.preflight;
      kind = ArtifactKind.host_capability_report;
      producing_agent = "host-preflight";
      content = services.dump_host report;
      markdown = services.host_markdown report;
      parent_artifact_ids = [];
      model_id = none;
      prompt_version = "deterministic-v1";
      execution = obj end;
    })
    index_artifact host artifact
    event host run.run_id "artifact.created" (
        obj (
          field "artifact_id" (str artifact.metadata.artifact_id)
            (field "kind" (str (kind_text artifact.metadata.kind)) end)))
    conclude_preflight run.run_id report.ready
