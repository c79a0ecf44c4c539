-- ===== src/Orchestration/Publish.antt =====
-- What the hub publishes itself, in src/aidlc/orchestration/workflow.py: a new run (`create_run`),
-- the merged source (`_integrate`) and a person's response (`respond`). What was done before an
-- error stays done.
pub mod Integration
use multi_agent_aidlc.Common.{
  ℕ, String, Bool, true, false, not, ◌&&◌, ◌||◌, Option, none, some, List, [], ◌∷◌, ◌++◌, Json, str,
  num, arr, obj, Items, nil, cons, field, end, Result, ok, err, ◌>>=◌, value_error, find, find_last,
  concat, if◌then◌else◌, ◌==◌, string_eq, option_eq,
}
use multi_agent_aidlc.Domain.{
  StageName, stage_name_eq, StageName-discrete, stage_text, ArtifactKind, kind_text, ArtifactRecord,
  DelegatedTask, WorkflowRun, Decision, submit, approve, reject, accept, repair, HumanAction,
  HumanInteraction, HumanResponse, Hashing,
}
use multi_agent_aidlc.Tools.Source.{SourceFile}
use multi_agent_aidlc.Agents.Sources.{merge_sources}
use multi_agent_aidlc.Storage.Artifacts.{Publication, Store, write, initialize_project}
use multi_agent_aidlc.Storage.Database.State.{Db}
use multi_agent_aidlc.Storage.Database.Runs.{create_run}
use multi_agent_aidlc.Storage.Database.Events.{append_event}
use multi_agent_aidlc.Storage.Database.Index.{add_artifact}
use multi_agent_aidlc.Storage.Database.Tasks.{list_delegated_tasks}
use multi_agent_aidlc.Storage.Database.Interactions.{list_interactions, accept_action}
use multi_agent_aidlc.Orchestration.Hub.{artifact_context, event_only}

abbrev pub files_json : List SourceFile → Items
files_json [] = nil
files_json (file ∷ files) =
    cons (obj (field "path" (str file.path) (field "content" (str file.content) end)))
      (files_json files)

-- `source.model_dump(mode="json")`
abbrev pub bundle_json : List SourceFile → Json
bundle_json files = obj (field "files" (arr (files_json files)) end)

unfoldable pub integration : String → List String → List SourceFile → Publication
integration run_id parent_ids files = record {
  run_id = run_id;
  stage = StageName.integration;
  kind = ArtifactKind.integrated_source;
  producing_agent = "trusted-integration-service";
  content = bundle_json files;
  markdown = "# Integrated project source";
  parent_artifact_ids = parent_ids;
  model_id = none;
  prompt_version = "deterministic-v1";
  execution = obj end;
}

abbrev created_payload : ArtifactRecord → StageName → Json
created_payload artifact stage = obj (
    field "artifact_id" (str artifact.metadata.artifact_id) (
      field "kind" (str (kind_text artifact.metadata.kind))
        (field "stage" (str (stage_text stage)) end)))

module _ (hashing : Hashing) where
  -- The row and the event of an artifact that was written.
  unfoldable pub announce : (now : ℕ) → String → ArtifactRecord → StageName → Store → Db → Result Db
  announce now run_id artifact stage store db = do
    db' ← add_artifact hashing artifact store db
    event_only (append_event now run_id "artifact.created" (created_payload artifact stage) db')

  abbrev pub after_write :
      (now : ℕ)
      → String
      → List String
      → Db
      → Store
      → Result (ArtifactRecord × Store)
      → Result (List String) × Db × Store
  after_write now run_id parent_ids db store (err e) = (err e, db, store)
  after_write now run_id parent_ids db store (ok (artifact, store')) =
      elim (announce now run_id artifact StageName.integration store' db) [
        | err e ↦ (err e, db, store')
        | ok db' ↦ (ok (parent_ids ++ artifact.metadata.artifact_id ∷ []), db', store')
      ]

  -- `_integrate`
  unfoldable pub integrate :
      (pinned : String → Result Bool)
      → (hex : String) → (now : ℕ) → String
      → List String
      → Db
      → Store
      → Result (List String) × Db × Store
  unfolding integration announce
  integrate pinned hex now run_id parent_ids db store =
      after_write now run_id parent_ids db store (do
        context ← artifact_context hashing run_id db store
        files ← merge_sources pinned context
        write hashing hex now (integration run_id parent_ids files) store)

module _ (hashing : Hashing) where
  abbrev pub begun :
      (now : ℕ) → String → Db → Store → Result (WorkflowRun × Db) → Result WorkflowRun × Db × Store
  begun now idea db store (err e) = (err e, db, store)
  begun now idea db store (ok (run, db')) =
      elim (append_event now run.run_id "run.created" (obj (field "idea" (str idea) end)) db') [
        | err e ↦ (err e, db', store)
        | ok (_, db'') ↦ (ok run, db'', store)
      ]

  -- `WorkflowOrchestrator.create_run`, up to the task that it starts.
  unfoldable pub begin_run :
      (hex : String) → (now : ℕ) → String → Db → Store → Result WorkflowRun × Db × Store
  begin_run hex now idea db store =
      begun now idea db (initialize_project hashing (concat "run_" hex) idea store)
        (create_run now (concat "run_" hex) idea db)

-- The request that the action answers has been replaced: the agent's latest task on the stage is
-- another one.
unfoldable pub is_superseded : HumanInteraction → List DelegatedTask → Bool
unfolding StageName-discrete
is_superseded interaction tasks =
    differs
      (find_last (λ task. task.agent == interaction.agent && task.stage == interaction.stage) tasks)
  where
    differs : Option DelegatedTask → Bool
    differs none = false
    differs (some task) = not (task.task_id == some interaction.task_id)

abbrev is_unanswered : Option HumanResponse → Bool
is_unanswered none = true
is_unanswered (some _) = false

-- The check before the answer, if the surface is known and open.
unfoldable pub is_refused : Option HumanInteraction → List DelegatedTask → Bool
unfolding is_superseded
is_refused none tasks = false
is_refused (some interaction) tasks =
    is_unanswered interaction.response && is_superseded interaction tasks

abbrev pub decision_name : Decision → String
decision_name submit = "submit"
decision_name approve = "approve"
decision_name reject = "reject"
decision_name accept = "accept"
decision_name repair = "repair"

module _ (hashing : Hashing) (response_json : Option HumanResponse → Json) where
  -- `publish_response`, where `response_json` is `interaction.response or {}`
  unfoldable pub publish_response :
      (hex : String)
      → (now : ℕ) → String
      → HumanAction
      → HumanInteraction
      → Store
      → Result ArtifactRecord × Store
  publish_response hex now run_id action interaction store = keep (
      write hashing hex now
        (record {
          run_id = run_id;
          stage = interaction.stage;
          kind = ArtifactKind.human_response;
          producing_agent = "local-learner";
          content = response_json interaction.response;
          markdown =
              concat "# Human response\n\n"
                (concat (decision_name action.decision) (concat "\n\n" action.answer));
          parent_artifact_ids = interaction.artifact_id ∷ [];
          model_id = none;
          prompt_version = "deterministic-v1";
          execution = obj end;
        })
        store)
    where
      keep : Result (ArtifactRecord × Store) → Result ArtifactRecord × Store
      keep (err e) = (err e, store)
      keep (ok (artifact, store')) = (ok artifact, store')

  abbrev pub responded :
      (now : ℕ)
      → String
      → HumanAction
      → Db
      → Result (HumanInteraction × Bool × Db) × Store
      → Result HumanInteraction × Db × Store
  responded now run_id action db (err e, store) = (err e, db, store)
  responded now run_id action db (ok (interaction, false, db'), store) =
      (ok interaction, db', store)
  responded now run_id action db (ok (interaction, true, db'), store) =
      elim (append_event now run_id "human.responded"
        (obj (
          field "surface_id" (str interaction.surface_id)
            (field "decision" (str (decision_name action.decision)) end)))
        db') [ err e ↦ (err e, db', store) | ok (_, db'') ↦ (ok interaction, db'', store) ]

  unfoldable pub respond :
      (hex : String)
      → (now : ℕ) → String
      → HumanAction
      → Db
      → Store
      → Result HumanInteraction × Db × Store
  unfolding is_refused publish_response
  respond hex now run_id action db store =
      if is_refused
        (find (λ item. item.surface_id == action.surface_id) (list_interactions run_id db))
        (list_delegated_tasks run_id db)
      then (err (value_error "This approval request was superseded by a retry"), db, store)
      else responded now run_id action db
          (accept_action (publish_response hex now run_id action) now run_id action db store)
