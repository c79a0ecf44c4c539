-- ===== src/Orchestration/Hub.antt =====
-- The hub's use of its database and store, in src/aidlc/orchestration/workflow.py: the artifacts of
-- a run as a context, the reuse of outputs, the marks of a stage and a person's response.
pub mod Reuse
use multi_agent_aidlc.Common.{
  ℕ, String, Bool, true, false, not, ◌&&◌, ◌||◌, Option, none, some, List, [], ◌∷◌, Json, str, num,
  obj, field, end, get, is_str, truthy, num_or_zero, Result, ok, err, ◌>>=◌, value_error,
  stop_iteration, any, find, find_last, select, concat, if◌then◌else◌, ◌==◌, string_eq, nat_eq,
  option_eq,
}
use multi_agent_aidlc.Domain.{
  RunStatus, run_status_eq, RunStatus-discrete, StageName, stage_name_eq, StageName-discrete,
  stage_text, ArtifactKind, artifact_kind_eq, ArtifactKind-discrete, ArtifactRecord,
  ContextArtifact, WorkflowRun, StageRecord, Hashing,
}
use multi_agent_aidlc.Agents.{AgentSpec}
use multi_agent_aidlc.Storage.Artifacts.{Store, read_content}
use multi_agent_aidlc.Storage.Database.State.{Db}
use multi_agent_aidlc.Storage.Database.Events.{append_event, events_after}
use multi_agent_aidlc.Storage.Database.Runs.Stages.{update_stage}
use multi_agent_aidlc.Storage.Database.Index.{list_artifacts}

abbrev pub event_only : Result (ℕ × Db) → Result Db
event_only (err e) = err e
event_only (ok (_, db)) = ok db

-- `_stage_started`; the update stays if the event fails, which only an unknown run makes it do, and
-- an unknown run has no stage to update.
unfoldable pub stage_started : (now : ℕ) → String → StageName → Db → Result Db
stage_started now run_id stage db = event_only (
    append_event now run_id "stage.started" (obj (field "stage" (str (stage_text stage)) end))
      (update_stage now run_id stage RunStatus.running none db))

unfoldable pub stage_completed : (now : ℕ) → String → StageName → Db → Result Db
stage_completed now run_id stage db = event_only (
    append_event now run_id "stage.completed" (obj (field "stage" (str (stage_text stage)) end))
      (update_stage now run_id stage RunStatus.completed none db))

abbrev pub same_texts : List String → List String → Bool
same_texts [] [] = true
same_texts [] (_ ∷ _) = false
same_texts (_ ∷ _) [] = false
same_texts (x ∷ xs) (y ∷ ys) = x == y && same_texts xs ys

-- The condition of `_cached_output` on an artifact.
unfoldable pub is_cached : AgentSpec → (cache_key : String) → List String → ArtifactRecord → Bool
unfolding ArtifactKind-discrete
is_cached spec cache_key input_ids artifact =
    artifact.metadata.producing_agent == spec.name
    && (artifact.metadata.kind == spec.artifact_kind
        && (is_str (get artifact.metadata.execution "cache_key") cache_key
            && (is_str (get artifact.metadata.execution "context_contract_version")
                  spec.context_contract_version
                && same_texts artifact.metadata.parent_artifact_ids input_ids)))

-- `next(item for item in run.stages if item.name == stage).status == COMPLETED`
unfoldable pub is_completed : StageName → Option StageRecord → Result Bool
unfolding RunStatus-discrete
is_completed stage none = err stop_iteration
is_completed stage (some item) = ok (item.status == RunStatus.completed)

-- An event names the artifact as a finished output of the repair attempt.
unfoldable pub saves : (attempt : ℕ) → String → Db → String → Bool
saves attempt run_id db artifact_id =
    any
      (λ event.
        event.event_type == "artifact.created"
        && (truthy (get event.payload "agent_completed")
            && (num_or_zero (get event.payload "repair_attempt") == attempt
                && is_str (get event.payload "artifact_id") artifact_id)))
      (events_after run_id 0 db)

-- The condition of `_saved_outputs` on an artifact.
unfoldable pub is_saved :
    (completed : Bool) → StageName → ℕ → String → List AgentSpec → Db → ArtifactRecord → Bool
unfolding saves StageName-discrete ArtifactKind-discrete
is_saved completed stage attempt run_id specs db artifact =
    artifact.metadata.stage_id == stage
    && (any
          (λ spec.
            spec.name == artifact.metadata.producing_agent
            && spec.artifact_kind == artifact.metadata.kind)
          specs
        && (completed || saves attempt run_id db artifact.metadata.artifact_id))

-- The result is a dictionary by producer: a later artifact takes the place of an earlier one.
abbrev pub put_output : ArtifactRecord → List ArtifactRecord → List ArtifactRecord
put_output artifact [] = artifact ∷ []
put_output artifact (other ∷ others) =
    let rest = put_output artifact others in
    if other.metadata.producing_agent == artifact.metadata.producing_agent
    then artifact ∷ others
    else other ∷ rest

module _ (hashing : Hashing) where
  -- `_artifact_context`
  unfoldable pub read_all : List ArtifactRecord → Store → Result (List ContextArtifact)
  read_all [] store = ok []
  read_all (artifact ∷ rest) store = do
    content ← read_content hashing artifact store
    items ← read_all rest store
    ok (record { metadata = artifact.metadata; content = content } ∷ items)

  unfoldable pub artifact_context : String → Db → Store → Result (List ContextArtifact)
  unfolding read_all
  artifact_context run_id db store = read_all (list_artifacts run_id db) store

  -- The artifact is read before it is returned, so that its integrity is checked.
  abbrev pub verified : Option ArtifactRecord → Store → Result (Option ArtifactRecord)
  verified none store = ok none
  verified (some artifact) store = do _ ← read_content hashing artifact store; ok (some artifact)

  unfoldable pub cached_output :
      String
      → AgentSpec
      → (cache_key : String) → List String
      → Db
      → Store
      → Result (Option ArtifactRecord)
  unfolding is_cached
  cached_output run_id spec cache_key input_ids db store =
      verified (find_last (is_cached spec cache_key input_ids) (list_artifacts run_id db)) store

  unfoldable pub collect :
      (ArtifactRecord → Bool)
      → List ArtifactRecord
      → Store
      → List ArtifactRecord
      → Result (List ArtifactRecord)
  collect p [] store found = ok found
  collect p (artifact ∷ rest) store found =
      let next = collect p rest store (put_output artifact found) in
      let skipped = collect p rest store found in
      if p artifact then (read_content hashing artifact store >>= λ _. next) else skipped

  abbrev pub unless_unmerged : Bool → List ArtifactRecord → List ArtifactRecord
  unless_unmerged true found = []
  unless_unmerged false found = found

  -- An integration without its merged source counts as unsaved.
  unfoldable pub is_unmerged : StageName → String → Db → Bool
  unfolding StageName-discrete ArtifactKind-discrete
  is_unmerged stage run_id db =
      stage == StageName.integration
      && not (
          any (λ item. item.metadata.kind == ArtifactKind.integrated_source)
            (list_artifacts run_id db))

  unfoldable pub saved_outputs :
      WorkflowRun
      → StageName
      → (attempt : ℕ) → List AgentSpec
      → Db
      → Store
      → Result (List ArtifactRecord)
  unfolding is_completed is_saved collect is_unmerged StageName-discrete
  saved_outputs run stage attempt specs db store = do
    completed ← is_completed stage (find (λ item. item.name == stage) run.stages)
    found ←
        collect (is_saved completed stage attempt run.run_id specs db)
          (list_artifacts run.run_id db) store []
    ok (unless_unmerged (is_unmerged stage run.run_id db) found)
