-- ===== src/Examples/Reuse.antt =====
-- The theorems on the reuse of outputs at concrete inputs.
use multi_agent_aidlc.Common.{◌≡◌, refl, none, some, [], ◌∷◌, str, obj, field, end, ok, All}
use multi_agent_aidlc.Domain.{
  RunStatus, RunStatus-discrete, StageName, stage_name_eq, StageName-discrete, ArtifactKind,
  ArtifactKind-discrete, ArtifactRecord, project_id_for_run, WorkflowRun, StageRecord,
}
use multi_agent_aidlc.Agents.{AgentSpec, agent_spec}
use multi_agent_aidlc.Storage.Snapshots.{snapshot_kinds}
use multi_agent_aidlc.Storage.Artifacts.{
  Publication, Store, put, filled, manifest_of, destination_of, read_content,
}
use multi_agent_aidlc.Storage.Database.State.{Db, initialize}
use multi_agent_aidlc.Storage.Database.Index.{list_artifacts}
use multi_agent_aidlc.Orchestration.Hub.{cached_output, saved_outputs}
use multi_agent_aidlc.Orchestration.Hub.Reuse.{
  IsIntact, IsReusable, IsSaved, cached_output-IsReusable, saved_outputs-IsSaved,
}
use multi_agent_aidlc.Examples.Data.{hashing, publication, empty_store}

abbrev plan : Publication
plan = record (publication ArtifactKind.implementation_plan "planning-agent" "The plan") {
  stage = StageName.planning;
  execution = obj (
      field "cache_key" (str "key")
        (field "context_contract_version" (str "aidlc-context-v3") end));
}

abbrev plan_record : ArtifactRecord
plan_record = record {
  metadata = manifest_of hashing "1" 1 plan;
  content_path = destination_of hashing "1" plan;
}

abbrev store : Store
store = record empty_store {
  directories =
      put (destination_of hashing "1" plan) (filled plan (manifest_of hashing "1" 1 plan) none none)
        [];
}

abbrev db : Db
db = record initialize { artifacts = plan_record ∷ [] }

abbrev planner : AgentSpec
planner = agent_spec ("planning-agent", StageName.planning, ArtifactKind.implementation_plan)

cache_hit : cached_output hashing "run_1" planner "key" [] db store ≡ ok (some plan_record)
unfolding cached_output list_artifacts read_content agent_spec snapshot_kinds ArtifactKind-discrete
    project_id_for_run StageName-discrete
cache_hit = refl

cached_output-IsReusable_example :
    IsReusable planner "key" [] plan_record × IsIntact hashing store plan_record
cached_output-IsReusable_example =
    cached_output-IsReusable hashing "run_1" planner "key" [] db store cache_hit

abbrev planned : StageRecord
planned = record {
  name = StageName.planning;
  status = RunStatus.completed;
  started_at = some 1;
  finished_at = some 2;
  error = none;
}

abbrev run : WorkflowRun
run = record {
  run_id = "run_1";
  idea = "An idea";
  status = RunStatus.failed;
  current_stage = some StageName.implementation;
  created_at = 1;
  updated_at = 3;
  error = none;
  stages = planned ∷ [];
}

saved_plan :
    saved_outputs hashing run StageName.planning 0 (planner ∷ []) db store ≡ ok (plan_record ∷ [])
unfolding saved_outputs list_artifacts read_content agent_spec snapshot_kinds ArtifactKind-discrete
    project_id_for_run StageName-discrete RunStatus-discrete
saved_plan = refl

saved_outputs-IsSaved_example :
    All
      (λ artifact.
        IsSaved run StageName.planning 0 (planner ∷ []) db artifact
        × IsIntact hashing store artifact)
      (plan_record ∷ [])
saved_outputs-IsSaved_example =
    saved_outputs-IsSaved hashing run StageName.planning 0 (planner ∷ []) db store saved_plan
