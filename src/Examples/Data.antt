-- ===== src/Examples/Data.antt =====
-- Small concrete values for the examples.
use multi_agent_aidlc.Common.{String, true, none, some, [], ◌∷◌, Json, null, str}
use multi_agent_aidlc.Domain.{
  RunStatus, StageName, ArtifactKind, PromptKind, Decision, ArtifactMetadata, ArtifactRecord,
  current, Hashing, HumanAction, HumanInteraction,
}
use multi_agent_aidlc.Storage.Database.State.{RunRow, Db, initialize}
use multi_agent_aidlc.Storage.Artifacts.{Publication, Store}

-- A digest that is the text itself, and a dump that only tells texts apart.
abbrev pub hashing : Hashing
hashing = record { sha256 = λ s. s; dumps = dump }
  where
    dump : Json → String
    dump (str s) = s
    dump _ = "value"

abbrev pub metadata : String → ArtifactKind → StageName → String → ArtifactMetadata
metadata id kind stage agent = record {
  project_id = "project_run_1";
  current_snapshot = true;
  artifact_id = id;
  kind = kind;
  workflow_run_id = "run_1";
  stage_id = stage;
  parent_artifact_ids = [];
  producing_agent = agent;
  model_id = none;
  prompt_version = "v1";
  execution = null;
  created_at = 1;
  content_sha256 = "text";
}

abbrev pub artifact : String → ArtifactKind → StageName → String → ArtifactRecord
artifact id kind stage agent = record {
  metadata = metadata id kind stage agent;
  content_path = current "project_run_1" stage agent kind;
}

abbrev pub brief : ArtifactRecord
brief = artifact "art_1" ArtifactKind.project_brief StageName.intake "intake-agent"

abbrev pub spec : ArtifactRecord
spec = artifact "art_2" ArtifactKind.requirements_spec StageName.requirements "requirements-agent"

abbrev pub new_brief : ArtifactRecord
new_brief = artifact "art_3" ArtifactKind.project_brief StageName.intake "intake-agent"

abbrev pub run_row : RunStatus → RunRow
run_row status = record {
  run_id = "run_1";
  idea = "An idea";
  status = status;
  current_stage = some StageName.intake;
  created_at = 1;
  updated_at = 1;
  error = none;
}

abbrev pub waiting_db : Db
waiting_db = record initialize { runs = run_row RunStatus.input_required ∷ [] }

abbrev pub indexed_db : Db
indexed_db = record waiting_db { artifacts = brief ∷ [] }

abbrev pub question : HumanInteraction
question = record {
  surface_id = "surface_1";
  run_id = "run_1";
  stage = StageName.intake;
  agent = "intake-agent";
  task_id = "task_1";
  context_id = "context_1";
  prompt = record { kind = PromptKind.approval; question = "Agree?" };
  artifact_id = "art_1";
  artifact_sha256 = "text";
  version = 1;
  messages = null;
  response = none;
}

abbrev pub approve : HumanAction
approve = record {
  action_id = "action_1";
  surface_id = "surface_1";
  artifact_sha256 = "text";
  version = 1;
  decision = Decision.approve;
  answer = "";
}

abbrev pub reject : HumanAction
reject = record approve { decision = Decision.reject }

abbrev pub publication : ArtifactKind → String → String → Publication
publication kind agent text = record {
  run_id = "run_1";
  stage = StageName.intake;
  kind = kind;
  producing_agent = agent;
  content = str text;
  markdown = text;
  parent_artifact_ids = [];
  model_id = none;
  prompt_version = "v1";
  execution = null;
}

abbrev pub empty_store : Store
empty_store = record { directories = []; descriptors = [] }
