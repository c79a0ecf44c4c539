-- ===== src/Domain/Records.antt =====
-- The models of src/aidlc/domain/models.py. A time is a number; a `dict[str, Any]` is a `Json`.
use multi_agent_aidlc.Common.{
  ℕ, String, Bool, ◌&&◌, Option, List, Json, Result, ok, err, value_error, if◌then◌else◌, ◌==◌,
  string_eq, nat_eq, concat, first_chars,
}
use multi_agent_aidlc.Domain.Kinds.{
  RunStatus, StageName, ArtifactKind, CapabilityStatus, PromptKind, Decision, decision_eq,
}

pub record CapabilityCheck : Type 0 where
  pub name : String
  pub status : CapabilityStatus
  pub detail : String
  pub required : Bool

pub record HostCapabilityReport : Type 0 where
  pub ready : Bool
  pub degraded : Bool
  pub os_id : String
  pub os_version : String
  pub architecture : String
  pub kernel : String
  pub checks : List CapabilityCheck

pub record ArtifactMetadata : Type 0 where
  pub project_id : String
  pub current_snapshot : Bool
  pub artifact_id : String
  pub kind : ArtifactKind
  pub workflow_run_id : String
  pub stage_id : StageName
  pub parent_artifact_ids : List String
  pub producing_agent : String
  pub model_id : Option String
  pub prompt_version : String
  pub execution : Json
  pub created_at : ℕ
  pub content_sha256 : String

-- The text `str(destination)` of a directory of a project, by its parts.
pub data ContentPath : Type 0 where
  current : (project : String) → StageName → (agent : String) → ArtifactKind → ContentPath
  records : (project : String) → StageName → (artifact_id : String) → ContentPath

pub record ArtifactRecord : Type 0 where
  pub metadata : ArtifactMetadata
  pub content_path : ContentPath

pub record StageRecord : Type 0 where
  pub name : StageName
  pub status : RunStatus
  pub started_at : Option ℕ
  pub finished_at : Option ℕ
  pub error : Option String

pub record WorkflowRun : Type 0 where
  pub run_id : String
  pub idea : String
  pub status : RunStatus
  pub current_stage : Option StageName
  pub created_at : ℕ
  pub updated_at : ℕ
  pub error : Option String
  pub stages : List StageRecord

pub record EventRecord : Type 0 where
  pub event_id : ℕ
  pub run_id : String
  pub event_type : String
  pub payload : Json
  pub created_at : ℕ

pub record DelegatedTask : Type 0 where
  pub invocation_id : String
  pub run_id : String
  pub stage : StageName
  pub agent : String
  pub endpoint : String
  pub context_id : String
  pub task_id : Option String
  pub state : String
  pub attempts : ℕ
  pub repair_attempt : ℕ

-- The dump of an artifact that the hub hands to an agent: `{"metadata": ..., "content": ...}`.
pub record ContextArtifact : Type 0 where
  pub metadata : ArtifactMetadata
  pub content : Json

pub record AgentContext : Type 0 where
  pub retry_attempt : ℕ
  pub run_id : String
  pub idea : String
  pub stage : StageName
  pub artifacts : List ContextArtifact
  pub human_response : Option Json
  pub repair_attempt : ℕ
  pub repair_feedback : Option Json
  pub repair_artifact_id : Option String
  pub repair_artifact_sha256 : Option String

pub record HumanPrompt : Type 0 where
  pub kind : PromptKind
  pub question : String

pub record HumanAction : Type 0 where
  pub action_id : String
  pub surface_id : String
  pub artifact_sha256 : String
  pub version : ℕ
  pub decision : Decision
  pub answer : String

-- `action.model_dump() == other.model_dump()`: two actions have the same dump.
abbrev pub same_action : HumanAction → HumanAction → Bool
same_action a b =
    a.action_id == b.action_id
    && (a.surface_id == b.surface_id
        && (a.artifact_sha256 == b.artifact_sha256
            && (a.version == b.version && (a.decision == b.decision && a.answer == b.answer))))

-- The dictionary that `accept_action` writes as `interaction.response`.
pub record HumanResponse : Type 0 where
  pub action : HumanAction
  pub actor : String
  pub answered_at : ℕ
  pub decision : Decision
  pub answer : String
  pub artifact_id : String
  pub artifact_sha256 : String
  pub action_id : String

pub record HumanInteraction : Type 0 where
  pub surface_id : String
  pub run_id : String
  pub stage : StageName
  pub agent : String
  pub task_id : String
  pub context_id : String
  pub prompt : HumanPrompt
  pub artifact_id : String
  pub artifact_sha256 : String
  pub version : ℕ
  pub messages : Json
  pub response : Option HumanResponse

-- hashlib and json: the hexadecimal digest of a text, and the canonical dump of a value.
pub record Hashing : Type 0 where
  pub sha256 : String → String
  pub dumps : Json → String

module _ (hashing : Hashing) where
  open hashing use {sha256, dumps}

  unfoldable pub project_id_for_run : String → String
  project_id_for_run run_id = concat "project_" (first_chars 32 (sha256 run_id))

  -- The digest of an artifact's content.
  abbrev pub content_digest : Json → String
  content_digest content = sha256 (dumps content)

  -- The validator of `ProjectScopedModel`: the project that an object gets, or an error.
  unfoldable pub resolve_project : (project_id run_id : String) → Result String
  unfolding project_id_for_run
  resolve_project project_id run_id =
      let expected = project_id_for_run run_id in
      if project_id == ""
      then ok expected
      else if project_id == expected
      then ok expected
      else err (value_error "Project identity does not match workflow run")
