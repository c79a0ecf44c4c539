-- ===== src/A2a/Client.antt =====
-- The hub's side of the A2A protocol in src/aidlc/a2a/client.py: the SDK that it calls, an agent's
-- card and results, and the record of a delegated task.
pub mod Reconciliation
pub mod Decoding
pub mod Invocation
use multi_agent_aidlc.Common.{
  ℕ, ◌+◌, String, Bool, true, false, not, ◌&&◌, ◌||◌, Option, none, some, List, [], ◌∷◌, Json, str,
  obj, field, end, Error, canceled_error, timeout_error, remote_task_error, remote_task_canceled,
  value_error, Result, ok, err, any, find, concat, leb, if◌then◌else◌, ◌==◌, string_eq, nat_eq,
  option_eq,
}
use multi_agent_aidlc.Domain.{
  StageName, stage_text, ArtifactKind, ArtifactKind-discrete, artifact_kind_eq, AgentContext,
  DelegatedTask,
}
use multi_agent_aidlc.Agents.{AgentSpec}
use multi_agent_aidlc.A2a.TaskStore.{TaskState}
use multi_agent_aidlc.Storage.Database.Tasks.{save_delegated_task}
use multi_agent_aidlc.Orchestration.Services.{AgentResult}
use multi_agent_aidlc.Orchestration.World.{Exec, Host, Raised, leaf, World, on_db, event}

-- What the client reads of an `AgentCard`.
pub record Interface : Type 0 where
  pub protocol_version : String
  pub protocol_binding : String
  pub url : String

pub record AgentCard : Type 0 where
  pub name : String
  pub streaming : Bool
  pub input_modes : List String
  pub output_modes : List String
  pub secured : Bool  -- it has security requirements
  pub skills : List String
  pub interfaces : List Interface

-- A part of an artifact: its JSON, if it holds data, and its media type.
pub record Part : Type 0 where
  pub content : Option Json
  pub media_type : String

pub record RemoteTask : Type 0 where
  pub id : String
  pub context_id : String
  pub state : TaskState
  pub detail : String  -- the joined text of its status message
  pub artifacts : List (List Part)

pub data StreamEvent : Type 0 where
  of_task of_status : (task_id context_id : String) → TaskState → StreamEvent
  of_artifact : (task_id context_id artifact_id : String) → StreamEvent
  of_message : StreamEvent

-- A stream of events, between which the world may change; it is over, or breaks.
pub data Stream : Type 0 where
  over : (World → World) → Stream
  broken : (World → World) → Raised → Stream
  arrives : (World → World) → StreamEvent → Stream → Stream

-- An exception of the HTTP client.
pub data HttpFailure : Type 0 where
  status : ℕ → HttpFailure
  request : HttpFailure

pub record Request : Type 0 where
  pub message_id : String
  pub context_id : String
  pub task_id : Option String
  pub payload : Json

-- The SDK, the network and the event loop.
pub record Sdk : Type 0 where
  pub get_agent_card : (base : String) → Exec AgentCard
  pub send_message : Request → World → Stream
  pub get_task : String → Exec RemoteTask
  -- A task that is not cancelable raises nothing here: the error is suppressed at each call.
  pub cancel_task : String → Exec (Unit {0})
  pub sleep : Exec (Unit {0})
  -- The exception and its chain of causes, with those that are the HTTP client's.
  pub causes : Raised → List (Option HttpFailure)
  pub reason : Raised → String
  pub validate_result : Json → Result AgentResult
  pub dump_context : AgentContext → Json
  pub dump_mapping : DelegatedTask → Json
  pub base_url : String  -- without the slashes at its end
  pub max_retries : ℕ

abbrev pub is_transient_status : ℕ → Bool
is_transient_status code = leb 500 code || (code == 408 || code == 429)

-- `_transient`, on the exception and its causes
unfoldable pub transient : List (Option HttpFailure) → Bool
transient [] = false
transient (none ∷ causes) = transient causes
transient (some (status code) ∷ causes) = is_transient_status code
transient (some request ∷ causes) = true

abbrev pub has_text : String → List String → Bool
has_text text texts = any (λ t. t == text) texts

abbrev pub is_sole : (endpoint : String) → List Interface → Bool
is_sole endpoint [] = false
is_sole endpoint (item ∷ []) =
    item.protocol_version == "1.0" && (item.protocol_binding == "JSONRPC" && item.url == endpoint)
is_sole endpoint (_ ∷ (_ ∷ _)) = false

-- `_validate_card`
unfoldable pub validate_card : AgentCard → AgentSpec → (endpoint : String) → Result (Unit {0})
validate_card card spec endpoint =
    if card.name == spec.name
      && (card.streaming
          && (has_text "application/json" card.input_modes
              && (has_text "application/json" card.output_modes
                  && (not card.secured
                      && (has_text (stage_text spec.stage) card.skills
                          && is_sole endpoint card.interfaces)))))
    then ok tt
    else err (value_error "Agent Card does not match the pinned A2A contract")

-- `TaskState.Name(state).removeprefix("TASK_STATE_").lower()`
abbrev pub state_name : TaskState → String
state_name TaskState.submitted = "submitted"
state_name TaskState.working = "working"
state_name TaskState.completed = "completed"
state_name TaskState.failed = "failed"
state_name TaskState.canceled = "canceled"
state_name TaskState.input_required = "input_required"
state_name TaskState.rejected = "rejected"
state_name TaskState.auth_required = "auth_required"
state_name TaskState.unspecified = "unspecified"

-- `TERMINAL`, where a task no longer runs by itself
abbrev pub is_settled : TaskState → Bool
is_settled TaskState.submitted = false
is_settled TaskState.working = false
is_settled TaskState.unspecified = false
is_settled _ = true

-- The `terminal` states of `reconcile_run`
abbrev pub is_terminal_name : String → Bool
is_terminal_name name =
    name == "completed" || (name == "failed" || (name == "canceled" || name == "rejected"))

abbrev pub agent_base : Sdk → String → String
agent_base sdk agent = concat sdk.base_url (concat "/agents/" agent)

abbrev pub agent_endpoint : Sdk → String → String
agent_endpoint sdk agent = concat (agent_base sdk agent) "/rpc"

abbrev pub checked_kind : ArtifactKind → Result AgentResult → Result AgentResult
checked_kind kind (err error) = err error
checked_kind kind (ok result) =
    if result.artifact_kind == kind then ok result else err (value_error "Unexpected artifact kind")

module _ (sdk : Sdk) where
  abbrev pub part_result : ArtifactKind → Option Json → (is_json : Bool) → Result AgentResult
  part_result kind (some content) true = checked_kind kind (sdk.validate_result content)
  part_result kind (some content) false =
      err (value_error "Expected application/json result artifact")
  part_result kind none is_json = err (value_error "Expected application/json result artifact")

  abbrev pub sole_result : ArtifactKind → List (List Part) → Result AgentResult
  sole_result kind ((part ∷ []) ∷ []) =
      part_result kind part.content (part.media_type == "application/json")
  sole_result kind _ = err (value_error "Expected exactly one structured result artifact")

  -- `_decode_result`
  unfoldable pub decode_result : AgentSpec → RemoteTask → Result AgentResult
  unfolding ArtifactKind-discrete
  decode_result spec task = sole_result spec.artifact_kind task.artifacts

  abbrev pub state_result : AgentSpec → RemoteTask → TaskState → Result AgentResult
  state_result spec task TaskState.completed = decode_result spec task
  state_result spec task TaskState.canceled = err (remote_task_canceled "was canceled")
  state_result spec task _ = err (remote_task_error task.detail)

  -- `_result`; the messages are given without their names.
  unfoldable pub task_result : AgentSpec → RemoteTask → Result AgentResult
  unfolding decode_result
  task_result spec task = state_result spec task task.state

  module _ (host : Host) where
    -- `self.database.save_delegated_task(mapping)`
    unfoldable pub save_mapping : DelegatedTask → Exec (Unit {0})
    save_mapping mapping = on_db host (λ now db. save_delegated_task mapping db)

    -- `emit(run_id, event_type, mapping.model_dump(mode="json"))`
    unfoldable pub emit_mapping : String → DelegatedTask → Exec (Unit {0})
    emit_mapping event_type mapping =
        event host mapping.run_id event_type (sdk.dump_mapping mapping)
