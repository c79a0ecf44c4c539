-- ===== src/A2a/Client/Decoding.antt =====
-- What a decoded result says of its task.
use mathlib.Core.Path.{subst}
use multi_agent_aidlc.Common.{
  ◌≡◌, refl, inl, inr, Bool, true, false, Option, none, some, List, [], ◌∷◌, Json, Result, ok, err,
  Bool-cases, ◌==◌, string_eq, eq_of_beq,
}
use multi_agent_aidlc.Domain.{artifact_kind_eq}
use multi_agent_aidlc.Agents.{AgentSpec}
use multi_agent_aidlc.A2a.TaskStore.{TaskState, task_state_eq}
use multi_agent_aidlc.A2a.Client.{
  Part, RemoteTask, Sdk, checked_kind, part_result, sole_result, state_result, decode_result,
  task_result,
}
use multi_agent_aidlc.Orchestration.Services.{AgentResult}

module _ (sdk : Sdk) (spec : AgentSpec) where
  checked_kind-kind :
      (r : Result AgentResult) {result : AgentResult}
      → checked_kind spec.artifact_kind r ≡ ok result
      → result.artifact_kind ≡ spec.artifact_kind
  checked_kind-kind (err error) h = cc h
  checked_kind-kind (ok found) {result} h =
      elim (Bool-cases (found.artifact_kind == spec.artifact_kind)) [
        | inl same ↦
            let there : found ≡ result = cc (rw same at h) in
            subst (λ (r : AgentResult). r.artifact_kind ≡ spec.artifact_kind) there
              (eq_of_beq found.artifact_kind spec.artifact_kind same)
        | inr other ↦ cc (rw other at h)
      ]

  part_result-kind :
      (content : Option Json) (is_json : Bool) {result : AgentResult}
      → part_result sdk spec.artifact_kind content is_json ≡ ok result
      → result.artifact_kind ≡ spec.artifact_kind
  part_result-kind (some content) true h = checked_kind-kind (sdk.validate_result content) h
  part_result-kind (some content) false h = cc h
  part_result-kind none is_json h = cc h

  sole_result-kind :
      (artifacts : List (List Part)) {result : AgentResult}
      → sole_result sdk spec.artifact_kind artifacts ≡ ok result
      → result.artifact_kind ≡ spec.artifact_kind
  sole_result-kind ((part ∷ []) ∷ []) h =
      part_result-kind part.content (part.media_type == "application/json") h
  sole_result-kind [] h = cc h
  sole_result-kind ([] ∷ rest) h = cc h
  sole_result-kind ((part ∷ (next ∷ parts)) ∷ rest) h = cc h
  sole_result-kind ((part ∷ []) ∷ (next ∷ rest)) h = cc h

  pub decode_result-kind :
      (task : RemoteTask) {result : AgentResult}
      → decode_result sdk spec task ≡ ok result
      → result.artifact_kind ≡ spec.artifact_kind
  unfolding decode_result
  decode_result-kind task h = sole_result-kind task.artifacts h

  state_result-completed :
      (task : RemoteTask) (state : TaskState) {result : AgentResult}
      → state_result sdk spec task state ≡ ok result
      → (state ≡ TaskState.completed) × (decode_result sdk spec task ≡ ok result)
  state_result-completed task TaskState.completed h = (refl, h)
  state_result-completed task TaskState.canceled h = cc h
  state_result-completed task TaskState.submitted h = cc h
  state_result-completed task TaskState.working h = cc h
  state_result-completed task TaskState.failed h = cc h
  state_result-completed task TaskState.rejected h = cc h
  state_result-completed task TaskState.input_required h = cc h
  state_result-completed task TaskState.auth_required h = cc h
  state_result-completed task TaskState.unspecified h = cc h

  pub task_result-completed :
      (task : RemoteTask) {result : AgentResult}
      → task_result sdk spec task ≡ ok result
      → (task.state ≡ TaskState.completed) × (decode_result sdk spec task ≡ ok result)
  unfolding task_result
  task_result-completed task h = state_result-completed task task.state h
