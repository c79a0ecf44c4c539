-- ===== src/Orchestration/Context/Key.antt =====
-- `canonical_context_bytes` and `context_cache_key` of src/aidlc/orchestration/context.py.
use multi_agent_aidlc.Common.{
  ℕ, String, Bool, Option, none, some, List, [], ◌∷◌, Json, null, num, str, arr, obj, Items, nil,
  cons, field, end, length, codes, if◌then◌else◌, ◌==◌, string_eq,
}
use multi_agent_aidlc.Domain.{AgentContext, ContextArtifact, Hashing}
use multi_agent_aidlc.Agents.{AgentSpec}

abbrev pub json_or_null : Option Json → Json
json_or_null none = null
json_or_null (some value) = value

abbrev pub string_or_null : Option String → Json
string_or_null none = null
string_or_null (some text) = str text

-- The runtime profile of the settings, and the limits that the hub enforces.
pub record Settings : Type 0 where
  pub model : String
  pub reasoning_effort : String
  pub max_model_output_tokens : ℕ
  pub max_implementation_output_tokens : ℕ
  pub sandbox_backend : String
  pub sandbox_image : String
  pub sandbox_execution_enabled : Bool
  pub analysis_backend : String
  pub mcp_enabled : Bool
  pub score_threshold : Json  -- the JSON of `evaluation_score_threshold`
  pub max_evaluation_repair_attempts : ℕ
  pub max_clarification_rounds : ℕ
  pub token_budget_per_phase_per_run : ℕ
  pub enforce_host_preflight : Bool

-- `_cache_runtime_profile`
unfoldable pub cache_runtime_profile : Settings → Json
cache_runtime_profile settings = obj (
    field "reasoning_effort" (str settings.reasoning_effort) (
      field "max_model_output_tokens" (num settings.max_model_output_tokens) (
        field "max_implementation_output_tokens" (num settings.max_implementation_output_tokens) (
          field "sandbox_backend" (str settings.sandbox_backend) (
            field "sandbox_image" (str settings.sandbox_image) (
              field "sandbox_execution_enabled" (Json.bool settings.sandbox_execution_enabled) (
                field "analysis_backend" (str settings.analysis_backend) (
                  field "mcp_enabled" (Json.bool settings.mcp_enabled)
                    (field "evaluation_score_threshold" settings.score_threshold end)))))))))

module _ (hashing : Hashing) where
  open hashing use {sha256, dumps}

  -- `canonical_context_bytes`, where `dump` is `model_dump(mode="json")`; the text is ASCII.
  abbrev pub canonical_context : (dump : AgentContext → Json) → AgentContext → String
  canonical_context dump context = dumps (dump context)

  abbrev pub byte_count : String → ℕ
  byte_count text = length (codes text)

  -- `metadata.get("content_sha256") or sha256(content)`
  abbrev pub artifact_hash : ContextArtifact → String
  artifact_hash item =
      if item.metadata.content_sha256 == ""
      then sha256 (dumps item.content)
      else item.metadata.content_sha256

  abbrev pub artifact_hashes : List ContextArtifact → Items
  artifact_hashes [] = nil
  artifact_hashes (item ∷ items) = cons (str (artifact_hash item)) (artifact_hashes items)

  unfoldable pub cache_payload : AgentSpec → AgentContext → (model_id : String) → Json → Json
  cache_payload spec context model_id runtime_profile = obj (
      field "agent" (str spec.name) (
        field "model_id" (str model_id) (
          field "prompt_version" (str spec.prompt_version) (
            field "context_contract_version" (str spec.context_contract_version) (
              field "idea" (str context.idea) (
                field "artifact_hashes" (arr (artifact_hashes context.artifacts)) (
                  field "human_response" (json_or_null context.human_response) (
                    field "repair_attempt" (num context.repair_attempt) (
                      field "repair_feedback" (json_or_null context.repair_feedback) (
                        field "repair_artifact_sha256"
                          (string_or_null context.repair_artifact_sha256)
                          (field "runtime_profile" runtime_profile end)))))))))))

  unfoldable pub context_cache_key : AgentSpec → AgentContext → (model_id : String) → Json → String
  unfolding cache_payload
  context_cache_key spec context model_id runtime_profile =
      sha256 (dumps (cache_payload spec context model_id runtime_profile))
