-- ===== src/Agents/Catalog.antt =====
-- The scheduling and input contracts of src/aidlc/agents/catalog.py.
use multi_agent_aidlc.Common.{
  String, Bool, true, false, not, ◌||◌, Option, none, some, List, [], ◌∷◌, find, select, map, ◌==◌,
  string_eq,
}
use multi_agent_aidlc.Domain.{StageName, ArtifactKind, StageName-discrete, stage_name_eq}

-- One artifact that a specialist's invocation depends on.
pub record ArtifactInput : Type 0 where
  pub kind : ArtifactKind
  pub producer : Option String
  pub required : Bool
  pub fallback_kind : Option ArtifactKind

pub record AgentSpec : Type 0 where
  pub name : String
  pub stage : StageName
  pub artifact_kind : ArtifactKind
  pub inputs : List ArtifactInput
  pub include_idea : Bool
  pub context_contract_version : String
  pub prompt_version : String
  pub cacheable : Bool

abbrev pub context_contract_version : String
context_contract_version = "aidlc-context-v3"

abbrev pub roles : List (String × StageName × ArtifactKind)
roles =
    ("intake-agent", StageName.intake, ArtifactKind.project_brief)
    ∷ ("requirements-agent", StageName.requirements, ArtifactKind.requirements_spec)
    ∷ ("architecture-agent", StageName.discovery, ArtifactKind.architecture_decision)
    ∷ ("ux-agent", StageName.discovery, ArtifactKind.ux_specification)
    ∷ ("security-agent", StageName.discovery, ArtifactKind.threat_model)
    ∷ ("test-planner-agent", StageName.discovery, ArtifactKind.test_plan)
    ∷ ("planning-agent", StageName.planning, ArtifactKind.implementation_plan)
    ∷ ("backend-agent", StageName.implementation, ArtifactKind.code_change)
    ∷ ("frontend-agent", StageName.implementation, ArtifactKind.code_change)
    ∷ ("test-agent", StageName.implementation, ArtifactKind.code_change)
    ∷ ("build-agent", StageName.integration, ArtifactKind.build_report)
    ∷ ("validation-agent", StageName.integration, ArtifactKind.test_report)
    ∷ ("static-analysis-agent", StageName.integration, ArtifactKind.static_analysis_report)
    ∷ ("evaluation-agent", StageName.evaluation, ArtifactKind.evaluation_report)
    ∷ ("release-agent", StageName.release, ArtifactKind.release_bundle)
    ∷ []

-- `_input`
abbrev pub input : ArtifactKind → Option String → Bool → Option ArtifactKind → ArtifactInput
input kind producer required fallback_kind = record {
  kind = kind;
  producer = producer;
  required = required;
  fallback_kind = fallback_kind;
}

-- `_INPUTS`
abbrev pub agent_inputs : List (String × List ArtifactInput)
agent_inputs =
    (
      "intake-agent",
      input ArtifactKind.project_brief (some "intake-agent") false none
          ∷ input ArtifactKind.human_response none false none
          ∷ [],
    )
    ∷ (
      "requirements-agent",
      input ArtifactKind.project_brief none true none
          ∷ input ArtifactKind.human_response none false none
          ∷ [],
    )
    ∷ (
      "architecture-agent",
      input ArtifactKind.project_brief none true none
          ∷ input ArtifactKind.requirements_spec none true none
          ∷ [],
    )
    ∷ (
      "ux-agent",
      input ArtifactKind.project_brief none true none
          ∷ input ArtifactKind.requirements_spec none true none
          ∷ [],
    )
    ∷ (
      "security-agent",
      input ArtifactKind.project_brief none true none
          ∷ input ArtifactKind.requirements_spec none true none
          ∷ [],
    )
    ∷ (
      "test-planner-agent",
      input ArtifactKind.project_brief none true none
          ∷ input ArtifactKind.requirements_spec none true none
          ∷ [],
    )
    ∷ (
      "planning-agent",
      input ArtifactKind.requirements_spec none true none
          ∷ input ArtifactKind.architecture_decision none true none
          ∷ input ArtifactKind.ux_specification none true none
          ∷ input ArtifactKind.threat_model none true none
          ∷ input ArtifactKind.test_plan none true none
          ∷ [],
    )
    ∷ (
      "backend-agent",
      input ArtifactKind.requirements_spec none true none
          ∷ input ArtifactKind.architecture_decision none true none
          ∷ input ArtifactKind.implementation_plan none true none
          ∷ input ArtifactKind.integrated_source none false none
          ∷ input ArtifactKind.code_change (some "backend-agent") false none
          ∷ [],
    )
    ∷ (
      "frontend-agent",
      input ArtifactKind.requirements_spec none true none
          ∷ input ArtifactKind.architecture_decision none true none
          ∷ input ArtifactKind.ux_specification none true none
          ∷ input ArtifactKind.implementation_plan none true none
          ∷ input ArtifactKind.integrated_source none false none
          ∷ input ArtifactKind.code_change (some "frontend-agent") false none
          ∷ [],
    )
    ∷ (
      "test-agent",
      input ArtifactKind.requirements_spec none true none
          ∷ input ArtifactKind.test_plan none true none
          ∷ input ArtifactKind.implementation_plan none true none
          ∷ input ArtifactKind.integrated_source none false none
          ∷ input ArtifactKind.code_change (some "test-agent") false none
          ∷ [],
    )
    ∷ (
      "build-agent",
      input ArtifactKind.integrated_source none false (some ArtifactKind.code_change) ∷ [],
    )
    ∷ (
      "validation-agent",
      input ArtifactKind.requirements_spec none true none
          ∷ input ArtifactKind.test_plan none true none
          ∷ input ArtifactKind.integrated_source none false (some ArtifactKind.code_change)
          ∷ [],
    )
    ∷ (
      "static-analysis-agent",
      input ArtifactKind.integrated_source none false (some ArtifactKind.code_change) ∷ [],
    )
    ∷ (
      "evaluation-agent",
      input ArtifactKind.requirements_spec none true none
          ∷ input ArtifactKind.architecture_decision none true none
          ∷ input ArtifactKind.ux_specification none true none
          ∷ input ArtifactKind.threat_model none true none
          ∷ input ArtifactKind.test_plan none true none
          ∷ input ArtifactKind.integrated_source none false none
          ∷ input ArtifactKind.build_report none true none
          ∷ input ArtifactKind.test_report none true none
          ∷ input ArtifactKind.build_report (some "trusted-sandbox-service") false none
          ∷ input ArtifactKind.test_report (some "trusted-sandbox-service") false none
          ∷ input ArtifactKind.static_analysis_report none true none
          ∷ input ArtifactKind.quality_gate_report none true none
          ∷ [],
    )
    ∷ (
      "release-agent",
      input ArtifactKind.integrated_source none false none
          ∷ input ArtifactKind.quality_gate_report none true none
          ∷ input ArtifactKind.evaluation_report none true none
          ∷ input ArtifactKind.human_response none false none
          ∷ [],
    )
    ∷ []

-- `_INPUTS[name]` for a name of the table
abbrev pub inputs_of : String → List ArtifactInput
inputs_of name = in_row (find (λ row. row.0 == name) agent_inputs)
  where
    in_row : Option (String × List ArtifactInput) → List ArtifactInput
    in_row none = []
    in_row (some row) = row.1

-- `role[0] in _IDEA_AGENTS`
abbrev pub is_idea_agent : String → Bool
is_idea_agent name = name == "intake-agent" || name == "requirements-agent"

-- `GOAL_VERSION` of the agents' profiles
abbrev pub goal_version : String
goal_version = "aidlc-agent-goals-v4"

-- A row of `AGENT_SPECS`
unfoldable pub agent_spec : String × StageName × ArtifactKind → AgentSpec
agent_spec (name, stage, kind) = record {
  name = name;
  stage = stage;
  artifact_kind = kind;
  inputs = inputs_of name;
  include_idea = is_idea_agent name;
  context_contract_version = context_contract_version;
  prompt_version = goal_version;
  cacheable = not (name == "intake-agent");
}

unfoldable pub agent_specs : List AgentSpec
unfolding agent_spec
agent_specs = map agent_spec roles

-- `AGENTS_BY_STAGE.get(stage)`, which has no row for the preflight
unfoldable pub agents_by_stage : StageName → Option (List AgentSpec)
unfolding agent_specs StageName-discrete
agents_by_stage StageName.preflight = none
agents_by_stage stage = some (select (λ spec. spec.stage == stage) agent_specs)
