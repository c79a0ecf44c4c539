-- ===== src/Domain/Kinds.antt =====
-- The enumerations of src/aidlc/domain/models.py, and the `Literal` types of its requests.
use multi_agent_aidlc.Common.{String, Bool, true, false, List, [], ◌∷◌, Eq, of_discrete}

pub data RunStatus : Type 0 where
  pending running input_required completed failed canceled blocked : RunStatus

abbrev pub terminal_run_statuses : RunStatus → Bool
terminal_run_statuses RunStatus.completed = true
terminal_run_statuses RunStatus.failed = true
terminal_run_statuses RunStatus.canceled = true
terminal_run_statuses RunStatus.blocked = true
terminal_run_statuses _ = false

pub data StageName : Type 0 where
  preflight intake requirements discovery planning implementation integration : StageName
  evaluation release : StageName

abbrev pub stage_order : List StageName
stage_order =
    preflight ∷ intake ∷ requirements ∷ discovery ∷ planning ∷ implementation ∷ integration
    ∷ evaluation ∷ release ∷ []

pub data ArtifactKind : Type 0 where
  host_capability_report sandbox_qualification_report sandbox_recovery_report : ArtifactKind
  project_brief requirements_spec architecture_decision ux_specification : ArtifactKind
  threat_model test_plan implementation_plan code_change integrated_source : ArtifactKind
  build_report test_report static_analysis_report quality_gate_report : ArtifactKind
  repair_request evaluation_report release_bundle human_request human_response : ArtifactKind

pub data CapabilityStatus : Type 0 where
  pass warn fail unavailable : CapabilityStatus

-- `HumanPrompt.kind`
pub data PromptKind : Type 0 where
  clarification approval evaluation_decision : PromptKind

-- `HumanAction.decision`
pub data Decision : Type 0 where
  submit approve reject accept repair : Decision

unfoldable pub RunStatus-discrete : Discrete RunStatus
RunStatus-discrete = hlevel

unfoldable pub StageName-discrete : Discrete StageName
StageName-discrete = hlevel

unfoldable pub ArtifactKind-discrete : Discrete ArtifactKind
ArtifactKind-discrete = hlevel

unfoldable pub CapabilityStatus-discrete : Discrete CapabilityStatus
CapabilityStatus-discrete = hlevel

unfoldable pub PromptKind-discrete : Discrete PromptKind
PromptKind-discrete = hlevel

unfoldable pub Decision-discrete : Discrete Decision
Decision-discrete = hlevel

instance abbrev pub run_status_eq : Eq RunStatus
run_status_eq = of_discrete RunStatus-discrete

instance abbrev pub stage_name_eq : Eq StageName
stage_name_eq = of_discrete StageName-discrete

instance abbrev pub artifact_kind_eq : Eq ArtifactKind
artifact_kind_eq = of_discrete ArtifactKind-discrete

instance abbrev pub capability_status_eq : Eq CapabilityStatus
capability_status_eq = of_discrete CapabilityStatus-discrete

instance abbrev pub prompt_kind_eq : Eq PromptKind
prompt_kind_eq = of_discrete PromptKind-discrete

instance abbrev pub decision_eq : Eq Decision
decision_eq = of_discrete Decision-discrete

-- The text of a stage, which is the value of the enumeration.
abbrev pub stage_text : StageName → String
stage_text preflight = "preflight"
stage_text intake = "intake"
stage_text requirements = "requirements"
stage_text discovery = "discovery"
stage_text planning = "planning"
stage_text implementation = "implementation"
stage_text integration = "integration"
stage_text evaluation = "evaluation"
stage_text release = "release"

-- The text of a kind.
abbrev pub kind_text : ArtifactKind → String
kind_text host_capability_report = "host_capability_report"
kind_text sandbox_qualification_report = "sandbox_qualification_report"
kind_text sandbox_recovery_report = "sandbox_recovery_report"
kind_text project_brief = "project_brief"
kind_text requirements_spec = "requirements_spec"
kind_text architecture_decision = "architecture_decision"
kind_text ux_specification = "ux_specification"
kind_text threat_model = "threat_model"
kind_text test_plan = "test_plan"
kind_text implementation_plan = "implementation_plan"
kind_text code_change = "code_change"
kind_text integrated_source = "integrated_source"
kind_text build_report = "build_report"
kind_text test_report = "test_report"
kind_text static_analysis_report = "static_analysis_report"
kind_text quality_gate_report = "quality_gate_report"
kind_text repair_request = "repair_request"
kind_text evaluation_report = "evaluation_report"
kind_text release_bundle = "release_bundle"
kind_text human_request = "human_request"
kind_text human_response = "human_response"
