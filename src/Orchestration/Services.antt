-- ===== src/Orchestration/Services.antt =====
-- What the hub of src/aidlc/orchestration/workflow.py calls: the components that it reaches through
-- `await`, and the dumps and validations of its models.
use multi_agent_aidlc.Common.{ℕ, String, Bool, Option, List, Json, Error, Result}
use multi_agent_aidlc.Domain.{
  AgentContext, ArtifactKind, HostCapabilityReport, HumanInteraction, HumanPrompt,
}
use multi_agent_aidlc.Agents.{AgentSpec}
use multi_agent_aidlc.Evaluation.{Floats, EvaluationReport, QualityGateReport}
use multi_agent_aidlc.Orchestration.Budget.{ExecutionMetadata}
use multi_agent_aidlc.Orchestration.World.{Exec, Raised, World}

-- `AgentResult`
pub record AgentResult : Type 0 where
  pub artifact_kind : ArtifactKind
  pub content : Json
  pub markdown : String
  pub human_prompt : Option HumanPrompt
  pub execution : ExecutionMetadata

-- What runs while the hub waits may change the world: other agents of the stage, and the answers
-- of a person. A cancellation of the run reaches it as an exception of what it waits for.
pub record Services (floats : Floats) : Type 0 where
  pub inspect_host : Exec HostCapabilityReport
  pub reconcile_run : String → Exec (Unit {0})
  pub invoke : AgentSpec → AgentContext → Exec AgentResult
  -- The cancellation of an invocation under way, and an exception that it ends with, if it is not
  -- the cancellation's.
  pub abandon : AgentSpec → World → Option Raised × World
  -- The order in which the tasks of a stage go on, by their places; the semaphore allows only some.
  pub schedule : World → List ℕ
  pub evaluate_gates : AgentContext → Result QualityGateReport
  pub pinned : String → Result Bool
  pub dump_context : AgentContext → Json
  pub dump_gates : QualityGateReport → Json
  pub dump_evaluation : EvaluationReport floats → Json
  pub dump_host : HostCapabilityReport → Json
  pub dump_score : Option floats.Float → Json
  pub dump_interaction : HumanInteraction → Json
  pub gates_markdown : QualityGateReport → String
  pub repair_markdown : (attempt : ℕ) → String
  pub describe : Error → String  -- the class of an exception and its message
  pub host_markdown : HostCapabilityReport → String
  pub parse_gates : Json → Result QualityGateReport
  pub parse_evaluation : Json → Result (EvaluationReport floats)
