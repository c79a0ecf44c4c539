-- ===== src/Examples/Context.antt =====
-- The theorems on an agent's context at concrete inputs.
use multi_agent_aidlc.Common.{◌≡◌, ◌↔◌, refl, true, List, [], ◌∷◌, str, ok, All}
use multi_agent_aidlc.Domain.{StageName, ArtifactKind, ArtifactKind-discrete, ContextArtifact}
use multi_agent_aidlc.Agents.{AgentSpec, agent_spec}
use multi_agent_aidlc.Orchestration.Context.{select_agent_artifacts}
use multi_agent_aidlc.Orchestration.Context.Contract.{
  is_declared, select_agent_artifacts-is_declared,
}
use multi_agent_aidlc.Orchestration.Context.Supply.{is_supplied, select_agent_artifacts-is_supplied}
use multi_agent_aidlc.Examples.Data.{metadata}

abbrev requirements_agent : AgentSpec
requirements_agent =
    agent_spec ("requirements-agent", StageName.requirements, ArtifactKind.requirements_spec)

abbrev brief_item : ContextArtifact
brief_item = record {
  metadata = metadata "art_1" ArtifactKind.project_brief StageName.intake "intake-agent";
  content = str "brief";
}

abbrev report_item : ContextArtifact
report_item = record {
  metadata =
      metadata "art_0" ArtifactKind.host_capability_report StageName.preflight "host-preflight";
  content = str "report";
}

selects_brief :
    select_agent_artifacts requirements_agent (report_item ∷ brief_item ∷ []) ≡ ok (brief_item ∷ [])
unfolding select_agent_artifacts agent_spec ArtifactKind-discrete
selects_brief = refl

select_agent_artifacts-is_declared_example :
    All
      (λ item.
        (item.metadata.workflow_run_id ≡ "run_1")
        × (is_declared requirements_agent.inputs item ≡ true))
      (brief_item ∷ [])
select_agent_artifacts-is_declared_example =
    select_agent_artifacts-is_declared (λ item. item.metadata.workflow_run_id ≡ "run_1")
      requirements_agent (report_item ∷ brief_item ∷ []) (refl, (refl, tt)) selects_brief

select_agent_artifacts-is_supplied_example :
    ((selected : List ContextArtifact) × (select_agent_artifacts requirements_agent
          (brief_item ∷ [])
        ≡ ok selected))
    ↔ (is_supplied requirements_agent.inputs (brief_item ∷ []) ≡ true)
select_agent_artifacts-is_supplied_example =
    select_agent_artifacts-is_supplied requirements_agent (brief_item ∷ [])
