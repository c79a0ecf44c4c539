-- ===== src/Examples/Budget.antt =====
-- The theorem on the token budget at a concrete input.
use multi_agent_aidlc.Common.{◌≡◌, ◌≤◌, refl, false, some, List, [], ◌∷◌, null, ok}
use multi_agent_aidlc.Domain.{StageName, ArtifactKind, StageName-discrete, RunStatus}
use multi_agent_aidlc.Agents.{AgentSpec, agent_spec, agents_by_stage}
use multi_agent_aidlc.Storage.Database.State.{Db, initialize}
use multi_agent_aidlc.Storage.Database.Events.{append_event, events_after}
use multi_agent_aidlc.Orchestration.Budget.{
  ExecutionMetadata, Details, executions, is_recorded, execution_payload, phase_tokens,
  record_execution,
}
use multi_agent_aidlc.Orchestration.Budget.Limit.{record_execution-phase_tokens}
use multi_agent_aidlc.Examples.Data.{run_row}

abbrev intake_specs : List AgentSpec
intake_specs = agent_spec ("intake-agent", StageName.intake, ArtifactKind.project_brief) ∷ []

intake_staffed : agents_by_stage StageName.intake ≡ some intake_specs
unfolding agents_by_stage
intake_staffed = refl

abbrev execution : ExecutionMetadata
execution = record {
  execution_id = some "e1";
  model_id = "model";
  prompt_version = "v1";
  input_tokens = some 30;
  output_tokens = some 12;
  cost_usd = null;
  cost_basis = "unavailable";
}

abbrev details : Details
details = record {
  cache_key = null;
  context_contract_version = null;
  context_bytes = null;
  baseline_context_bytes = null;
  repair_attempt = 0;
  retry_attempt = 0;
}

abbrev before : Db
before = record initialize { runs = run_row RunStatus.running ∷ [] }

abbrev after : Db
after = record before {
  events =
      record {
        event_id = 1;
        run_id = "run_1";
        event_type = "agent.execution";
        payload = execution_payload "intake-agent" StageName.intake details execution;
        created_at = 3;
      }
      ∷ [];
  last_event_id = 1;
}

new_execution :
    is_recorded execution.execution_id (executions (events_after "run_1" 0 before)) ≡ false
unfolding is_recorded executions events_after
new_execution = refl

recorded :
    record_execution 3 50 "run_1" "intake-agent" StageName.intake details execution before
    ≡ (ok tt, after)
unfolding record_execution append_event events_after agents_by_stage StageName-discrete
recorded = refl

record_execution-phase_tokens_example :
    phase_tokens StageName.intake intake_specs (events_after "run_1" 0 after) ≤ 50
record_execution-phase_tokens_example =
    record_execution-phase_tokens 3 50 "run_1" "intake-agent" StageName.intake details execution
      intake_specs before intake_staffed new_execution recorded
