-- ===== src/Examples/Client.antt =====
-- The theorems on the client of the agents at concrete inputs.
use multi_agent_aidlc.A2a.Client.{task_result}
use multi_agent_aidlc.Storage.Database.Events.{append_event}
use multi_agent_aidlc.Orchestration.World.{event}
use multi_agent_aidlc.A2a.Client.{emit_mapping}
use multi_agent_aidlc.Storage.Database.Tasks.{save_delegated_task}
use multi_agent_aidlc.A2a.Client.{save_mapping}
use multi_agent_aidlc.A2a.Client.{validate_card}
use multi_agent_aidlc.Agents.{agent_specs}
use multi_agent_aidlc.Common.{
  ℕ, String, ◌≡◌, refl, true, false, none, some, [], ◌∷◌, null, obj, end, str, ok,
}
use multi_agent_aidlc.Domain.{RunStatus, StageName, ArtifactKind, AgentContext, DelegatedTask}
use multi_agent_aidlc.Agents.{AgentSpec, agent_spec}
use multi_agent_aidlc.A2a.TaskStore.{TaskState}
use multi_agent_aidlc.A2a.Client.{
  AgentCard, RemoteTask, Stream, of_task, over, arrives, Request, Sdk,
}
use multi_agent_aidlc.A2a.Client.Reconciliation.{reconcile_run}
use multi_agent_aidlc.A2a.Client.Reconciliation.Outcome.{Reconciled, reconcile_run-Reconciled}
use multi_agent_aidlc.A2a.Client.Invocation.{Session, Answered, answered, HumanReply, invoke}
use multi_agent_aidlc.A2a.Client.Invocation.Completion.{Stands, invoke-Stands}
use multi_agent_aidlc.Storage.Database.Tasks.{list_delegated_tasks}
use multi_agent_aidlc.Orchestration.Services.{AgentResult}
use multi_agent_aidlc.Orchestration.World.{Exit, returned, World, Exec, pure}
use multi_agent_aidlc.Examples.Workflow.{host}
use multi_agent_aidlc.Examples.Control.{world_with, mapping, draft}

abbrev spec : AgentSpec
spec = agent_spec ("intake-agent", StageName.intake, ArtifactKind.project_brief)

abbrev card : AgentCard
card = record {
  name = "intake-agent";
  streaming = true;
  input_modes = "application/json" ∷ [];
  output_modes = "application/json" ∷ [];
  secured = false;
  skills = "intake" ∷ [];
  interfaces =
      record {
        protocol_version = "1.0";
        protocol_binding = "JSONRPC";
        url = "http://hub/agents/intake-agent/rpc";
      }
      ∷ [];
}

abbrev remote : TaskState → RemoteTask
remote state = record {
  id = "task_1";
  context_id = "run_1:intake";
  state = state;
  detail = "";
  artifacts = (record { content = some (obj end); media_type = "application/json" } ∷ []) ∷ [];
}

abbrev undisturbed : World → World
undisturbed w = w

abbrev opening : Request → World → Stream
opening request w =
    arrives undisturbed (of_task "task_1" request.context_id TaskState.submitted) (over undisturbed)

abbrev sdk : Sdk
sdk = record {
  get_agent_card = λ base. pure card;
  send_message = opening;
  get_task = λ id. pure (remote TaskState.completed);
  cancel_task = λ id. pure tt;
  sleep = pure tt;
  causes = λ error. [];
  reason = λ error. "reason";
  validate_result = λ content. ok (record draft { human_prompt = none });
  dump_context = λ context. str "context";
  dump_mapping = λ mapping. str "mapping";
  base_url = "http://hub";
  max_retries = 2;
}

abbrev waiting_world : World
waiting_world =
    let w = world_with RunStatus.failed in
    record w { db = record w.db { delegated_tasks = mapping ∷ [] } }

abbrev reconciled : Exit (Unit {0}) × World
reconciled = reconcile_run sdk host "run_1" waiting_world

reconciles : reconcile_run sdk host "run_1" waiting_world ≡ (returned tt, reconciled.1)
unfolding reconcile_run list_delegated_tasks agent_specs validate_card save_mapping
    save_delegated_task emit_mapping event append_event
reconciles = refl

reconcile_run-Reconciled_example :
    Reconciled sdk host (list_delegated_tasks "run_1" waiting_world.db) waiting_world reconciled.1
reconcile_run-Reconciled_example =
    reconcile_run-Reconciled sdk host "run_1" waiting_world reconciles

abbrev context : AgentContext
context = record {
  retry_attempt = 0;
  run_id = "run_1";
  idea = "An idea";
  stage = StageName.intake;
  artifacts = [];
  human_response = none;
  repair_attempt = 0;
  repair_feedback = none;
  repair_artifact_id = none;
  repair_artifact_sha256 = none;
}

abbrev reply : DelegatedTask → AgentResult → Exec HumanReply
reply delegated draft_result = pure (record { action_id = "action_1"; response = null })

abbrev digits : ℕ → String
digits n = "n"

abbrev invoked : Answered AgentResult × Session × World
invoked = invoke sdk host spec context reply digits 1 (world_with RunStatus.running)

abbrev result : AgentResult
result = record draft { human_prompt = none }

returns :
    invoke sdk host spec context reply digits 1 (world_with RunStatus.running)
    ≡ (answered result, invoked.1, invoked.2)
unfolding invoke save_mapping save_delegated_task validate_card agent_spec event append_event
    emit_mapping task_result
returns = refl

invoke-Stands_example : Stands sdk host spec result invoked.1 invoked.2
invoke-Stands_example =
    invoke-Stands sdk spec host context reply digits 1 (world_with RunStatus.running) returns
