-- ===== src/Examples/Workflow.antt =====
-- The theorems on the execution of a run, on a run that every agent serves.
use multi_agent_aidlc.Storage.Database.Interactions.{list_interactions}
use multi_agent_aidlc.Evaluation.{overall_score}
use multi_agent_aidlc.Evaluation.{repair_decision}
use multi_agent_aidlc.Orchestration.Repair.{evidence}
use multi_agent_aidlc.Orchestration.Repair.{decide}
use multi_agent_aidlc.Agents.Sources.{is_vite_config}
use multi_agent_aidlc.Agents.Sources.{is_python}
use multi_agent_aidlc.Agents.Sources.{is_under}
use multi_agent_aidlc.Tools.Source.{validate_source}
use multi_agent_aidlc.Agents.Sources.{merge_sources}
use multi_agent_aidlc.Orchestration.Publish.{integrate}
use multi_agent_aidlc.Storage.Snapshots.{invalidated_kinds}
use multi_agent_aidlc.Orchestration.Hub.{cached_output}
use multi_agent_aidlc.Storage.Artifacts.{remove_stale}
use multi_agent_aidlc.Storage.Database.Events.{events_after}
use multi_agent_aidlc.Orchestration.Budget.{record_execution}
use multi_agent_aidlc.Orchestration.Context.{build_agent_context}
use multi_agent_aidlc.Orchestration.Invocation.{task_group}
use multi_agent_aidlc.Domain.{project_id_for_run}
use multi_agent_aidlc.Storage.Artifacts.{initialize_project}
use multi_agent_aidlc.Storage.Artifacts.{read_content}
use multi_agent_aidlc.Storage.Database.Index.{list_artifacts}
use multi_agent_aidlc.Orchestration.Hub.{artifact_context}
use multi_agent_aidlc.Agents.{agents_by_stage}
use multi_agent_aidlc.Orchestration.Stage.{run_stage}
use multi_agent_aidlc.Storage.Database.Runs.Stages.{set_stage}
use multi_agent_aidlc.Orchestration.Hub.{stage_completed}
use multi_agent_aidlc.Orchestration.World.{event}
use multi_agent_aidlc.Storage.Database.Index.{insert_artifact}
use multi_agent_aidlc.Storage.Snapshots.{snapshot_kinds}
use multi_agent_aidlc.Storage.Database.Index.{add_artifact}
use multi_agent_aidlc.Orchestration.World.{index_artifact}
use multi_agent_aidlc.Storage.Artifacts.{write}
use multi_agent_aidlc.Orchestration.World.{publish}
use multi_agent_aidlc.Storage.Database.Runs.{update_run}
use multi_agent_aidlc.Storage.Database.Runs.Stages.{update_stage}
use multi_agent_aidlc.Orchestration.Hub.{stage_started}
use multi_agent_aidlc.Orchestration.Stage.{preflight}
use multi_agent_aidlc.Orchestration.World.{mark_run}
use multi_agent_aidlc.Storage.Database.Events.{append_event}
use multi_agent_aidlc.Storage.Database.Runs.{create_run}
use multi_agent_aidlc.Storage.Database.Runs.{get_run}
use multi_agent_aidlc.Common.{
  ℕ, zero, suc, String, ◌≡◌, refl, Bool, true, false, Option, none, some, [], ◌∷◌, Json, null, num,
  str, obj, end, Result, ok, err, find, concat, ◌==◌, string_eq, eq_of_beq,
}
use multi_agent_aidlc.Domain.{
  RunStatus, run_status_eq, WorkflowRun, HostCapabilityReport, ContextArtifact,
  terminal_run_statuses,
}
use multi_agent_aidlc.Agents.{AgentSpec}
use multi_agent_aidlc.Storage.Database.State.{initialize}
use multi_agent_aidlc.Orchestration.Context.Key.{Settings}
use multi_agent_aidlc.Orchestration.Publish.{begin_run}
use multi_agent_aidlc.Orchestration.Services.{AgentResult, Services}
use multi_agent_aidlc.Orchestration.World.{Exit, World, Host, pure}
use multi_agent_aidlc.Orchestration.Workflow.{execute}
use multi_agent_aidlc.Orchestration.Workflow.Delivery.{Delivered}
use multi_agent_aidlc.Orchestration.Workflow.Conclusion.{execute-terminal, execute-Delivered}
use multi_agent_aidlc.Orchestration.Workflow.Fuel.{execute_total}
use multi_agent_aidlc.Examples.Data.{hashing, empty_store}
use multi_agent_aidlc.Examples.Sources.{pinned, changes}
use multi_agent_aidlc.Examples.Evaluation.{whole, gates, report}

abbrev tally : ℕ → String
tally zero = ""
tally (suc n) = concat "i" (tally n)

abbrev pub host : Host
host = record { hashing = hashing; clock = λ n. n; uuid = tally }

abbrev pub settings : Settings
settings = record {
  model = "model";
  reasoning_effort = "low";
  max_model_output_tokens = 100;
  max_implementation_output_tokens = 100;
  sandbox_backend = "docker";
  sandbox_image = "image";
  sandbox_execution_enabled = true;
  analysis_backend = "local";
  mcp_enabled = false;
  score_threshold = num 4;
  max_evaluation_repair_attempts = 2;
  max_clarification_rounds = 1;
  token_budget_per_phase_per_run = 1000;
  enforce_host_preflight = true;
}

abbrev able : HostCapabilityReport
able = record {
  ready = true;
  degraded = false;
  os_id = "ubuntu";
  os_version = "24.04";
  architecture = "x86_64";
  kernel = "6.8";
  checks = [];
}

abbrev content_of : Option ContextArtifact → Json
content_of none = obj end
content_of (some item) = item.content

abbrev answer : AgentSpec → AgentResult
answer spec = record {
  artifact_kind = spec.artifact_kind;
  content = content_of (find (λ item. item.metadata.producing_agent == spec.name) changes);
  markdown = "";
  human_prompt = none;
  execution = record {
    execution_id = none;
    model_id = "model";
    prompt_version = "v4";
    input_tokens = some 10;
    output_tokens = some 5;
    cost_usd = null;
    cost_basis = "unknown";
  };
}

abbrev pub services : Services whole
services = record {
  inspect_host = pure able;
  reconcile_run = λ run_id. pure tt;
  invoke = λ spec context. pure (answer spec);
  abandon = λ spec w. (none, w);
  schedule = λ w. 1 ∷ 0 ∷ 1 ∷ [];
  evaluate_gates = λ context. ok gates;
  pinned = pinned;
  dump_context = λ context. str "context";
  dump_gates = λ g. obj end;
  dump_evaluation = λ e. obj end;
  dump_host = λ h. obj end;
  dump_score = λ s. null;
  dump_interaction = λ i. obj end;
  gates_markdown = λ g. "";
  repair_markdown = λ n. "";
  describe = λ e. "error";
  host_markdown = λ h. "";
  parse_gates = λ j. ok gates;
  parse_evaluation = λ j. ok report;
}

abbrev new_world : Result WorkflowRun × World
new_world =
    let (r, db, store) = begin_run hashing "1" 0 "An idea" initialize empty_store in
    (r, record { db = db; store = store; step = 1 })

-- A run whose execution is over, with the run that is then read.
record Over (fuel retry_attempt : ℕ) (w : World) (status : RunStatus) : Type 0 where
  exit : Exit (Unit {0})
  world : World
  run : WorkflowRun
  executed : execute host settings 4 services fuel "run_1" retry_attempt w ≡ some (exit, world)
  read : get_run "run_1" world.db ≡ ok (some run)
  shown : run.status ≡ status

abbrev shows : RunStatus → Result (Option WorkflowRun) → Bool
shows status (ok (some run)) = run.status == status
shows status _ = false

abbrev ends_as : RunStatus → Option (Exit (Unit {0}) × World) → Bool
ends_as status none = false
ends_as status (some (exit, w)) = shows status (get_run "run_1" w.db)

read_as :
    (status : RunStatus) (r : Result (Option WorkflowRun))
    → shows status r ≡ true
    → (run : WorkflowRun) × (r ≡ ok (some run)) × (run.status ≡ status)
read_as status (ok (some run)) h = (run, refl, eq_of_beq run.status status h)
read_as status (ok none) h = cc h
read_as status (err error) h = cc h

over :
    (fuel retry_attempt : ℕ) (w : World) (status : RunStatus) (r : Option (Exit (Unit {0}) × World))
    → execute host settings 4 services fuel "run_1" retry_attempt w ≡ r
    → ends_as status r ≡ true
    → Over fuel retry_attempt w status
over fuel retry_attempt w status none e h = cc h
over fuel retry_attempt w status (some (exit, world)) e h =
    let (run, read, shown) = read_as status (get_run "run_1" world.db) h in
    record { exit = exit; world = world; run = run; executed = e; read = read; shown = shown }

completes :
    ends_as RunStatus.completed (execute host settings 4 services 3 "run_1" 0 new_world.1) ≡ true
unfolding execute get_run begin_run create_run append_event mark_run preflight stage_started
    update_stage update_run publish write index_artifact add_artifact snapshot_kinds insert_artifact
    event stage_completed set_stage run_stage agents_by_stage artifact_context list_artifacts
    read_content initialize_project project_id_for_run task_group build_agent_context
    record_execution events_after remove_stale cached_output invalidated_kinds integrate
    merge_sources validate_source is_under is_python is_vite_config decide evidence repair_decision
    overall_score list_interactions
completes = refl

abbrev delivery : Over 3 0 new_world.1 RunStatus.completed
delivery = over 3 0 new_world.1 RunStatus.completed _ refl completes

execute-terminal_example : terminal_run_statuses delivery.run.status ≡ true
execute-terminal_example =
    execute-terminal host settings 4 services 3 "run_1" 0 new_world.1 delivery.executed
      delivery.read

execute-Delivered_example :
    (run : WorkflowRun) × (get_run "run_1" new_world.1.db ≡ ok (some run))
    × Delivered host settings 4 services run 0 new_world.1 delivery.world
execute-Delivered_example =
    execute-Delivered host settings 4 services 3 "run_1" 0 new_world.1 delivery.executed
      delivery.read delivery.shown

execute_total_example :
    (r : Exit (Unit {0}) × World) × (execute host settings 4 services 3 "run_1" 0 new_world.1
      ≡ some r)
execute_total_example = execute_total host settings 4 services "run_1" 0 new_world.1
