-- ===== src/Examples/Control.antt =====
-- The theorems on retries, cancellations and clarifications at concrete inputs.
use multi_agent_aidlc.Common.{
  ◌+◌, ◌≤◌, String, ◌≡◌, refl, arith, Bool, true, false, none, some, [], ◌∷◌, map, str,
}
use multi_agent_aidlc.Domain.{
  RunStatus, StageName, StageName-discrete, ArtifactKind, PromptKind, DelegatedTask, WorkflowRun,
  stage_order,
}
use multi_agent_aidlc.Storage.Database.State.{initialize}
use multi_agent_aidlc.Storage.Database.Runs.{get_run, new_stage_row, update_run}
use multi_agent_aidlc.Storage.Database.Events.{append_event, events_after}
use multi_agent_aidlc.Storage.Database.Index.{list_artifacts}
use multi_agent_aidlc.Storage.Database.Interactions.{list_interactions}
use multi_agent_aidlc.Orchestration.Hub.{artifact_context}
use multi_agent_aidlc.Orchestration.Services.{AgentResult}
use multi_agent_aidlc.Orchestration.World.{Exit, returned, World, mark_run, event}
use multi_agent_aidlc.Orchestration.Control.{running, over, Tasks, task_of, retry, cancel, retries}
use multi_agent_aidlc.Orchestration.Control.Requests.{
  WasRetryable, retry-WasRetryable, cancel_again,
}
use multi_agent_aidlc.Orchestration.Questions.{clarifications, request_input}
use multi_agent_aidlc.Orchestration.Questions.Rounds.{request_input-clarifications}
use multi_agent_aidlc.Examples.Data.{run_row, empty_store}
use multi_agent_aidlc.Examples.Workflow.{host, settings, services}

abbrev pub world_with : RunStatus → World
world_with status = record {
  db = record initialize {
    runs = run_row status ∷ [];
    stages = map (new_stage_row "run_1") stage_order;
  };
  store = empty_store;
  step = 7;
}

abbrev finished_tasks : Tasks
finished_tasks = ("run_1", over) ∷ []

abbrev running_tasks : Tasks
running_tasks = ("run_1", running 0) ∷ []

abbrev run_in : Exit WorkflowRun × World × Tasks → WorkflowRun → WorkflowRun
run_in (returned run, w, tasks) other = run
run_in _ other = other

abbrev before : WorkflowRun
before = record {
  run_id = "run_1";
  idea = "An idea";
  status = RunStatus.failed;
  current_stage = some StageName.intake;
  created_at = 1;
  updated_at = 1;
  error = none;
  stages = [];
}

abbrev retried : Exit WorkflowRun × World × Tasks
retried = retry host "run_1" (world_with RunStatus.failed) finished_tasks

accepted :
    retry host "run_1" (world_with RunStatus.failed) finished_tasks
    ≡ (returned (run_in retried before), retried.1, retried.2)
unfolding retry get_run artifact_context list_artifacts events_after mark_run update_run event
    append_event StageName-discrete
accepted = refl

retry-WasRetryable_example :
    WasRetryable host "run_1" (world_with RunStatus.failed) finished_tasks
    × ((run_in retried before).status ≡ RunStatus.pending)
    × (task_of "run_1" retried.2
        ≡ some (running (1 + retries "run_1" (world_with RunStatus.failed).db)))
retry-WasRetryable_example =
    retry-WasRetryable host "run_1" (world_with RunStatus.failed) finished_tasks accepted

abbrev stopped : Exit Bool × World × Tasks
stopped = cancel host "run_1" (world_with RunStatus.running) running_tasks

taken_up :
    cancel host "run_1" (world_with RunStatus.running) running_tasks
    ≡ (returned true, stopped.1, stopped.2)
unfolding cancel get_run event append_event StageName-discrete
taken_up = refl

cancel_again_example :
    cancel host "run_1" stopped.1 stopped.2 ≡ (returned false, stopped.1, stopped.2)
cancel_again_example =
    cancel_again host "run_1" (world_with RunStatus.running) running_tasks taken_up

abbrev pub mapping : DelegatedTask
mapping = record {
  invocation_id = "invocation_1";
  run_id = "run_1";
  stage = StageName.intake;
  agent = "intake-agent";
  endpoint = "http://agent";
  context_id = "context_1";
  task_id = some "task_1";
  state = "TASK_STATE_INPUT_REQUIRED";
  attempts = 1;
  repair_attempt = 0;
}

abbrev pub draft : AgentResult
draft = record {
  artifact_kind = ArtifactKind.project_brief;
  content = str "brief";
  markdown = "";
  human_prompt = some (record { kind = PromptKind.clarification; question = "Who?" });
  execution = record {
    execution_id = none;
    model_id = "model";
    prompt_version = "v4";
    input_tokens = some 10;
    output_tokens = some 5;
    cost_usd = str "0";
    cost_basis = "unknown";
  };
}

abbrev dump : AgentResult → String
dump result = "draft"

few : clarifications "run_1" (world_with RunStatus.running).db ≤ 1
unfolding clarifications list_interactions
few = omega arith

request_input-clarifications_example :
    clarifications "run_1"
      (request_input host settings services dump mapping draft (world_with RunStatus.running)).1.db
    ≤ 1
request_input-clarifications_example =
    request_input-clarifications host settings services mapping draft dump
      (world_with RunStatus.running) few
