-- ===== src/Orchestration/Invocation.antt =====
-- The tasks of one stage in `WorkflowOrchestrator._run_stage` of src/aidlc/orchestration/workflow.py:
-- `invoke` up to its `await` and after it, and the task group that runs one for each agent.
use multi_agent_aidlc.Common.{
  ℕ, zero, suc, ◌+◌, ◌-◌, String, true, Option, none, some, List, [], ◌∷◌, ◌++◌, Json, num, str,
  arr, obj, bool, Items, nil, cons, field, end, Fields, canceled_error, assertion_error, Result, ok,
  err, find, length, leb, if◌then◌else◌, ◌==◌, string_eq,
}
use multi_agent_aidlc.Domain.{
  AgentContext, ArtifactRecord, StageName, stage_text, kind_text, WorkflowRun,
}
use multi_agent_aidlc.Agents.{AgentSpec}
use multi_agent_aidlc.Storage.Artifacts.{Publication}
use multi_agent_aidlc.Storage.Database.State.{Db}
use multi_agent_aidlc.Evaluation.{Floats}
use multi_agent_aidlc.Orchestration.Budget.{Details, ExecutionMetadata, record_execution}
use multi_agent_aidlc.Orchestration.Budget as Budget
use multi_agent_aidlc.Orchestration.Context.{build_agent_context, context_input_artifact_ids}
use multi_agent_aidlc.Orchestration.Context.Key.{
  Settings, cache_runtime_profile, canonical_context, byte_count, context_cache_key,
}
use multi_agent_aidlc.Orchestration.Hub.{cached_output}
use multi_agent_aidlc.Orchestration.Services.{AgentResult, Services}
use multi_agent_aidlc.Orchestration.World.{
  Raised, RaisedGroup, leaf, group, one, also, Exit, returned, raised, World, Host, Exec, ◌>>=◌,
  ◌>>◌, continue, pure, exit_of, asks, event, publish, index_artifact,
}

-- The arguments that `_run_stage` and its tasks share.
pub record StageCall : Type 0 where
  pub run : WorkflowRun
  pub stage : StageName
  pub repair_attempt : ℕ
  pub repair_feedback : Option Json
  pub retry_attempt : ℕ

abbrev pub texts_json : List String → Items
texts_json [] = nil
texts_json (text ∷ texts) = cons (str text) (texts_json texts)

-- What `invoke` knows of its context before it waits for the agent.
pub record Selection : Type 0 where
  pub context : AgentContext
  pub input_ids : List String
  pub cache_key : String
  pub context_sha256 : String
  pub context_bytes : ℕ
  pub baseline_bytes : ℕ

-- `baseline - size`; `Json` has no negative numbers, so such a difference is marked by its sign
abbrev pub saved_bytes : ℕ → ℕ → Json
saved_bytes baseline size =
    if leb size baseline then num (baseline - size) else obj (field "-" (num (size - baseline)) end)

-- `context_payload`
unfoldable pub context_payload : AgentSpec → StageCall → (baseline_count : ℕ) → Selection → Fields
context_payload spec call baseline_count s = field "agent" (str spec.name) (
    field "stage" (str (stage_text call.stage)) (
      field "repair_attempt" (num call.repair_attempt) (
        field "retry_attempt" (num call.retry_attempt) (
          field "input_artifact_ids" (arr (texts_json s.input_ids)) (
            field "context_contract_version" (str spec.context_contract_version) (
              field "context_sha256" (str s.context_sha256) (
                field "context_bytes" (num s.context_bytes) (
                  field "baseline_context_bytes" (num s.baseline_bytes) (
                    field "context_bytes_saved" (saved_bytes s.baseline_bytes s.context_bytes) (
                      field "selected_artifact_count" (num (length s.context.artifacts)) (
                        field "baseline_artifact_count" (num baseline_count)
                          (field "cache_key" (str s.cache_key) end))))))))))))

-- `**result.execution.model_dump(mode="json")` with what the hub adds
unfoldable pub execution_record : AgentSpec → Selection → ExecutionMetadata → Json
execution_record spec s execution = obj (
    field "execution_id" (Budget.text_or_null execution.execution_id) (
      field "model_id" (str execution.model_id) (
        field "prompt_version" (str execution.prompt_version) (
          field "input_tokens" (Budget.num_or_null execution.input_tokens) (
            field "output_tokens" (Budget.num_or_null execution.output_tokens) (
              field "cost_usd" execution.cost_usd (
                field "cost_basis" (str execution.cost_basis) (
                  field "cache_key" (str s.cache_key) (
                    field "context_contract_version" (str spec.context_contract_version) (
                      field "context_sha256" (str s.context_sha256) (
                        field "context_bytes" (num s.context_bytes)
                          (field "baseline_context_bytes" (num s.baseline_bytes) end))))))))))))

-- The keyword arguments of `_record_execution`.
abbrev pub details_of : AgentSpec → StageCall → Selection → Details
details_of spec call s = record {
  cache_key = str s.cache_key;
  context_contract_version = str spec.context_contract_version;
  context_bytes = num s.context_bytes;
  baseline_context_bytes = num s.baseline_bytes;
  repair_attempt = call.repair_attempt;
  retry_attempt = call.retry_attempt;
}

unfoldable pub agent_publication : AgentSpec → StageCall → Selection → AgentResult → Publication
unfolding execution_record
agent_publication spec call s result = record {
  run_id = call.run.run_id;
  stage = call.stage;
  kind = result.artifact_kind;
  producing_agent = spec.name;
  content = result.content;
  markdown = result.markdown;
  parent_artifact_ids = s.input_ids;
  model_id = some result.execution.model_id;
  prompt_version = result.execution.prompt_version;
  execution = execution_record spec s result.execution;
}

-- A task of the group: not begun, waiting for its agent, or returned with an artifact's identifier.
pub data Coroutine : Type 0 where
  ready : AgentSpec → Coroutine
  called : AgentSpec → Selection → Coroutine
  finished : String → Coroutine

module _ (host : Host) (settings : Settings) {floats : Floats} (services : Services floats) where
  open services use {invoke, abandon, schedule, dump_context}

  -- `_record_execution`
  abbrev pub recorded : StageCall → AgentSpec → Selection → AgentResult → Exec (Unit {0})
  recorded call spec s result w = keep (
      record_execution (host.clock w.step) settings.token_budget_per_phase_per_run call.run.run_id
        spec.name spec.stage (details_of spec call s) result.execution w.db)
    where
      keep : Result (Unit {0}) × Db → Exit (Unit {0}) × World
      keep (outcome, db) = (exit_of outcome, record w { db = db; step = w.step + 1 })

  -- The body of `invoke` before the agent is called, for an agent that has no saved output.
  unfoldable pub begin_task : StageCall → (hub_context : AgentContext) → AgentSpec → Exec Coroutine
  unfolding context_payload
  begin_task call hub_context spec = do
    context ← asks (λ db store.
        build_agent_context spec call.run.run_id call.run.idea hub_context.artifacts
          call.repair_attempt call.repair_feedback call.retry_attempt)
    let text = canonical_context host.hashing dump_context context
    let baseline = record hub_context {
      repair_artifact_id = context.repair_artifact_id;
      repair_artifact_sha256 = context.repair_artifact_sha256;
    }
    let s : Selection = record {
      context = context;
      input_ids = context_input_artifact_ids context;
      cache_key =
          context_cache_key host.hashing spec context settings.model
            (cache_runtime_profile settings);
      context_sha256 = host.hashing.sha256 text;
      context_bytes = byte_count host.hashing text;
      baseline_bytes =
          byte_count host.hashing (canonical_context host.hashing dump_context baseline);
    }
    let payload = context_payload spec call (length hub_context.artifacts) s
    event host call.run.run_id "agent.context_selected" (obj payload)
    cached ← asks (λ db store.
        if spec.cacheable
        then cached_output host.hashing call.run.run_id spec s.cache_key s.input_ids db store
        else ok none)
    begin_with spec s payload cached
    where
      begin_with : AgentSpec → Selection → Fields → Option ArtifactRecord → Exec Coroutine
      begin_with spec s payload none = do
        event host call.run.run_id "agent.started" (obj payload)
        pure (called spec s)
      begin_with spec s payload (some artifact) = do
        event host call.run.run_id "agent.cache_hit"
            (obj (field "artifact_id" (str artifact.metadata.artifact_id) payload))
        pure (finished artifact.metadata.artifact_id)

  -- The body of `invoke` after the agent has returned its result.
  unfoldable pub finish_task : StageCall → AgentSpec → Selection → AgentResult → Exec Coroutine
  unfolding agent_publication
  finish_task call spec s result = do
    recorded call spec s result
    artifact ← publish host (agent_publication spec call s result)
    index_artifact host artifact
    event host call.run.run_id "artifact.created" (
        obj (
          field "artifact_id" (str artifact.metadata.artifact_id) (
            field "kind" (str (kind_text artifact.metadata.kind)) (
              field "stage" (str (stage_text call.stage)) (
                field "agent_completed" (bool true)
                  (field "repair_attempt" (num call.repair_attempt) end))))))
    event host call.run.run_id "agent.completed"
        (obj (field "agent" (str spec.name) (field "stage" (str (stage_text call.stage)) end)))
    pure (finished artifact.metadata.artifact_id)

  -- A task runs on to its next `await`, or to its end.
  unfoldable pub advance :
      StageCall → AgentContext → (saved : List ArtifactRecord) → Coroutine → Exec Coroutine
  unfolding begin_task finish_task
  advance call hub_context saved (finished id) = pure (finished id)
  advance call hub_context saved (called spec s) = invoke spec s.context >>= finish_task call spec s
  advance call hub_context saved (ready spec) =
      resume (find (λ item. item.metadata.producing_agent == spec.name) saved)
    where
      resume : Option ArtifactRecord → Exec Coroutine
      resume none = begin_task call hub_context spec
      resume (some artifact) = do
        event host call.run.run_id "agent.reused"
            (obj (field "agent" (str spec.name) (field "stage" (str (stage_text call.stage)) end)))
        pure (finished artifact.metadata.artifact_id)

  -- One task of the list runs on; a place that is not there changes nothing.
  unfoldable pub advance_at :
      StageCall
      → AgentContext
      → (saved : List ArtifactRecord) → ℕ
      → List Coroutine
      → Exec (List Coroutine)
  unfolding advance
  advance_at call hub_context saved place [] = pure []
  advance_at call hub_context saved zero (task ∷ tasks) = do
    task' ← advance call hub_context saved task
    pure (task' ∷ tasks)
  advance_at call hub_context saved (suc place) (task ∷ tasks) = do
    tasks' ← advance_at call hub_context saved place tasks
    pure (task ∷ tasks')

  -- The group cancels the tasks other than the failed one, and gathers what they raise.
  unfoldable pub abandon_others : ℕ → List Coroutine → World → List Raised × World
  abandon_others place [] w = ([], w)
  abandon_others zero (task ∷ tasks) w = abandon_others (length tasks) tasks w
  abandon_others (suc place) (called spec s ∷ tasks) w =
      let (error, w1) = abandon spec w in
      let (errors, w2) = abandon_others place tasks w1 in
      (elim error [ none ↦ errors | some e ↦ e ∷ errors ], w2)
  abandon_others (suc place) (ready spec ∷ tasks) w = abandon_others place tasks w
  abandon_others (suc place) (finished id ∷ tasks) w = abandon_others place tasks w

  abbrev pub group_of : Raised → List Raised → RaisedGroup
  group_of error [] = one error
  group_of error (next ∷ rest) = also error (group_of next rest)

  -- A cancellation is no error of the group: it goes on alone if nothing else was raised.
  abbrev pub group_exit : Raised → List Raised → Raised
  group_exit (leaf canceled_error) [] = leaf canceled_error
  group_exit (leaf canceled_error) (error ∷ errors) = group (group_of error errors)
  group_exit error errors = group (group_of error errors)

  abbrev pub settle :
      ℕ → List Coroutine → Exit (List Coroutine) × World → Exit (List Coroutine) × World
  settle place tasks (returned tasks', w) = (returned tasks', w)
  settle place tasks (raised error, w) =
      let (errors, w') = abandon_others place tasks w in (raised (group_exit error errors), w')

  unfoldable pub drive :
      StageCall
      → AgentContext
      → (saved : List ArtifactRecord) → List ℕ
      → List Coroutine
      → Exec (List Coroutine)
  unfolding advance_at abandon_others
  drive call hub_context saved [] tasks = pure tasks
  drive call hub_context saved (place ∷ places) tasks =
      (λ w. settle place tasks (advance_at call hub_context saved place tasks w))
      >>= drive call hub_context saved places

  -- `task.result()` of each task
  abbrev pub results : List Coroutine → Result (List String)
  results [] = ok []
  results (finished id ∷ tasks) = elim (results tasks) [ err e ↦ err e | ok ids ↦ ok (id ∷ ids) ]
  results (_ ∷ tasks) = err assertion_error

  abbrev pub ready_tasks : List AgentSpec → List Coroutine
  ready_tasks [] = []
  ready_tasks (spec ∷ specs) = ready spec ∷ ready_tasks specs

  -- Each task goes on twice at most after the schedule, so each is finished in the end.
  abbrev pub to_the_end : ℕ → List AgentSpec → List ℕ
  to_the_end place [] = []
  to_the_end place (spec ∷ specs) = place ∷ place ∷ to_the_end (suc place) specs

  -- `async with asyncio.TaskGroup()`, and the results of its tasks
  unfoldable pub task_group :
      StageCall → AgentContext → (saved : List ArtifactRecord) → List AgentSpec → Exec (List String)
  unfolding drive
  task_group call hub_context saved specs w =
      continue
        (drive call hub_context saved (schedule w ++ to_the_end 0 specs) (ready_tasks specs) w)
        (λ tasks. asks (λ db store. results tasks))
