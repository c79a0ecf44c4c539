-- ===== src/Orchestration/Budget.antt =====
-- `WorkflowOrchestrator._record_execution` of src/aidlc/orchestration/workflow.py: an agent's use of
-- the model is recorded once, and counted against the budget of its phase.
pub mod Limit
use multi_agent_aidlc.Common.{
  ℕ, ◌+◌, String, Bool, true, false, ◌&&◌, ◌||◌, Option, none, some, List, [], ◌∷◌, Json, null, num,
  str, obj, field, end, get, is_str, num_or_zero, Result, ok, err, key_error, runtime_error, any,
  select, find_last, ltb, if◌then◌else◌, ◌==◌, string_eq,
}
use multi_agent_aidlc.Domain.{StageName, stage_name_eq, StageName-discrete, stage_text, EventRecord}
use multi_agent_aidlc.Agents.{AgentSpec, agents_by_stage}
use multi_agent_aidlc.Storage.Database.State.{Db}
use multi_agent_aidlc.Storage.Database.Events.{append_event, events_after}

-- `ExecutionMetadata`; a cost is the JSON of a float or of `None`.
pub record ExecutionMetadata : Type 0 where
  pub execution_id : Option String
  pub model_id : String
  pub prompt_version : String
  pub input_tokens : Option ℕ
  pub output_tokens : Option ℕ
  pub cost_usd : Json
  pub cost_basis : String

-- The keyword arguments that describe the context; `None` is `null`.
pub record Details : Type 0 where
  pub cache_key : Json
  pub context_contract_version : Json
  pub context_bytes : Json
  pub baseline_context_bytes : Json
  pub repair_attempt : ℕ
  pub retry_attempt : ℕ

abbrev pub or_null : Option Json → Json
or_null none = null
or_null (some value) = value

abbrev pub text_or_null : Option String → Json
text_or_null none = null
text_or_null (some text) = str text

abbrev pub num_or_null : Option ℕ → Json
num_or_null none = null
num_or_null (some n) = num n

abbrev pub or_zero : Option ℕ → ℕ
or_zero none = 0
or_zero (some n) = n

abbrev pub of_type : String → EventRecord → Bool
of_type event_type event = event.event_type == event_type

unfoldable pub executions : List EventRecord → List EventRecord
executions events = select (of_type "agent.execution") events

-- `execution_id and any(event.payload.get("execution_id") == execution_id ...)`
unfoldable pub is_recorded : Option String → List EventRecord → Bool
is_recorded none events = false
is_recorded (some id) events =
    if id == "" then false else any (λ event. is_str (get event.payload "execution_id") id) events

-- What the latest selection of a context for the agent says.
unfoldable pub selected_details : Option EventRecord → Details
selected_details none = record {
  cache_key = null;
  context_contract_version = null;
  context_bytes = null;
  baseline_context_bytes = null;
  repair_attempt = 0;
  retry_attempt = 0;
}
selected_details (some event) = record {
  cache_key = or_null (get event.payload "cache_key");
  context_contract_version = or_null (get event.payload "context_contract_version");
  context_bytes = or_null (get event.payload "context_bytes");
  baseline_context_bytes = or_null (get event.payload "baseline_context_bytes");
  repair_attempt = num_or_zero (get event.payload "repair_attempt");
  retry_attempt = num_or_zero (get event.payload "retry_attempt");
}

abbrev pub is_null : Json → Bool
is_null null = true
is_null _ = false

-- `if cache_key is None:`
unfoldable pub details_for : String → Details → List EventRecord → Details
unfolding selected_details
details_for agent details events =
    if is_null details.cache_key
    then selected_details (
        find_last
          (λ event.
            of_type "agent.context_selected" event && is_str (get event.payload "agent") agent)
          events)
    else details

unfoldable pub execution_payload : String → StageName → Details → ExecutionMetadata → Json
execution_payload agent phase details execution = obj (
    field "agent" (str agent) (
      field "phase" (str (stage_text phase)) (
        field "cache_key" details.cache_key (
          field "context_contract_version" details.context_contract_version (
            field "context_bytes" details.context_bytes (
              field "baseline_context_bytes" details.baseline_context_bytes (
                field "repair_attempt" (num details.repair_attempt) (
                  field "retry_attempt" (num details.retry_attempt) (
                    field "execution_id" (text_or_null execution.execution_id) (
                      field "model_id" (str execution.model_id) (
                        field "prompt_version" (str execution.prompt_version) (
                          field "input_tokens" (num_or_null execution.input_tokens) (
                            field "output_tokens" (num_or_null execution.output_tokens) (
                              field "cost_usd" execution.cost_usd
                                (field "cost_basis" (str execution.cost_basis) end)))))))))))))))

-- `max((event.event_id for event in events), default=0)`
abbrev pub greatest_id : List EventRecord → ℕ
greatest_id [] = 0
greatest_id (event ∷ events) =
    let rest = greatest_id events in if ltb rest event.event_id then event.event_id else rest

-- Only a retry of the evaluation starts its count again.
unfoldable pub latest_retry : StageName → List EventRecord → ℕ
unfolding StageName-discrete
latest_retry phase events =
    if phase == StageName.evaluation
    then greatest_id (select (of_type "run.retry_requested") events)
    else 0

unfoldable pub in_phase : StageName → List AgentSpec → EventRecord → Bool
in_phase phase specs event =
    is_str (get event.payload "phase") (stage_text phase)
    || any (λ spec. is_str (get event.payload "agent") spec.name) specs

abbrev pub event_tokens : EventRecord → ℕ
event_tokens event =
    num_or_zero (get event.payload "input_tokens") + num_or_zero (get event.payload "output_tokens")

abbrev pub total_tokens : List EventRecord → ℕ
total_tokens [] = 0
total_tokens (event ∷ events) = event_tokens event + total_tokens events

-- The tokens that the recorded executions of the phase have used.
unfoldable pub phase_tokens : StageName → List AgentSpec → List EventRecord → ℕ
unfolding executions latest_retry in_phase
phase_tokens phase specs events = total_tokens (
    select (λ event. ltb (latest_retry phase events) event.event_id && in_phase phase specs event)
      (executions events))

abbrev pub execution_tokens : ExecutionMetadata → ℕ
execution_tokens execution = or_zero execution.input_tokens + or_zero execution.output_tokens

-- The check after the event; the event stays recorded if the check fails. The message is given
-- without its figures.
unfoldable pub check_budget :
    (budget : ℕ)
    → StageName
    → Option (List AgentSpec)
    → ExecutionMetadata
    → List EventRecord
    → Result (Unit {0})
unfolding phase_tokens
check_budget budget phase none execution events = err (key_error (stage_text phase))
check_budget budget phase (some specs) execution events =
    if ltb budget (phase_tokens phase specs events + execution_tokens execution)
    then err
        (runtime_error "Reported phase token budget per run exceeded; further delegation stopped")
    else ok tt

abbrev pub after_event :
    (budget : ℕ)
    → StageName
    → ExecutionMetadata
    → List EventRecord
    → Db
    → Result (ℕ × Db)
    → Result (Unit {0}) × Db
after_event budget phase execution events db (err e) = (err e, db)
after_event budget phase execution events db (ok (_, db')) =
    (check_budget budget phase (agents_by_stage phase) execution events, db')

unfoldable pub record_execution :
    (now budget : ℕ)
    → (run_id agent : String) → StageName
    → Details
    → ExecutionMetadata
    → Db
    → Result (Unit {0}) × Db
unfolding is_recorded executions details_for execution_payload check_budget
record_execution now budget run_id agent phase details execution db =
    let events = events_after run_id 0 db in
    if is_recorded execution.execution_id (executions events)
    then (ok tt, db)
    else after_event budget phase execution events db (
        append_event now run_id "agent.execution"
          (execution_payload agent phase (details_for agent details events) execution) db)
