-- ===== src/A2a/Client/Invocation.antt =====
-- `A2AInvoker.invoke` of src/aidlc/a2a/client.py: discovery, the stream of an agent's events, the
-- polling of its task with a person's answers, retries, and the cancellation of a task left behind.
pub mod Completion
use multi_agent_aidlc.Common.{
  ℕ, zero, suc, ◌+◌, String, Bool, true, false, not, ◌&&◌, ◌||◌, Option, none, some, List, [], ◌∷◌,
  Json, num, str, obj, field, end, Error, canceled_error, timeout_error, remote_task_error,
  runtime_error, value_error, Result, ok, err, ltb, concat, if◌then◌else◌, ◌==◌, string_eq,
  option_eq, nat_eq,
}
use multi_agent_aidlc.Domain.{
  AgentContext, DelegatedTask, HumanPrompt, StageName, stage_text, StageName-discrete,
}
use multi_agent_aidlc.Agents.{AgentSpec}
use multi_agent_aidlc.A2a.TaskStore.{TaskState, TaskState-discrete, task_state_eq}
use multi_agent_aidlc.A2a.Client.{
  RemoteTask, StreamEvent, of_task, of_status, of_artifact, of_message, Stream, over, broken,
  arrives, Request, Sdk, transient, validate_card, agent_base, agent_endpoint, state_name,
  is_settled, decode_result, task_result, save_mapping, emit_mapping,
}
use multi_agent_aidlc.Orchestration.Budget.{text_or_null}
use multi_agent_aidlc.Orchestration.Services.{AgentResult}
use multi_agent_aidlc.Orchestration.World.{
  Raised, leaf, group, Exit, returned, raised, World, Host, Exec, exit_of, event,
}

-- The mapping, which the code changes in place, and whether `client` and `card` are set.
pub record Session : Type 0 where
  pub mapping : DelegatedTask
  pub connected : Bool

-- How a part of the invocation ends; `waiting` is no end of the code, but of the model's fuel.
pub data Answered (A : Type 0) : Type 0 where
  answered : A → Answered A
  broke : Raised → Answered A
  waiting : Answered A

abbrev pub Talk : Type 0 → Type 0
Talk A = Session → World → Answered A × Session × World

abbrev pub then_talk :
    {A B : Type 0} → Answered A × Session × World → (A → Talk B) → Answered B × Session × World
then_talk (answered a, s, w) rest = rest a s w
then_talk (broke error, s, w) rest = (broke error, s, w)
then_talk (waiting, s, w) rest = (waiting, s, w)

infixl 10 ◌>>=◌ ◌>>◌
abbrev pub ◌>>=◌ : {A B : Type 0} → Talk A → (A → Talk B) → Talk B
◌>>=◌ first rest s w = then_talk (first s w) rest

abbrev pub ◌>>◌ : {A B : Type 0} → Talk A → Talk B → Talk B
first >> rest = first >>= λ _. rest

abbrev pub say : {A : Type 0} → A → Talk A
say a s w = (answered a, s, w)

abbrev pub stop : {A : Type 0} → Error → Talk A
stop error s w = (broke (leaf error), s, w)

abbrev pub with_session : {A : Type 0} → Session → Exit A × World → Answered A × Session × World
with_session s (returned a, w) = (answered a, s, w)
with_session s (raised error, w) = (broke error, s, w)

-- A statement that leaves the session alone.
abbrev pub does : {A : Type 0} → Exec A → Talk A
does exec s w = with_session s (exec w)

abbrev pub checks : {A : Type 0} → Result A → Talk A
checks (ok a) = say a
checks (err error) = stop error

abbrev pub session : Talk Session
session s w = (answered s, s, w)

abbrev pub set_mapping : DelegatedTask → Talk (Unit {0})
set_mapping mapping s w = (answered tt, record s { mapping = mapping }, w)

-- What a person answers, with the identifier of the action.
pub record HumanReply : Type 0 where
  pub action_id : String
  pub response : Json

-- `if not task_id or context_id != mapping.context_id`, and the agent's task is the one that is known.
unfoldable pub check_identity : DelegatedTask → (task_id context_id : String) → Result (Unit {0})
check_identity mapping task_id context_id =
    if task_id == "" || not (context_id == mapping.context_id)
    then err (value_error "A2A task/context identity mismatch")
    else known mapping.task_id
  where
    known : Option String → Result (Unit {0})
    known none = ok tt
    known (some id) =
        if id == "" || task_id == id
        then ok tt
        else err (value_error "Agent changed the delegated task ID")

abbrev pub updated_mapping : DelegatedTask → String → TaskState → DelegatedTask
updated_mapping mapping task_id state = record mapping {
  task_id = some task_id;
  state = state_name state;
}

-- `f":repair:{n}"` and `f":retry:{n}"`, where `digits` writes a number
abbrev pub suffix_of : (digits : ℕ → String) → AgentContext → String
suffix_of digits context =
    concat
      (if context.repair_attempt == 0
        then ""
        else concat ":repair:" (digits context.repair_attempt))
      (if context.retry_attempt == 0 then "" else concat ":retry:" (digits context.retry_attempt))

unfoldable pub new_mapping : Sdk → (digits : ℕ → String) → AgentSpec → AgentContext → DelegatedTask
new_mapping sdk digits spec context = record {
  invocation_id = concat context.run_id (
      concat ":" (
        concat (stage_text context.stage)
          (concat ":" (concat spec.name (suffix_of digits context)))));
  run_id = context.run_id;
  stage = context.stage;
  agent = spec.name;
  endpoint = agent_endpoint sdk spec.name;
  context_id =
      concat context.run_id
        (concat ":" (concat (stage_text context.stage) (suffix_of digits context)));
  task_id = none;
  state = "pending";
  attempts = 0;
  repair_attempt = context.repair_attempt;
}

-- `except Exception` takes neither a cancellation nor the deadline's.
abbrev pub is_exception : Raised → Bool
is_exception (leaf canceled_error) = false
is_exception (leaf timeout_error) = false
is_exception error = true

abbrev pub is_open_name : String → Bool
is_open_name name = name == "submitted" || (name == "working" || name == "input_required")

module _ (sdk : Sdk) (host : Host) (spec : AgentSpec) (context : AgentContext)
    (human_input : DelegatedTask → AgentResult → Exec HumanReply) where
  abbrev pub emit : String → Json → Talk (Unit {0})
  emit event_type payload = does (event host context.run_id event_type payload)

  -- `update`
  unfoldable pub update : (task_id context_id : String) → TaskState → Talk (Unit {0})
  unfolding check_identity
  update task_id context_id state = do
    s ← session
    checks (check_identity s.mapping task_id context_id)
    let mapping = updated_mapping s.mapping task_id state
    set_mapping mapping
    does (save_mapping sdk host mapping)
    (if s.mapping.state == state_name state
        then say tt
        else does (emit_mapping sdk host "a2a.task_status" mapping))

  -- An event of the first stream.
  unfoldable pub take_event : StreamEvent → Talk (Unit {0})
  unfolding update
  take_event (of_task task_id context_id state) = update task_id context_id state
  take_event (of_status task_id context_id state) = update task_id context_id state
  take_event of_message = stop (value_error "Expected A2A task events, not a direct message")
  take_event (of_artifact task_id context_id artifact_id) = do
    s ← session
    (if some task_id == s.mapping.task_id && context_id == s.mapping.context_id
        then emit "a2a.artifact_received" (
            obj (
              field "agent" (str spec.name)
                (field "task_id" (str task_id) (field "artifact_id" (str artifact_id) end))))
        else stop (value_error "Artifact task/context identity mismatch"))

  -- An event of the stream after a person's answer; an artifact or a message is passed over.
  unfoldable pub take_answer_event : StreamEvent → Talk (Unit {0})
  unfolding update
  take_answer_event (of_task task_id context_id state) = update task_id context_id state
  take_answer_event (of_status task_id context_id state) = update task_id context_id state
  take_answer_event _ = say tt

  unfoldable pub listen : (StreamEvent → Talk (Unit {0})) → Stream → Talk (Unit {0})
  listen take (over others) s w = (answered tt, s, others w)
  listen take (broken others error) s w = (broke error, s, others w)
  listen take (arrives others item rest) s w =
      then_talk (take item s (others w)) (λ _. listen take rest)

  abbrev pub send : (StreamEvent → Talk (Unit {0})) → Request → Talk (Unit {0})
  send take request s w = listen take (sdk.send_message request w) s w

  abbrev pub first_request : DelegatedTask → Request
  first_request mapping = record {
    message_id = mapping.invocation_id;
    context_id = mapping.context_id;
    task_id = none;
    payload = sdk.dump_context context;
  }

  abbrev pub continuation : DelegatedTask → RemoteTask → HumanReply → Request
  continuation mapping task reply = record {
    message_id = concat mapping.invocation_id (concat ":human:" reply.action_id);
    context_id = task.context_id;
    task_id = some task.id;
    payload = sdk.dump_context (record context { human_response = some reply.response });
  }

  abbrev pub mark_connected : Talk (Unit {0})
  mark_connected s w = (answered tt, record s { connected = true }, w)

  -- The client is made once, under the card that is pinned for the agent.
  unfoldable pub connect : Talk (Unit {0})
  connect = do
    s ← session
    (if s.connected then say tt else do
      card ← does (sdk.get_agent_card (agent_base sdk spec.name))
      checks (validate_card card spec s.mapping.endpoint)
      mark_connected
      emit "a2a.agent_discovered" (
          obj (
            field "agent" (str spec.name)
              (field "endpoint" (str s.mapping.endpoint) (field "protocol" (str "1.0") end)))))

  abbrev pub require_prompt : Option HumanPrompt → Talk (Unit {0})
  require_prompt none = stop (remote_task_error "Agent requested unsupported human input")
  require_prompt (some prompt) = say tt

  -- A task that waits for a person: the answer is sent, and its events are taken.
  unfoldable pub answer_prompt : RemoteTask → Talk (Unit {0})
  unfolding take_answer_event listen
  answer_prompt task = do
    draft ← checks (decode_result sdk spec task)
    require_prompt draft.human_prompt
    s ← session
    reply ← does (human_input s.mapping draft)
    send take_answer_event (continuation s.mapping task reply)

  -- What the state of the task asks for: a person's answer, its result, or another look at it.
  unfoldable pub by_state : Talk AgentResult → RemoteTask → Talk AgentResult
  unfolding answer_prompt TaskState-discrete
  by_state again task =
      if task.state == TaskState.input_required
      then answer_prompt task >> again
      else if is_settled task.state
      then checks (task_result sdk spec task)
      else (does sdk.sleep >> again)

  abbrev pub required_id : Option String → Talk String
  required_id none = stop (value_error "Agent stream ended without a task")
  required_id (some id) = say id

  -- `while True`, for as many rounds as the fuel allows; the task is that of the mapping.
  unfoldable pub converse : (fuel : ℕ) → Talk AgentResult
  unfolding by_state
  converse zero = λ s w. (waiting, s, w)
  converse (suc fuel) = do
    s ← session
    id ← required_id s.mapping.task_id
    task ← does (sdk.get_task id)
    update task.id task.context_id task.state
    by_state (converse fuel) task

  abbrev pub open_task : Option String → DelegatedTask → Talk (Unit {0})
  open_task (some id) mapping = say tt
  open_task none mapping = send take_event (first_request mapping)

  -- The body of one attempt.
  unfoldable pub try_once : (fuel : ℕ) → Talk AgentResult
  unfolding connect take_event listen converse
  try_once fuel = do
    connect
    s ← session
    open_task s.mapping.task_id s.mapping
    s' ← session
    _ ← required_id s'.mapping.task_id
    converse fuel

  abbrev pub retry_payload : DelegatedTask → (attempt : ℕ) → Raised → Json
  retry_payload mapping attempt error = obj (
      field "agent" (str spec.name) (
        field "attempt" (num (attempt + 2)) (
          field "invocation_id" (str mapping.invocation_id)
            (field "reason" (str (sdk.reason error)) end))))

  -- An attempt that broke is followed by another, if its exception is a passing failure of HTTP.
  abbrev pub after_attempt :
      (attempt : ℕ)
      → Talk AgentResult
      → Answered AgentResult × Session × World
      → Answered AgentResult × Session × World
  after_attempt attempt again (answered result, s, w) = (answered result, s, w)
  after_attempt attempt again (waiting, s, w) = (waiting, s, w)
  after_attempt attempt again (broke error, s, w) =
      if is_exception error && (transient (sdk.causes error) && ltb attempt sdk.max_retries)
      then then_talk (emit "a2a.retry" (retry_payload s.mapping attempt error) s w)
          (λ _. does sdk.sleep >> again)
      else (broke error, s, w)

  -- `for attempt in range(max_retries + 1)`
  unfoldable pub attempts : (left : ℕ) → (attempt fuel : ℕ) → Talk AgentResult
  unfolding try_once
  attempts zero attempt fuel = stop (runtime_error "A2A retry loop ended unexpectedly")
  attempts (suc left) attempt fuel = do
    s ← session
    let mapping = record s.mapping { attempts = attempt + 1 }
    set_mapping mapping
    does (save_mapping sdk host mapping)
    λ s1 w1. after_attempt attempt (attempts left (attempt + 1) fuel) (try_once fuel s1 w1)

  -- The lost answer to the first request: the same message finds the task that was reserved for it.
  unfoldable pub recover : Stream → Talk (Unit {0})
  recover (over others) s w = (answered tt, s, others w)
  recover (broken others error) s w = (broke error, s, others w)
  recover (arrives others (of_task task_id context_id state) rest) s w =
      recover rest (record s { mapping = record s.mapping { task_id = some task_id } }) (others w)
  recover (arrives others (of_status _ _ _) rest) s w = recover rest s (others w)
  recover (arrives others (of_artifact _ _ _) rest) s w = recover rest s (others w)
  recover (arrives others of_message rest) s w = recover rest s (others w)

  abbrev pub recover_task : Option String → DelegatedTask → Talk (Unit {0})
  recover_task (some id) mapping = say tt
  recover_task none mapping = λ s w. recover (sdk.send_message (first_request mapping) w) s w

  abbrev pub end_task : Option String → Talk (Unit {0})
  end_task none = say tt
  end_task (some id) = if id == "" then say tt else do
    does (sdk.cancel_task id)
    task ← does (sdk.get_task id)
    s ← session
    let mapping = record s.mapping { state = state_name task.state }
    set_mapping mapping
    does (save_mapping sdk host mapping)
    does (emit_mapping sdk host "a2a.cancellation_result" mapping)

  abbrev pub note_failure :
      Answered (Unit {0}) × Session × World → Answered (Unit {0}) × Session × World
  note_failure (answered _, s, w) = (answered tt, s, w)
  note_failure (waiting, s, w) = (waiting, s, w)
  note_failure (broke (leaf canceled_error), s, w) = (broke (leaf canceled_error), s, w)
  note_failure (broke error, s, w) =
      emit "a2a.cancellation_failed"
        (obj (field "agent" (str s.mapping.agent) (field "reason" (str (sdk.reason error)) end))) s
        w

  -- `_cancel`
  unfoldable pub cancel_remote : Talk (Unit {0})
  unfolding recover
  cancel_remote s w =
      if s.connected
      then note_failure (
          then_talk (recover_task s.mapping.task_id s.mapping s w)
            (λ _ s1 w1. end_task s1.mapping.task_id s1 w1))
      else (answered tt, s, w)

  abbrev pub fail_pending : Talk (Unit {0})
  fail_pending = do
    s ← session
    let mapping = record s.mapping { state = "failed" }
    (if s.mapping.state == "pending"
        then set_mapping mapping >> does (save_mapping sdk host mapping)
        else say tt)

  abbrev pub note_invocation_failed : Raised → Talk (Unit {0})
  note_invocation_failed error = do
    s ← session
    emit "a2a.invocation_failed" (
        obj (
          field "agent" (str spec.name) (
            field "reason" (str (sdk.reason error))
              (field "task_id" (text_or_null s.mapping.task_id) end))))

  abbrev pub raise_again : Raised → Talk AgentResult
  raise_again error s w = (broke error, s, w)

  abbrev pub cancel_if_open : Talk (Unit {0})
  cancel_if_open s w =
      if is_open_name s.mapping.state then cancel_remote s w else (answered tt, s, w)

  -- The handlers around the attempts; each raises the exception again.
  unfoldable pub give_up : Raised → Talk AgentResult
  unfolding cancel_remote
  give_up error =
      if is_exception error
      then (cancel_if_open >> fail_pending >> note_invocation_failed error >> raise_again error)
      else (cancel_remote >> raise_again error)

  abbrev pub guarded :
      Answered AgentResult × Session × World → Answered AgentResult × Session × World
  guarded (answered result, s, w) = (answered result, s, w)
  guarded (waiting, s, w) = (waiting, s, w)
  guarded (broke error, s, w) = give_up error s w

  -- `invoke`
  unfoldable pub invoke :
      (digits : ℕ → String) → (fuel : ℕ) → World → Answered AgentResult × Session × World
  unfolding attempts give_up new_mapping
  invoke digits fuel w = guarded (
      attempts (sdk.max_retries + 1) 0 fuel
        (record { mapping = new_mapping sdk digits spec context; connected = false }) w)
