-- ===== src/A2a/Client/Reconciliation.antt =====
-- `A2AInvoker.reconcile_run` of src/aidlc/a2a/client.py: before a retry, every earlier task of the run
-- is known to be over.
pub mod Outcome
use multi_agent_aidlc.Common.{
  String, Bool, true, false, Option, none, some, List, [], ◌∷◌, Result, ok, err, or_raise,
  runtime_error, stop_iteration, find, if◌then◌else◌, ◌==◌, string_eq,
}
use multi_agent_aidlc.Domain.{DelegatedTask}
use multi_agent_aidlc.Agents.{AgentSpec, agent_specs}
use multi_agent_aidlc.A2a.TaskStore.{TaskState}
use multi_agent_aidlc.A2a.Client.{
  AgentCard, RemoteTask, Sdk, agent_base, agent_endpoint, validate_card, state_name,
  is_terminal_name, save_mapping, emit_mapping,
}
use multi_agent_aidlc.Storage.Database.Tasks.{list_delegated_tasks}
use multi_agent_aidlc.Orchestration.World.{World, Host, Exec, ◌>>=◌, ◌>>◌, pure, throw, asks}

-- `if not mapping.task_id`
abbrev pub known_id : DelegatedTask → Result String
known_id mapping = of_id mapping.task_id
  where
    of_id : Option String → Result String
    of_id none =
        err (runtime_error "Previous remote task identity is unknown; retry cannot safely proceed")
    of_id (some id) =
        if id == ""
        then err
            (runtime_error "Previous remote task identity is unknown; retry cannot safely proceed")
        else ok id

abbrev pub spec_of : String → Result AgentSpec
spec_of agent = or_raise (find (λ spec. spec.name == agent) agent_specs) stop_iteration

abbrev pub with_state : DelegatedTask → String → DelegatedTask
with_state mapping state = record mapping { state = state }

module _ (sdk : Sdk) (host : Host) where
  -- A task that is not over is canceled, and looked up again.
  unfoldable pub stop_if_active : String → RemoteTask → Exec RemoteTask
  stop_if_active id task =
      if is_terminal_name (state_name task.state)
      then pure task
      else (do sdk.cancel_task id; sdk.get_task id)

  abbrev pub withhold_if_active : String → Exec (Unit {0})
  withhold_if_active state =
      if is_terminal_name state
      then pure tt
      else throw (runtime_error "Previous task is still active; retry withheld")

  -- The body of the loop for a mapping that is not over.
  unfoldable pub reconcile_one : DelegatedTask → Exec (Unit {0})
  unfolding stop_if_active
  reconcile_one mapping = do
    id ← asks (λ db store. known_id mapping)
    spec ← asks (λ db store. spec_of mapping.agent)
    card ← sdk.get_agent_card (agent_base sdk spec.name)
    asks (λ db store. validate_card card spec (agent_endpoint sdk spec.name))
    task ← sdk.get_task id
    task' ← stop_if_active id task
    save_mapping sdk host (with_state mapping (state_name task'.state))
    emit_mapping sdk host "a2a.cancellation_result" (with_state mapping (state_name task'.state))
    withhold_if_active (state_name task'.state)

  unfoldable pub reconcile_each : List DelegatedTask → Exec (Unit {0})
  unfolding reconcile_one
  reconcile_each [] = pure tt
  reconcile_each (mapping ∷ mappings) = do
    if is_terminal_name mapping.state then pure tt else reconcile_one mapping
    reconcile_each mappings

  -- `reconcile_run`
  unfoldable pub reconcile_run : String → Exec (Unit {0})
  unfolding reconcile_each
  reconcile_run run_id w = reconcile_each (list_delegated_tasks run_id w.db) w
