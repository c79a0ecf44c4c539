-- ===== src/A2a/Client/Reconciliation/Outcome.antt =====
-- What a reconciliation that returns has learnt of every earlier task.
use mathlib.Core.Path.{subst}
use multi_agent_aidlc.Common.{
  String, ◌≡◌, refl, ap, ◌∙◌, inl, inr, true, List, [], ◌∷◌, ok, Bool-cases,
}
use multi_agent_aidlc.Domain.{DelegatedTask}
use multi_agent_aidlc.Agents.{AgentSpec}
use multi_agent_aidlc.A2a.TaskStore.{TaskState}
use multi_agent_aidlc.A2a.Client.{
  AgentCard, RemoteTask, Sdk, agent_base, agent_endpoint, validate_card, state_name,
  is_terminal_name, save_mapping, emit_mapping,
}
use multi_agent_aidlc.A2a.Client.Reconciliation.{
  known_id, spec_of, with_state, stop_if_active, withhold_if_active, reconcile_one, reconcile_each,
  reconcile_run,
}
use multi_agent_aidlc.Storage.Database.Tasks.{list_delegated_tasks}
use multi_agent_aidlc.Orchestration.Workflow.Approval.{continue-returned, asks-returned}
use multi_agent_aidlc.Orchestration.World.{Exit, returned, World, Host}

-- A state in which the agent does no more work on the task.
pub data IsOver : TaskState → Type 0 where
  completed : IsOver TaskState.completed
  failed : IsOver TaskState.failed
  canceled : IsOver TaskState.canceled
  rejected : IsOver TaskState.rejected

module _ (sdk : Sdk) (host : Host) where
  -- From the first look at a task to the answer that counts: the first look, if the task was over
  -- then, or else a second look after a cancellation.
  pub data Settled (id : String) : RemoteTask → World → RemoteTask → World → Type 0 where
    at_once : (task : RemoteTask) (w : World) → IsOver task.state → Settled id task w task w
    after_cancel :
        (first task : RemoteTask) (w stopped w' : World)
        → ¬ (IsOver first.state)
        → sdk.cancel_task id w ≡ (returned tt, stopped)
        → sdk.get_task id stopped ≡ (returned task, w')
        → IsOver task.state
        → Settled id first w task w'

  -- Between the two worlds the agent of the mapping showed the card that is pinned for it and was
  -- asked for the task, canceled it if it was not over, answered that it is over, and this was saved
  -- and noted, with no other step.
  pub record SeenOver (mapping : DelegatedTask) (w w' : World) : Type 0 where
    pub id : String
    pub known : known_id mapping ≡ ok id
    pub spec : AgentSpec
    pub staffed : spec_of mapping.agent ≡ ok spec
    pub card : AgentCard
    pub shown : World
    pub fetched : sdk.get_agent_card (agent_base sdk spec.name) w ≡ (returned card, shown)
    pub pinned : validate_card card spec (agent_endpoint sdk spec.name) ≡ ok tt
    pub first : RemoteTask
    pub looked : World
    pub asked : sdk.get_task id shown ≡ (returned first, looked)
    pub task : RemoteTask
    pub after : World
    pub settled : Settled id first looked task after
    pub saved : World
    pub stored :
        save_mapping sdk host (with_state mapping (state_name task.state)) after
        ≡ (returned tt, saved)
    pub noted :
        emit_mapping sdk host "a2a.cancellation_result"
          (with_state mapping (state_name task.state))
          saved
        ≡ (returned tt, w')

  -- The worlds between the mappings of a run, one after the other: a mapping whose recorded state is
  -- terminal is passed by, and any other is seen to be over.
  pub data Reconciled : List DelegatedTask → World → World → Type 0 where
    nothing : (w : World) → Reconciled [] w w
    passed :
        (mapping : DelegatedTask) (mappings : List DelegatedTask) (w w' : World)
        → is_terminal_name mapping.state ≡ true
        → Reconciled mappings w w'
        → Reconciled (mapping ∷ mappings) w w'
    seen :
        (mapping : DelegatedTask) (mappings : List DelegatedTask) (w w1 w' : World)
        → SeenOver mapping w w1
        → Reconciled mappings w1 w'
        → Reconciled (mapping ∷ mappings) w w'

  terminal-IsOver : (state : TaskState) → is_terminal_name (state_name state) ≡ true → IsOver state
  terminal-IsOver TaskState.completed h = completed
  terminal-IsOver TaskState.failed h = failed
  terminal-IsOver TaskState.canceled h = canceled
  terminal-IsOver TaskState.rejected h = rejected
  terminal-IsOver TaskState.submitted h = cc h
  terminal-IsOver TaskState.working h = cc h
  terminal-IsOver TaskState.input_required h = cc h
  terminal-IsOver TaskState.auth_required h = cc h
  terminal-IsOver TaskState.unspecified h = cc h

  IsOver-terminal : {state : TaskState} → IsOver state → is_terminal_name (state_name state) ≡ true
  IsOver-terminal completed = refl
  IsOver-terminal failed = refl
  IsOver-terminal canceled = refl
  IsOver-terminal rejected = refl

  -- The task that is judged is the first answer, or the answer after a cancellation.
  stop_if_active-Settled :
      (id : String) (task : RemoteTask) (w : World) {task' : RemoteTask} {w' : World}
      → stop_if_active sdk host id task w ≡ (returned task', w')
      → IsOver task'.state
      → Settled id task w task' w'
  unfolding stop_if_active
  stop_if_active-Settled id task w {task'} {w'} h is_over =
      elim (Bool-cases (is_terminal_name (state_name task.state))) [
        | inl terminal ↦
            let same_task : task ≡ task' = cc (rw terminal at h) in
            let same_world : w ≡ w' = cc (rw terminal at h) in
            subst (λ z. Settled id task w task' z) same_world
              (subst (λ z. Settled id task w z w) same_task
                (at_once task w (terminal-IsOver task.state terminal)))
        | inr active ↦
            let (_, w1, canceled_there, again) =
              continue-returned (sdk.cancel_task id w) _ (rw active at h) in
            after_cancel task task' w w1 w' (λ first_over. cc (IsOver-terminal first_over, active))
              canceled_there again is_over
      ]

  withheld :
      (state : TaskState) (w : World) {w' : World}
      → withhold_if_active sdk host (state_name state) w ≡ (returned tt, w')
      → IsOver state × (w ≡ w')
  withheld state w h = elim (Bool-cases (is_terminal_name (state_name state))) [
    | inl terminal ↦ (terminal-IsOver state terminal, cc (rw terminal at h))
    | inr active ↦ cc (rw active at h)
  ]

  reconcile_one-SeenOver :
      (mapping : DelegatedTask) (w : World) {w' : World}
      → reconcile_one sdk host mapping w ≡ (returned tt, w')
      → SeenOver mapping w w'
  unfolding reconcile_one
  reconcile_one-SeenOver mapping w h =
      let (id, known, k1) = asks-returned (known_id mapping) _ w h in
      let (spec, staffed, k2) = asks-returned (spec_of mapping.agent) _ w k1 in
      let (card, w1, found, k3) =
        continue-returned (sdk.get_agent_card (agent_base sdk spec.name) w) _ k2 in
      let (_, pinned, k4) =
        asks-returned (validate_card card spec (agent_endpoint sdk spec.name)) _ w1 k3 in
      let (task, w2, first, k5) = continue-returned (sdk.get_task id w1) _ k4 in
      let (task', w3, stopped, k6) = continue-returned (stop_if_active sdk host id task w2) _ k5 in
      let mapping' : DelegatedTask = with_state mapping (state_name task'.state) in
      let (_, w4, stored, k7) = continue-returned (save_mapping sdk host mapping' w3) _ k6 in
      let (_, w5, noted, k8) =
        continue-returned (emit_mapping sdk host "a2a.cancellation_result" mapping' w4) _ k7 in
      let (is_over, same) = withheld task'.state w5 k8 in
      record {
        id = id;
        known = known;
        spec = spec;
        staffed = staffed;
        card = card;
        pinned = pinned;
        shown = w1;
        fetched = found;
        first = task;
        looked = w2;
        asked = first;
        task = task';
        after = w3;
        settled = stop_if_active-Settled id task w2 stopped is_over;
        saved = w4;
        stored = stored;
        noted =
            noted
            ∙ ap (λ (z : World). let x : Exit (Unit {0}) × World = (returned tt, z) in x) same;
      }

  reconcile_each-Reconciled :
      (mappings : List DelegatedTask) (w : World) {w' : World}
      → reconcile_each sdk host mappings w ≡ (returned tt, w')
      → Reconciled mappings w w'
  unfolding reconcile_each
  reconcile_each-Reconciled [] w {w'} h =
      let same : w ≡ w' = ap (λ x. x.1) h in subst (λ z. Reconciled [] w z) same (nothing w)
  reconcile_each-Reconciled (mapping ∷ mappings) w {w'} h =
      elim (Bool-cases (is_terminal_name mapping.state)) [
        | inl terminal ↦
            passed mapping mappings w w' terminal
              (reconcile_each-Reconciled mappings w (rw terminal at h))
        | inr active ↦
            let (_, w1, one, k) =
              continue-returned (reconcile_one sdk host mapping w) _ (rw active at h) in
            seen mapping mappings w w1 w' (reconcile_one-SeenOver mapping w one)
              (reconcile_each-Reconciled mappings w1 k)
      ]

  -- A reconciliation that returns has gone through every
  -- delegated task of the run in turn: one recorded as over was passed by without a step, and for any
  -- other, from the world in which the tasks before it were done, its agent showed its pinned card, was
  -- asked for the known task, was told to cancel it and asked again if it was not over, and answered
  -- that it is completed, failed, canceled or rejected, which was saved and noted before the next
  -- task was looked at.
  pub reconcile_run-Reconciled :
      (run_id : String) (w : World) {w' : World}
      → reconcile_run sdk host run_id w ≡ (returned tt, w')
      → Reconciled (list_delegated_tasks run_id w.db) w w'
  unfolding reconcile_run
  reconcile_run-Reconciled run_id w h =
      reconcile_each-Reconciled (list_delegated_tasks run_id w.db) w h
