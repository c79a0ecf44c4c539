-- ===== src/Orchestration/Budget/Limit.antt =====
-- What a recorded execution says of the budget.
use mathlib.Core.Path.{subst}
use mathlib.Core.List.{append-nil}
use multi_agent_aidlc.Common.{
  ℕ, ◌+◌, ◌≤◌, String, ◌≡◌, ◌∙◌, refl, ap, Bool, true, false, ◌&&◌, Option, none, some, List, [],
  ◌∷◌, ◌++◌, Json, num_or_zero, Result, ok, err, arith, select, select-append, ltb, Bool-cases, inl,
  inr, if◌then◌else◌, ◌==◌, string_eq, beq_refl,
}
use multi_agent_aidlc.Domain.{StageName, stage_name_eq, EventRecord}
use multi_agent_aidlc.Agents.{AgentSpec, agents_by_stage}
use multi_agent_aidlc.Storage.Database.State.{Db, has_run}
use multi_agent_aidlc.Storage.Database.Events.{append_event, events_after}
use multi_agent_aidlc.Orchestration.Budget.{
  ExecutionMetadata, Details, executions, is_recorded, details_for, execution_payload, event_tokens,
  total_tokens, latest_retry, in_phase, of_type, num_or_null, or_zero, greatest_id, phase_tokens,
  execution_tokens, check_budget, after_event, record_execution,
}

total_tokens-append :
    (p : EventRecord → Bool) (xs : List EventRecord) (y : EventRecord)
    → total_tokens (select p (xs ++ y ∷ [])) ≤ total_tokens (select p xs) + event_tokens y
total_tokens-append p [] y = ground arith
total_tokens-append p (x ∷ xs) y = ground (arith, total_tokens-append p xs y)

-- The event that records an execution.
abbrev event_of : (now id : ℕ) → String → Json → EventRecord
event_of now id run_id payload = record {
  event_id = id;
  run_id = run_id;
  event_type = "agent.execution";
  payload = payload;
  created_at = now;
}

num_or_null-value : (o : Option ℕ) → num_or_zero (some (num_or_null o)) ≡ or_zero o
num_or_null-value none = refl
num_or_null-value (some n) = refl

event_tokens-payload :
    (now id : ℕ) (run_id agent : String) (phase : StageName) (details : Details)
    (execution : ExecutionMetadata)
    → event_tokens (event_of now id run_id (execution_payload agent phase details execution))
      ≡ execution_tokens execution
unfolding execution_payload
event_tokens-payload now id run_id agent phase details execution =
    cc (num_or_null-value execution.input_tokens, num_or_null-value execution.output_tokens)

latest_retry-append :
    (phase : StageName) (events : List EventRecord) (now id : ℕ) (run_id : String) (payload : Json)
    → latest_retry phase (events ++ event_of now id run_id payload ∷ []) ≡ latest_retry phase events
unfolding latest_retry
latest_retry-append phase events now id run_id payload =
    ap (λ xs. if phase == StageName.evaluation then greatest_id xs else 0)
      (select-append (of_type "run.retry_requested") events (event_of now id run_id payload ∷ [])
        ∙ append-nil (select (of_type "run.retry_requested") events))

executions-append :
    (events : List EventRecord) (now id : ℕ) (run_id : String) (payload : Json)
    → executions (events ++ event_of now id run_id payload ∷ [])
      ≡ executions events ++ event_of now id run_id payload ∷ []
unfolding executions
executions-append events now id run_id payload =
    select-append (of_type "agent.execution") events (event_of now id run_id payload ∷ [])

phase_tokens-append :
    (phase : StageName) (specs : List AgentSpec) (events : List EventRecord) (now id : ℕ)
    (run_id : String) (payload : Json)
    → phase_tokens phase specs (events ++ event_of now id run_id payload ∷ [])
      ≤ phase_tokens phase specs events + event_tokens (event_of now id run_id payload)
unfolding phase_tokens
phase_tokens-append phase specs events now id run_id payload =
    rw
      (
        latest_retry-append phase events now id run_id payload,
        executions-append events now id run_id payload,
      )
      (total_tokens-append
        (λ event. ltb (latest_retry phase events) event.event_id && in_phase phase specs event)
        (executions events) (event_of now id run_id payload))

-- What a recorded event leaves.
append_event-events :
    (now : ℕ) (run_id : String) (payload : Json) (db : Db) {id : ℕ} {db' : Db}
    → append_event now run_id "agent.execution" payload db ≡ ok (id, db')
    → events_after run_id 0 db'
      ≡ events_after run_id 0 db ++ event_of now (db.last_event_id + 1) run_id payload ∷ []
unfolding append_event events_after
append_event-events now run_id payload db {id} {db'} h = elim (Bool-cases (has_run run_id db)) [
  | inl known ↦
      let event = event_of now (db.last_event_id + 1) run_id payload in
      let same : record db { events = db.events ++ event ∷ []; last_event_id = event.event_id }
          ≡ db' =
        cc (rw known at h) in
      let positive : ltb 0 (db.last_event_id + 1) ≡ true = ground arith in
      subst
        (λ d.
          select (λ e. e.run_id == run_id && ltb 0 e.event_id) d.events
          ≡ select (λ e. e.run_id == run_id && ltb 0 e.event_id) db.events ++ event ∷ [])
        same
        (select-append (λ e. e.run_id == run_id && ltb 0 e.event_id) db.events (event ∷ [])
          ∙ rw (beq_refl run_id, positive) refl)
  | inr unknown ↦ cc (rw unknown at h)
]

check_budget-ok :
    (budget : ℕ) (phase : StageName) (specs : List AgentSpec) (execution : ExecutionMetadata)
    (events : List EventRecord) {u : Unit}
    → check_budget budget phase (some specs) execution events ≡ ok u
    → phase_tokens phase specs events + execution_tokens execution ≤ budget
unfolding check_budget
check_budget-ok budget phase specs execution events h = ground (arith, h)

module _ (now budget : ℕ) (run_id agent : String) (phase : StageName) (details : Details)
    (execution : ExecutionMetadata) (specs : List AgentSpec) where
  after_event-ok :
      (events : List EventRecord) (payload : Json) (db : Db) (r : Result (ℕ × Db)) {u : Unit}
      {db' : Db}
      → agents_by_stage phase ≡ some specs
      → after_event budget phase execution events db r ≡ (ok u, db')
      → (id : ℕ) × (r ≡ ok (id, db'))
        × (phase_tokens phase specs events + execution_tokens execution ≤ budget)
  after_event-ok events payload db (err e) staffed h = cc h
  after_event-ok events payload db (ok (id, db1)) {u} {db'} staffed h =
      let same : db1 ≡ db' = cc h in
      let checked : check_budget budget phase (agents_by_stage phase) execution events ≡ ok u =
        cc h in
      (
        id,
        ap (λ d. ok (id, d)) same,
        check_budget-ok budget phase specs execution events (rw staffed at checked),
      )

  -- When the use of a new execution is recorded without an error, in a phase that has agents, the
  -- executions recorded for the phase, the new one included and after the latest retry for the
  -- evaluation, have used no more than the budget.
  pub record_execution-phase_tokens :
      (db : Db) {db' : Db}
      → agents_by_stage phase ≡ some specs
      → is_recorded execution.execution_id (executions (events_after run_id 0 db)) ≡ false
      → record_execution now budget run_id agent phase details execution db ≡ (ok tt, db')
      → phase_tokens phase specs (events_after run_id 0 db') ≤ budget
  unfolding record_execution
  record_execution-phase_tokens db {db'} staffed new h =
      let events = events_after run_id 0 db in
      let payload = execution_payload agent phase (details_for agent details events) execution in
      let (id, e, within) =
        after_event-ok events payload db (append_event now run_id "agent.execution" payload db)
          staffed (rw new at h) in
      let grown = append_event-events now run_id payload db e in
      let tokens =
        event_tokens-payload now (db.last_event_id + 1) run_id agent phase
          (details_for agent details events) execution in
      let counted =
        phase_tokens-append phase specs events now (db.last_event_id + 1) run_id payload in
      rw grown (ground (arith, tokens, counted, within))
