-- ===== src/Orchestration/Workflow/Status.antt =====
-- The status under which the hub's statements leave a run.
use mathlib.Core.Path.{subst}
use multi_agent_aidlc.Common.{
  ℕ, String, ◌≡◌, refl, ap, Bool, ◌⊎◌, inl, inr, Option, none, some, List, [], ◌∷◌, Json, ok,
  >>=-eq-ok, find, select, update_where, find-update_where_hit, Option-cases, Bool-cases,
  test_of_find, eq_of_beq, sym, ◌∙◌, ◌==◌, string_eq, arith,
}
use multi_agent_aidlc.Domain.{RunStatus, StageName, stage_order, WorkflowRun}
use multi_agent_aidlc.Storage.Database.State.{Db, RunRow, has_run}
use multi_agent_aidlc.Storage.Database.Events.{append_event}
use multi_agent_aidlc.Storage.Database.Runs.{get_run, update_run, by_name}
use multi_agent_aidlc.Orchestration.World.{Exit, Host, World, ◌>>◌, event, mark_run}

abbrev pub row_status : Option RunRow → Option RunStatus
row_status none = none
row_status (some row) = some row.status

abbrev pub status_in : String → List RunRow → Option RunStatus
status_in run_id runs = row_status (find (λ r. r.run_id == run_id) runs)

-- A run of the identifier, if there is one, has the status.
abbrev pub Shows : String → RunStatus → List RunRow → Type 0
Shows run_id status runs = (status_in run_id runs ≡ none) ⊎ (status_in run_id runs ≡ some status)

find-update_where-none :
    (p : RunRow → Bool) (f : RunRow → RunRow) (rows : List RunRow)
    → find p rows ≡ none
    → find p (update_where p f rows) ≡ none
find-update_where-none p f [] h = refl
find-update_where-none p f (row ∷ rows) h = ground (arith, find-update_where-none p f rows)

pub update_run-Shows :
    (now : ℕ) (run_id : String) (status : RunStatus) (stage : Option StageName)
    (error : Option String) (db : Db)
    → Shows run_id status (update_run now run_id status stage error db).runs
unfolding update_run
update_run-Shows now run_id status stage error db =
    elim (Option-cases (find (λ r. r.run_id == run_id) db.runs)) [
      | inl missing ↦ inl (ap row_status (find-update_where-none _ _ db.runs missing))
      | inr (row, found) ↦ inr (ap row_status (find-update_where_hit _ _ db.runs (λ z h. h) found))
    ]

pub get_run-status :
    (run_id : String) (db : Db) {run : WorkflowRun}
    → get_run run_id db ≡ ok (some run)
    → status_in run_id db.runs ≡ some run.status
unfolding get_run
get_run-status run_id db {run} h = elim (Option-cases (find (λ r. r.run_id == run_id) db.runs)) [
  | inl missing ↦ cc (rw missing at h)
  | inr (row, found) ↦
      let (stages, e, e') =
        >>=-eq-ok (by_name (select (λ s. s.run_id == run_id) db.stages) stage_order) _
          (rw found at h) in
      rw found (cc e')
]

pub get_run-run_id :
    (run_id : String) (db : Db) {run : WorkflowRun}
    → get_run run_id db ≡ ok (some run)
    → run.run_id ≡ run_id
unfolding get_run
get_run-run_id run_id db {run} h = elim (Option-cases (find (λ r. r.run_id == run_id) db.runs)) [
  | inl missing ↦ cc (rw missing at h)
  | inr (row, found) ↦
      let (stages, e, e') =
        >>=-eq-ok (by_name (select (λ s. s.run_id == run_id) db.stages) stage_order) _
          (rw found at h) in
      let same : row.run_id ≡ run.run_id = cc e' in
      sym same ∙ eq_of_beq _ _ (test_of_find (λ r. r.run_id == run_id) db.runs row found)
]

pub event-runs :
    (host : Host) (run_id event_type : String) (payload : Json) (w : World)
    → (event host run_id event_type payload w).1.db.runs ≡ w.db.runs
unfolding event append_event
event-runs host run_id event_type payload w = elim (Bool-cases (has_run run_id w.db)) [
  | inl known ↦ rw known refl
  | inr unknown ↦ rw unknown refl
]

module _ (host : Host) {exit : Exit (Unit {0})} {w' : World} where
  pub mark_run-Shows :
      (run_id : String) (status : RunStatus) (stage : Option StageName) (error : Option String)
      (w : World)
      → mark_run host run_id status stage error w ≡ (exit, w')
      → Shows run_id status w'.db.runs
  unfolding mark_run
  mark_run-Shows run_id status stage error w h =
      let same : (mark_run host run_id status stage error w).1 ≡ w' = ap (λ x. x.1) h in
      subst (λ (z : World). Shows run_id status z.db.runs) same
        (update_run-Shows (host.clock w.step) run_id status stage error w.db)

  pub event-Shows :
      (of_run : String) (status : RunStatus) (run_id event_type : String) (payload : Json)
      (w : World)
      → Shows of_run status w.db.runs
      → event host run_id event_type payload w ≡ (exit, w')
      → Shows of_run status w'.db.runs
  event-Shows of_run status run_id event_type payload w shows h =
      let same : (event host run_id event_type payload w).1 ≡ w' = ap (λ x. x.1) h in
      subst (λ (z : World). Shows of_run status z.db.runs) same
        (rw (event-runs host run_id event_type payload w) shows)

-- The last two statements of both handlers.
pub mark_run-event-Shows :
    (host : Host) (run_id : String) (status : RunStatus) (stage : Option StageName)
    (error : Option String) (event_type : String) (payload : Json) (w : World)
    → Shows run_id status
        ((mark_run host run_id status stage error >> event host run_id event_type payload)
          w).1.db.runs
unfolding mark_run
mark_run-event-Shows host run_id status stage error event_type payload w =
    event-Shows host run_id status run_id event_type payload _
      (update_run-Shows (host.clock w.step) run_id status stage error w.db) refl
