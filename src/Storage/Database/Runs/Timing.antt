-- ===== src/Storage/Database/Runs/Timing.antt =====
-- The times of a stage's row agree with its status, whatever updates are made.
use mathlib.Core.Option
use multi_agent_aidlc.Common.{
  find, find-update_where, ℕ, String, ◌≡◌, refl, Bool, true, false, Option, none, some, List, [],
  ◌∷◌, arith, ◌==◌, string_eq, All, All-update_where, if◌then◌else◌, ◌&&◌,
}
use multi_agent_aidlc.Domain.{
  RunStatus, StageName, terminal_run_statuses, stage_name_eq, run_status_eq,
}
use multi_agent_aidlc.Storage.Database.State.{StageRow, Db}
use multi_agent_aidlc.Storage.Database.Runs.Stages.{set_stage, update_stage}

abbrev pub is_some : Option ℕ → Bool
is_some none = false
is_some (some _) = true

-- A running stage has started, an open one has not finished, and a closed one has finished.
pub record IsTimed (row : StageRow) : Type 0 where
  pub started : row.status ≡ RunStatus.running → is_some row.started_at ≡ true
  pub waiting : row.status ≡ RunStatus.input_required → row.finished_at ≡ none
  pub working : row.status ≡ RunStatus.running → row.finished_at ≡ none
  pub closed : terminal_run_statuses row.status ≡ true → is_some row.finished_at ≡ true

set_stage-IsTimed :
    (now : ℕ) (status : RunStatus) (error : Option String) (row : StageRow)
    → IsTimed (set_stage now status error row)
unfolding set_stage
set_stage-IsTimed now status error row = ground arith

-- A stage keeps the time at which it first started.
set_stage-started :
    (now t : ℕ) (status : RunStatus) (error : Option String) (row : StageRow)
    → row.started_at ≡ some t
    → (set_stage now status error row).started_at ≡ some t
unfolding set_stage
set_stage-started now t status error row h = ground arith

pub record Update : Type 0 where
  pub now : ℕ
  pub run_id : String
  pub stage : StageName
  pub status : RunStatus
  pub error : Option String

abbrev pub apply : Update → Db → Db
apply u db = update_stage u.now u.run_id u.stage u.status u.error db

pub updates : List Update → Db → Db
updates [] db = db
updates (u ∷ us) db = updates us (apply u db)

-- After any sequence of updates every row's times agree with its status, if they did before.
pub updates-IsTimed :
    (us : List Update) (db : Db) → All IsTimed db.stages → All IsTimed (updates us db).stages
unfolding updates update_stage
updates-IsTimed [] db h = h
updates-IsTimed (u ∷ us) db h = updates-IsTimed us (apply u db) (
    All-update_where IsTimed IsTimed _ _ db.stages
      (λ row _ _. set_stage-IsTimed u.now u.status u.error row) (λ row timed _. timed) h)

abbrev pub stage_row : String → StageName → Db → Option StageRow
stage_row run_id stage db = find (λ r. r.run_id == run_id && r.name == stage) db.stages

abbrev pub start_of : Option StageRow → Option ℕ
start_of none = none
start_of (some row) = row.started_at

start_of-apply :
    (u : Update) (db : Db) (run_id : String) (stage : StageName) (t : ℕ)
    → start_of (stage_row run_id stage db) ≡ some t
    → start_of (stage_row run_id stage (apply u db)) ≡ some t
unfolding update_stage set_stage
start_of-apply u db run_id stage t h =
    rw (find-update_where _ _ (set_stage u.now u.status u.error) db.stages (λ row. refl))
      (same (stage_row run_id stage db) h)
  where
    same :
        (o : Option StageRow)
        → start_of o ≡ some t
        → start_of (
            Option.map
              (λ row.
                if row.run_id == u.run_id && row.name == u.stage
                then set_stage u.now u.status u.error row
                else row)
              o)
          ≡ some t
    same none h = h
    same (some row) h = ground (arith, set_stage-started u.now t u.status u.error row h)

-- The time at which a stage first started is never changed by later updates of any stage.
pub updates-start_of :
    (us : List Update) (db : Db) (run_id : String) (stage : StageName) (t : ℕ)
    → start_of (stage_row run_id stage db) ≡ some t
    → start_of (stage_row run_id stage (updates us db)) ≡ some t
unfolding updates
updates-start_of [] db run_id stage t h = h
updates-start_of (u ∷ us) db run_id stage t h =
    updates-start_of us (apply u db) run_id stage t (start_of-apply u db run_id stage t h)
