-- ===== src/Storage/Database/Recovery/Complete.antt =====
-- After recovery no run is open.
use multi_agent_aidlc.Common.{
  ℕ, ◌≤◌, String, ◌≡◌, ◌∙◌, ap, sym, refl, Bool, true, false, ◌&&◌, Option, none, some, List, [],
  ◌∷◌, ok, obj, field, str, end, ◌+◌, ◌++◌, All-mono, arith, any, any_of_find, find, select, All,
  All-update_where, All-sort_desc, any-update_where, any-sort_desc, take_all, sort_desc, length,
  length-sort_desc, update_where, ◌==◌, string_eq, beq_comm, eq_of_beq, Bool-cases, inl, inr, Json,
}
use multi_agent_aidlc.Domain.{
  RunStatus, StageName, stage_order, StageRecord, WorkflowRun, EventRecord,
}
use multi_agent_aidlc.Storage.Database.State.{RunRow, Db, has_run}
use multi_agent_aidlc.Storage.Database.Events.{append_event}
use multi_agent_aidlc.Storage.Database.Runs.{
  get_run, list_runs, update_run, newest, by_name, load_run, load_runs, run_from_row,
}
use multi_agent_aidlc.Storage.Database.Runs.Stages.{update_stage}
use multi_agent_aidlc.Storage.Database.Recovery.{
  is_open, interrupt, block_stage, recover_each, recovery_limit, recover_interrupted_runs, reason,
}

-- The run is among `runs` with this identifier, and open.
abbrev covered : List WorkflowRun → String → Bool
covered runs run_id = any (λ w. w.run_id == run_id && is_open w.status) runs

abbrev IsCovered : List WorkflowRun → RunRow → Type 0
IsCovered runs row = is_open row.status ≡ true → covered runs row.run_id ≡ true

append_event-ok :
    (now : ℕ) (run_id event_type : String) (payload : Json) (db : Db)
    → has_run run_id db ≡ true
    → (id : ℕ) × (db' : Db) × (append_event now run_id event_type payload db ≡ ok (id, db'))
      × (db'.runs ≡ db.runs)
unfolding append_event
append_event-ok now run_id event_type payload db h = (
  db.last_event_id + 1,
  record db { events = db.events ++ event ∷ []; last_event_id = db.last_event_id + 1 },
  rw h,
  refl,
)
  where
    event : EventRecord
    event = record {
      event_id = db.last_event_id + 1;
      run_id = run_id;
      event_type = event_type;
      payload = payload;
      created_at = now;
    }

abbrev note : Json
note = obj (field "reason" (str reason) end)

abbrev block_row : (now : ℕ) → WorkflowRun → RunRow → RunRow
block_row now run r = record r {
  status = RunStatus.blocked;
  current_stage = run.current_stage;
  updated_at = now;
  error = some reason;
}

abbrev same_id : String → RunRow → Bool
same_id run_id r = r.run_id == run_id

abbrev blocked_rows : (now : ℕ) → WorkflowRun → List RunRow → List RunRow
blocked_rows now run = update_where (same_id run.run_id) (block_row now run)

has_run-blocked_rows :
    (now : ℕ) (run : WorkflowRun) (run_id : String) (rows : List RunRow)
    → any (same_id run_id) (blocked_rows now run rows) ≡ any (same_id run_id) rows
has_run-blocked_rows now run run_id rows =
    any-update_where (same_id run_id) (same_id run.run_id) (block_row now run) rows (λ r. refl)

-- Blocking one run's rows leaves to the other runs what they cover.
blocked_rows-IsCovered :
    (now : ℕ) (run : WorkflowRun) (runs : List WorkflowRun) (rows : List RunRow)
    → All (IsCovered (run ∷ runs)) rows
    → All (IsCovered runs) (blocked_rows now run rows)
blocked_rows-IsCovered now run runs rows =
    All-update_where (IsCovered (run ∷ runs)) (IsCovered runs) (same_id run.run_id)
      (block_row now run) rows (λ r c hit open_r. cc open_r)
      (λ r c miss open_r. ground (arith, c open_r, beq_comm r.run_id run.run_id))

block_stage-runs :
    (now : ℕ) (run : WorkflowRun) (stage : Option StageName) (db : Db)
    → (block_stage now run stage db).runs ≡ db.runs
unfolding update_stage
block_stage-runs now run none db = refl
block_stage-runs now run (some stage) db = refl

interrupt-ok :
    (now : ℕ) (run : WorkflowRun) (db : Db)
    → has_run run.run_id db ≡ true
    → (db' : Db) × (interrupt now run db ≡ ok db') × (db'.runs ≡ blocked_rows now run db.runs)
unfolding interrupt update_run
interrupt-ok now run db h =
    let same = block_stage-runs now run run.current_stage db in
    let staged = block_stage now run run.current_stage db in
    let updated =
      update_run now run.run_id RunStatus.blocked run.current_stage (some reason) staged in
    let known : has_run run.run_id updated ≡ true =
      has_run-blocked_rows now run run.run_id staged.runs ∙ rw same h in
    let (id, db', e, rows) = append_event-ok now run.run_id "run.interrupted" note updated known in
    (db', rw e, rows ∙ ap (blocked_rows now run) same)

-- The loop blocks every row that the remaining runs cover.
recover_each-ok :
    (now : ℕ) (runs : List WorkflowRun) (db : Db)
    → All (λ w. has_run w.run_id db ≡ true) runs
    → All (IsCovered runs) db.runs
    → (db' : Db) × (recover_each now runs db ≡ ok db')
      × All (λ r. is_open r.status ≡ false) db'.runs
unfolding recover_each
recover_each-ok now [] db known h = (
  db,
  refl,
  All-mono (IsCovered []) (λ r. is_open r.status ≡ false) db.runs (λ r c. ground (arith, c)) h,
)
recover_each-ok now (run ∷ runs) db known h = elim (Bool-cases (is_open run.status)) [
  | inl open_run ↦
      let (db', e, rows) = interrupt-ok now run db known.0 in
      let known' : All (λ w. has_run w.run_id db' ≡ true) runs =
        All-mono (λ w. has_run w.run_id db ≡ true) (λ w. has_run w.run_id db' ≡ true) runs
          (λ w k.
            ap (any (same_id w.run_id)) rows ∙ has_run-blocked_rows now run w.run_id db.runs ∙ k)
          known.1 in
      let (db'', e', shut) =
        recover_each-ok now runs db' known'
          (rw rows (blocked_rows-IsCovered now run runs db.runs h)) in
      (db'', rw open_run (rw e e'), shut)
  | inr shut ↦ rw shut (
      recover_each-ok now runs db known.1 (
        All-mono (IsCovered (run ∷ runs)) (IsCovered runs) db.runs
          (λ r c open_r. ground (arith, c open_r)) h))
]

-- The row is the one that its key finds, and its nine stages can be read.
pub record IsReadable (db : Db) (row : RunRow) : Type 0 where
  pub key : find (same_id row.run_id) db.runs ≡ some row
  pub stages : List StageRecord
  pub staged : by_name (select (λ s. s.run_id == row.run_id) db.stages) stage_order ≡ ok stages

get_run-IsReadable :
    (db : Db) (row : RunRow) (h : IsReadable db row)
    → get_run row.run_id db ≡ ok (some (run_from_row row h.stages))
unfolding get_run
get_run-IsReadable db row h = rw (h.key, load_run) (rw (h.staged))

-- What `list_runs` makes of readable rows: runs that exist and cover those rows.
record Loaded (db : Db) (rows : List RunRow) : Type 0 where
  runs : List WorkflowRun
  eq : load_runs db rows ≡ ok runs
  known : All (λ w. has_run w.run_id db ≡ true) runs
  covers :
      (r : RunRow)
      → find (same_id r.run_id) db.runs ≡ some r
      → any (same_id r.run_id) rows ≡ true
      → IsCovered runs r

covers_next :
    (db : Db) (row r : RunRow) (stages : List StageRecord) (runs : List WorkflowRun)
    → find (same_id row.run_id) db.runs ≡ some row
    → find (same_id r.run_id) db.runs ≡ some r
    → is_open r.status ≡ true
    → ((row.run_id == r.run_id) ≡ false → covered runs r.run_id ≡ true)
    → covered (run_from_row row stages ∷ runs) r.run_id ≡ true
covers_next db row r stages runs row_key key open_r later =
    elim (Bool-cases (row.run_id == r.run_id)) [
      | inl hit ↦
          let same_key = ap (λ i. find (same_id i) db.runs) (eq_of_beq row.run_id r.run_id hit) in
          let same : row ≡ r = cc (sym row_key ∙ same_key ∙ key) in
          rw (hit, ap (λ (x : RunRow). is_open x.status) same ∙ open_r) refl
      | inr miss ↦ rw miss (later miss)
    ]

load_runs-Loaded : (db : Db) (rows : List RunRow) → All (IsReadable db) rows → Loaded db rows
unfolding load_runs
load_runs-Loaded db [] h = record {
  runs = [];
  eq = refl;
  known = tt;
  covers = λ r key among open_r. cc among;
}
load_runs-Loaded db (row ∷ rows) h =
    let rest = load_runs-Loaded db rows h.1 in
    record {
      runs = run_from_row row h.0.stages ∷ rest.runs;
      eq = rw (get_run-IsReadable db row h.0) (rw (rest.eq));
      known = (any_of_find (same_id row.run_id) db.runs row h.0.key, rest.known);
      covers = λ r key among open_r.
          covers_next db row r h.0.stages rest.runs h.0.key key open_r
            (λ miss. rest.covers r key (rw miss at among) open_r);
    }

-- The keys of the runs are distinct, and every run has its nine stages.
abbrev pub IsWell : Db → Type 0
IsWell db = All (IsReadable db) db.runs

newest-all :
    (limit : ℕ) (db : Db)
    → length db.runs ≤ limit
    → newest limit db ≡ sort_desc (λ r. r.created_at) db.runs
unfolding newest
newest-all limit db fits =
    take_all limit _ (omega (arith, length-sort_desc (λ (r : RunRow). r.created_at) db.runs))

-- When at most ten thousand runs are stored, each under its own key with its nine stages, recovery
-- succeeds and leaves no run pending, running or waiting for input.
pub recover-none_open :
    (now : ℕ) (db : Db)
    → IsWell db
    → length db.runs ≤ recovery_limit
    → (db' : Db) × (recover_interrupted_runs now db ≡ ok db')
      × All (λ r. is_open r.status ≡ false) db'.runs
unfolding recover_interrupted_runs list_runs
recover-none_open now db well fits =
    let sorted = sort_desc (λ (r : RunRow). r.created_at) db.runs in
    let loaded = load_runs-Loaded db sorted (All-sort_desc (IsReadable db) _ db.runs well) in
    let (db', e, shut) = recover_each-ok now loaded.runs db loaded.known (
      All-mono (IsReadable db) (IsCovered loaded.runs) db.runs
        (λ r h.
          loaded.covers r h.key
            (any-sort_desc (same_id r.run_id) _ db.runs ∙ any_of_find _ db.runs r h.key))
        well) in
    (db', rw (newest-all recovery_limit db fits, loaded.eq) e, shut)
