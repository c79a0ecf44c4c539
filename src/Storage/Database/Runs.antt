-- ===== src/Storage/Database/Runs.antt =====
-- The `runs` and `stages` tables: creation, reading, updates, and recovery after a restart.
pub mod Stages
pub mod Timing
pub mod Creation
use multi_agent_aidlc.Common.{
  ℕ, String, Bool, true, false, not, ◌&&◌, ◌||◌, Option, none, some, List, [], ◌∷◌, ◌++◌, map, Json,
  obj, field, str, end, Result, ok, err, ◌>>=◌, or_raise, integrity_error, assertion_error,
  key_error, any, select, find, find_last, update_where, take, sort_desc, if◌then◌else◌, ◌==◌,
  string_eq,
}
use multi_agent_aidlc.Domain.{
  RunStatus, StageName, stage_order, StageRecord, WorkflowRun, stage_name_eq, run_status_eq,
  RunStatus-discrete, StageName-discrete,
}
use multi_agent_aidlc.Storage.Database.State.{RunRow, StageRow, Db, has_run}
use multi_agent_aidlc.Storage.Database.Events.{append_event}

abbrev pub stage_from_row : StageRow → StageRecord
stage_from_row row = record {
  name = row.name;
  status = row.status;
  started_at = row.started_at;
  finished_at = row.finished_at;
  error = row.error;
}

-- `[by_name[name] for name in STAGE_ORDER]`, where `by_name` is a dictionary over the rows: the
-- last row of a name is the one it holds.
unfoldable pub by_name : List StageRow → List StageName → Result (List StageRecord)
unfolding StageName-discrete
by_name rows [] = ok []
by_name rows (name ∷ names) = do
  row ← or_raise (find_last (λ r. r.name == name) rows) (key_error "stage")
  rest ← by_name rows names
  ok (stage_from_row row ∷ rest)

abbrev pub run_from_row : RunRow → List StageRecord → WorkflowRun
run_from_row row stages = record {
  run_id = row.run_id;
  idea = row.idea;
  status = row.status;
  current_stage = row.current_stage;
  created_at = row.created_at;
  updated_at = row.updated_at;
  error = row.error;
  stages = stages;
}

unfoldable pub load_run : String → Db → Option RunRow → Result (Option WorkflowRun)
unfolding by_name
load_run run_id db none = ok none
load_run run_id db (some row) = do
  stages ← by_name (select (λ s. s.run_id == run_id) db.stages) stage_order
  ok (some (run_from_row row stages))

unfoldable pub get_run : String → Db → Result (Option WorkflowRun)
unfolding load_run
get_run run_id db = load_run run_id db (find (λ r. r.run_id == run_id) db.runs)

abbrev pub new_stage_row : String → StageName → StageRow
new_stage_row run_id name = record {
  run_id = run_id;
  name = name;
  status = RunStatus.pending;
  started_at = none;
  finished_at = none;
  error = none;
}

abbrev pub new_run_row : (now : ℕ) → String → String → RunRow
new_run_row now run_id idea = record {
  run_id = run_id;
  idea = idea;
  status = RunStatus.pending;
  current_stage = none;
  created_at = now;
  updated_at = now;
  error = none;
}

-- The two INSERT statements of `create_run`, and its reading back of the run.
unfoldable pub create_run : (now : ℕ) → String → String → Db → Result (WorkflowRun × Db)
unfolding get_run
create_run now run_id idea db =
    if has_run run_id db || any (λ s. s.run_id == run_id) db.stages
    then err integrity_error
    else do found ← get_run run_id created; run ← or_raise found assertion_error; ok (run, created)
  where
    created : Db
    created = record db {
      runs = db.runs ++ new_run_row now run_id idea ∷ [];
      stages = db.stages ++ map (new_stage_row run_id) stage_order;
    }

-- `ORDER BY created_at DESC LIMIT limit`
unfoldable pub newest : ℕ → Db → List RunRow
newest limit db = take limit (sort_desc (λ r. r.created_at) db.runs)

-- The runs that `get_run` finds for the rows' identifiers.
unfoldable pub load_runs : Db → List RunRow → Result (List WorkflowRun)
load_runs db [] = ok []
load_runs db (row ∷ rows) = do
  found ← get_run row.run_id db
  rest ← load_runs db rows
  ok (elim found [ none ↦ rest | some run ↦ run ∷ rest ])

unfoldable pub list_runs : ℕ → Db → Result (List WorkflowRun)
unfolding load_runs
list_runs limit db = load_runs db (newest limit db)

unfoldable pub update_run :
    (now : ℕ) → String → RunStatus → Option StageName → Option String → Db → Db
update_run now run_id status current_stage error db = record db {
  runs = update_where (λ r. r.run_id == run_id) change db.runs;
}
  where
    change : RunRow → RunRow
    change r = record r {
      status = status;
      current_stage = current_stage;
      updated_at = now;
      error = error;
    }
