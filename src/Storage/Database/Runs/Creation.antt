-- ===== src/Storage/Database/Runs/Creation.antt =====
-- A run that is created is read back, and the other runs are read as before.
use mathlib.Core.List.{append-nil}
use multi_agent_aidlc.Common.{
  ℕ, String, ◌≡◌, ◌≢◌, beq_ne, refl, false, Option, none, some, [], ◌∷◌, ◌++◌, map, ok, any, select,
  find, ◌==◌, string_eq, beq_refl, select_none, select-append, find-append_none, find-append_fail,
}
use multi_agent_aidlc.Domain.{RunStatus, StageName, stage_order, StageRecord, WorkflowRun}
use multi_agent_aidlc.Storage.Database.State.{RunRow, Db, has_run}
use multi_agent_aidlc.Storage.Database.Runs.{
  get_run, create_run, load_run, new_run_row, new_stage_row,
}

abbrev pub pending_stage : StageName → StageRecord
pending_stage name = record {
  name = name;
  status = RunStatus.pending;
  started_at = none;
  finished_at = none;
  error = none;
}

-- The run that `create_run` promises.
abbrev pub pending_run : ℕ → String → String → WorkflowRun
pending_run now run_id idea = record {
  run_id = run_id;
  idea = idea;
  status = RunStatus.pending;
  current_stage = none;
  created_at = now;
  updated_at = now;
  error = none;
  stages = map pending_stage stage_order;
}

-- No row carries the identifier yet.
abbrev pub IsFresh : String → Db → Type 0
IsFresh run_id db = (has_run run_id db ≡ false) × (any (λ s. s.run_id == run_id) db.stages ≡ false)

select-new_rows :
    (run_id : String)
    → select (λ s. s.run_id == run_id) (map (new_stage_row run_id) stage_order)
      ≡ map (new_stage_row run_id) stage_order
select-new_rows run_id = simp beq_refl

module _ (now : ℕ) (run_id idea : String) (db : Db) where
  -- The tables after the two INSERT statements.
  abbrev pub created : Db
  created = record db {
    runs = db.runs ++ new_run_row now run_id idea ∷ [];
    stages = db.stages ++ map (new_stage_row run_id) stage_order;
  }

  find-created :
      IsFresh run_id db
      → find (λ r. r.run_id == run_id) created.runs ≡ some (new_run_row now run_id idea)
  find-created h = rw (find-append_none _ db.runs _ h.0) (rw (beq_refl run_id) refl)

  select-created :
      IsFresh run_id db
      → select (λ s. s.run_id == run_id) created.stages ≡ map (new_stage_row run_id) stage_order
  select-created h =
      rw (select-append _ db.stages _, select_none _ db.stages h.1) (select-new_rows run_id)

  get_run-created :
      IsFresh run_id db → get_run run_id created ≡ ok (some (pending_run now run_id idea))
  unfolding get_run
  get_run-created h = rw (find-created h, load_run) (rw (select-created h))

  select-created_other :
      (other : String)
      → (run_id == other) ≡ false
      → select (λ s. s.run_id == other) created.stages ≡ select (λ s. s.run_id == other) db.stages
  select-created_other other h = rw (select-append _ db.stages _) (rw h (append-nil _))

  get_run-created_other :
      (other : String) → (run_id == other) ≡ false → get_run other created ≡ get_run other db
  unfolding get_run
  get_run-created_other other h =
      rw (find-append_fail _ db.runs (new_run_row now run_id idea) h)
        (load_same (find (λ r. r.run_id == other) db.runs))
    where
      load_same : (o : Option RunRow) → load_run other created o ≡ load_run other db o
      load_same none = refl
      load_same (some row) = rw (select-created_other other h)

  -- Creating a run under an unused identifier succeeds, and returns the run with all nine stages
  -- pending in pipeline order. Reading it back gives the same.
  pub create_run-get_run :
      IsFresh run_id db
      → (create_run now run_id idea db ≡ ok (pending_run now run_id idea, created))
        × (get_run run_id created ≡ ok (some (pending_run now run_id idea)))
  unfolding create_run
  create_run-get_run h = (rw (h.0, h.1) (rw (get_run-created h)), get_run-created h)

  -- Creating a run changes what is read under no other identifier.
  pub create_run-get_run_other :
      (other : String) {run : WorkflowRun} {db' : Db}
      → IsFresh run_id db
      → create_run now run_id idea db ≡ ok (run, db')
      → run_id ≢ other
      → get_run other db' ≡ get_run other db
  create_run-get_run_other other {run} {db'} h e ne =
      let same : db' ≡ created = cc ((create_run-get_run h).0, e) in
      rw same (get_run-created_other other (beq_ne run_id other ne))
