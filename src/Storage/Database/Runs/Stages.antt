-- ===== src/Storage/Database/Runs/Stages.antt =====
-- `update_stage`: what the UPDATE statement makes of a stage's row.
use multi_agent_aidlc.Common.{
  ℕ, String, ◌&&◌, ◌||◌, Option, none, some, ◌==◌, string_eq, if◌then◌else◌, update_where,
}
use multi_agent_aidlc.Domain.{
  RunStatus, StageName, terminal_run_statuses, stage_name_eq, run_status_eq, RunStatus-discrete,
  StageName-discrete,
}
use multi_agent_aidlc.Storage.Database.State.{StageRow, Db}

-- SQL's COALESCE
abbrev pub coalesce : Option ℕ → Option ℕ → Option ℕ
coalesce none b = b
coalesce (some a) b = some a

-- The row that the SET clause writes.
unfoldable pub set_stage : (now : ℕ) → RunStatus → Option String → StageRow → StageRow
unfolding RunStatus-discrete
set_stage now status error row = record row {
  status = status;
  started_at = coalesce row.started_at started_at;
  finished_at =
      if status == RunStatus.running || status == RunStatus.input_required
      then none
      else coalesce finished_at row.finished_at;
  error = error;
}
  where
    started_at : Option ℕ
    started_at = if status == RunStatus.running then some now else none

    finished_at : Option ℕ
    finished_at = if terminal_run_statuses status then some now else none

unfoldable pub update_stage : (now : ℕ) → String → StageName → RunStatus → Option String → Db → Db
unfolding StageName-discrete
update_stage now run_id stage status error db = record db {
  stages =
      update_where (λ r. r.run_id == run_id && r.name == stage) (set_stage now status error)
        db.stages;
}
