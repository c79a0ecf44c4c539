-- ===== src/Storage/Database/Recovery.antt =====
-- `recover_interrupted_runs`: at start-up every run that a dead process left open is blocked.
pub mod Complete
use multi_agent_aidlc.Common.{
  ℕ, String, Bool, true, false, Option, none, some, List, [], ◌∷◌, obj, field, str, end, Result, ok,
  ◌>>=◌, if◌then◌else◌, ◌==◌,
}
use multi_agent_aidlc.Domain.{RunStatus, StageName, WorkflowRun, run_status_eq, RunStatus-discrete}
use multi_agent_aidlc.Storage.Database.State.{Db}
use multi_agent_aidlc.Storage.Database.Events.{append_event}
use multi_agent_aidlc.Storage.Database.Runs.{list_runs, update_run}
use multi_agent_aidlc.Storage.Database.Runs.Stages.{update_stage}

-- `status in {PENDING, RUNNING, INPUT_REQUIRED}`
abbrev pub is_open : RunStatus → Bool
is_open RunStatus.pending = true
is_open RunStatus.running = true
is_open RunStatus.input_required = true
is_open _ = false

abbrev pub reason : String
reason = "Process restarted before completion; create a new run to retry."

abbrev block_stage : (now : ℕ) → WorkflowRun → Option StageName → Db → Db
block_stage now run none db = db
block_stage now run (some stage) db =
    update_stage now run.run_id stage RunStatus.blocked (some reason) db

-- The body of the loop, for an open run.
interrupt : (now : ℕ) → WorkflowRun → Db → Result Db
interrupt now run db = do
  let staged = block_stage now run run.current_stage db
  let updated = update_run now run.run_id RunStatus.blocked run.current_stage (some reason) staged
  (_, logged) ←
      append_event now run.run_id "run.interrupted" (obj (field "reason" (str reason) end)) updated
  ok logged

recover_each : (now : ℕ) → List WorkflowRun → Db → Result Db
recover_each now [] db = ok db
recover_each now (run ∷ runs) db = do
  db' ← if is_open run.status then interrupt now run db else ok db
  recover_each now runs db'

abbrev pub recovery_limit : ℕ
recovery_limit = 10000

unfoldable pub recover_interrupted_runs : (now : ℕ) → Db → Result Db
unfolding recover_each interrupt
recover_interrupted_runs now db = do runs ← list_runs recovery_limit db; recover_each now runs db
