-- ===== src/Storage/Database/Tasks.antt =====
-- The `delegated_tasks` table.
use multi_agent_aidlc.Common.{
  String, List, [], ◌∷◌, Result, ok, err, integrity_error, select, if◌then◌else◌, ◌==◌, string_eq,
}
use multi_agent_aidlc.Domain.{DelegatedTask}
use multi_agent_aidlc.Storage.Database.State.{Db, has_run}

-- `INSERT ... ON CONFLICT(invocation_id) DO UPDATE`: the row keeps its place and its `run_id`
-- column, which an invocation identifier begins with.
unfoldable pub upsert_task : DelegatedTask → List DelegatedTask → List DelegatedTask
upsert_task task [] = task ∷ []
upsert_task task (t ∷ ts) =
    let rest = upsert_task task ts in
    if t.invocation_id == task.invocation_id then task ∷ ts else t ∷ rest

unfoldable pub save_delegated_task : DelegatedTask → Db → Result Db
unfolding upsert_task
save_delegated_task task db =
    if has_run task.run_id db
    then ok (record db { delegated_tasks = upsert_task task db.delegated_tasks })
    else err integrity_error

unfoldable pub list_delegated_tasks : String → Db → List DelegatedTask
list_delegated_tasks run_id db = select (λ t. t.run_id == run_id) db.delegated_tasks
