-- ===== src/A2a/TaskStore/Restart.antt =====
-- What a restart of an agent's process makes of the stored tasks.
use mathlib.Core.Option
use multi_agent_aidlc.Common.{String, ◌&&◌, if◌then◌else◌, ◌==◌, string_eq}
use multi_agent_aidlc.A2a.TaskStore.{Task, TaskRow, restarted, is_interrupted}

-- The task after the restart of `agent`, for a task of `owning`.
abbrev pub task_after : (agent owning : String) → Task → Task
task_after agent owning task =
    if owning == agent && is_interrupted task.state then restarted task else task

abbrev row_after : String → TaskRow → TaskRow
row_after agent row =
    if row.agent == agent && is_interrupted row.task.state
    then record row { task = restarted row.task }
    else row
