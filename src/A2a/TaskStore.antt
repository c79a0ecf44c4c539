-- ===== src/A2a/TaskStore.antt =====
-- src/aidlc/a2a/task_store.py: durable tasks, and the reservation of a message's identifier before
-- its task starts. A write transaction covers each operation, so an operation is one step. The row
-- of a task stores its JSON, which is the task.
pub mod Reservation
pub mod Restart
use multi_agent_aidlc.Common.{
  String, Json, Bool, true, false, not, ◌&&◌, Option, none, some, List, [], ◌∷◌, ◌++◌, Result, ok,
  err, ◌>>=◌, ◌>>◌, guard, or_raise, invalid_params, integrity_error, any, find, select,
  update_where, if◌then◌else◌, ◌==◌, string_eq, Eq, of_discrete,
}

-- The states of the A2A protocol.
pub data TaskState : Type 0 where
  unspecified submitted working completed failed canceled input_required rejected auth_required :
      TaskState

unfoldable pub TaskState-discrete : Discrete TaskState
TaskState-discrete = hlevel

instance abbrev pub task_state_eq : Eq TaskState
task_state_eq = of_discrete TaskState-discrete

-- The fields of the protocol's messages and tasks that the store reads.
pub record Message : Type 0 where
  pub message_id : String
  pub task_id : String
  pub context_id : String
  pub parts : Json

pub record Task : Type 0 where
  pub id : String
  pub context_id : String
  pub state : TaskState
  pub status_message : Option String
  pub history : List Message

pub record TaskRow : Type 0 where
  pub agent : String
  pub owner : String
  pub task : Task

pub record MessageRow : Type 0 where
  pub agent : String
  pub owner : String
  pub message_id : String
  pub fingerprint : String
  pub task_id : String

pub record TaskDb : Type 0 where
  pub tasks : List TaskRow
  pub messages : List MessageRow

-- `WHERE agent = ? AND owner = ? AND id = ?`
abbrev pub is_task : String → String → String → TaskRow → Bool
is_task agent owner id row = row.agent == agent && (row.owner == owner && row.task.id == id)

abbrev pub is_message : String → String → String → MessageRow → Bool
is_message agent owner id row = row.agent == agent && (row.owner == owner && row.message_id == id)

abbrev pub task_of : Option TaskRow → Option Task
task_of none = none
task_of (some row) = some row.task

unfoldable pub get_task : (agent owner id : String) → TaskDb → Option Task
get_task agent owner id db = task_of (find (is_task agent owner id) db.tasks)

abbrev pub write_task : Task → TaskRow → TaskRow
write_task task row = record row { task = task }

-- `INSERT ... ON CONFLICT(agent, owner, id) DO UPDATE`
unfoldable pub save_task : (agent owner : String) → Task → TaskDb → TaskDb
save_task agent owner task db = record db {
  tasks =
      if any (is_task agent owner task.id) db.tasks
      then update_where (is_task agent owner task.id) (write_task task) db.tasks
      else db.tasks ++ record { agent = agent; owner = owner; task = task } ∷ [];
}

unfoldable pub delete_task : (agent owner id : String) → TaskDb → TaskDb
delete_task agent owner id db = record db {
  tasks = select (λ row. not (is_task agent owner id row)) db.tasks;
}

-- A task whose work was lost when the agent's process stopped.
abbrev pub restarted : Task → Task
restarted task = record task {
  state = TaskState.failed;
  status_message = some "Agent process restarted";
}

abbrev pub is_interrupted : TaskState → Bool
is_interrupted TaskState.submitted = true
is_interrupted TaskState.working = true
is_interrupted _ = false

unfoldable pub restart : (agent : String) → TaskDb → TaskDb
restart agent db = record db {
  tasks =
      update_where (λ row. row.agent == agent && is_interrupted row.task.state)
        (λ row. record row { task = restarted row.task }) db.tasks;
}

-- `message.context_id or str(uuid4())`
abbrev pub context_or : String → String → String
context_or context_id fresh = if context_id == "" then fresh else context_id

abbrev pub new_task : (task_id context_id : String) → Message → Task
new_task task_id context_id message = record {
  id = task_id;
  context_id = context_or message.context_id context_id;
  state = TaskState.submitted;
  status_message = none;
  history = message ∷ [];
}

abbrev pub continued : Message → Task → Task
continued message task = record task {
  history = task.history ++ message ∷ [];
  state = TaskState.submitted;
}

-- `hashlib.sha256` of a message's deterministic serialisation.
module _ (digest : Message → String) where
  -- The INSERT into `messages`.
  abbrev pub reserved : (agent owner : String) → Message → Task → TaskDb → TaskDb
  reserved agent owner message task db = record db {
    messages =
        db.messages
        ++ record {
          agent = agent;
          owner = owner;
          message_id = message.message_id;
          fingerprint = digest message;
          task_id = task.id;
        }
          ∷ [];
  }

  -- A message that was reserved before.
  unfoldable pub recall : (agent owner : String) → Message → MessageRow → TaskDb → Result Task
  recall agent owner message row db = do
    guard (row.fingerprint == digest message)
        (invalid_params "messageId reused with different input")
    or_raise (get_task agent owner row.task_id db) (invalid_params "The reserved task was deleted")

  -- A message that continues a task.
  unfoldable pub continue_task : (agent owner : String) → Message → TaskDb → Result (Task × TaskDb)
  continue_task agent owner message db = do
    task ←
        or_raise (get_task agent owner message.task_id db)
          (invalid_params "Unknown continuation task")
    guard (task.context_id == message.context_id) (invalid_params "Continuation context mismatch")
    guard (task.state == TaskState.input_required) (invalid_params "Task is not waiting for input")
    ok (
      continued message task,
      record db {
        tasks =
            update_where (is_task agent owner task.id) (write_task (continued message task))
              db.tasks;
      },
    )

  -- A message that opens a task, under the new identifiers.
  unfoldable pub open_task :
      (task_id context_id agent owner : String) → Message → TaskDb → Result (Task × TaskDb)
  open_task task_id context_id agent owner message db =
      if any (is_task agent owner task_id) db.tasks
      then err integrity_error
      else ok (
        new_task task_id context_id message,
        record db {
          tasks =
              db.tasks
              ++ record { agent = agent; owner = owner; task = new_task task_id context_id message }
                ∷ [];
        },
      )

  unfoldable pub first_reserve :
      (task_id context_id agent owner : String) → Message → TaskDb → Result (Task × TaskDb)
  unfolding continue_task open_task
  first_reserve task_id context_id agent owner message db =
      if message.task_id == ""
      then open_task task_id context_id agent owner message db
      else continue_task agent owner message db

  unfoldable pub reserve_after :
      (task_id context_id agent owner : String)
      → Message
      → Option MessageRow
      → TaskDb
      → Result (Task × Bool × TaskDb)
  unfolding recall first_reserve
  reserve_after task_id context_id agent owner message (some row) db = do
    task ← recall agent owner message row db
    ok (task, false, db)
  reserve_after task_id context_id agent owner message none db = do
    (task, db') ← first_reserve task_id context_id agent owner message db
    ok (task, true, reserved agent owner message task db')

  unfoldable pub reserve :
      (task_id context_id agent owner : String) → Message → TaskDb → Result (Task × Bool × TaskDb)
  unfolding reserve_after
  reserve task_id context_id agent owner message db =
      reserve_after task_id context_id agent owner message
        (find (is_message agent owner message.message_id) db.messages) db
