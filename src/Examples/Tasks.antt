-- ===== src/Examples/Tasks.antt =====
-- The theorems on the task store at concrete inputs.
use mathlib.Core.Option
use multi_agent_aidlc.Common.{
  String, ◌≡◌, ◌≢◌, refl, true, false, [], ◌∷◌, Json, str, ok, err, invalid_params, ne_of_beq,
  string_eq,
}
use multi_agent_aidlc.A2a.TaskStore.{Message, Task, TaskDb, new_task, reserved, reserve}
use multi_agent_aidlc.A2a.TaskStore.Reservation.{reserve_again, reserve_reused}

abbrev empty_db : TaskDb
empty_db = record { tasks = []; messages = [] }

abbrev digest : Message → String
digest message = text message.parts
  where
    text : Json → String
    text (str s) = s
    text _ = "value"

abbrev hello : Message
hello = record { message_id = "m1"; task_id = ""; context_id = ""; parts = str "hello" }

abbrev goodbye : Message
goodbye = record hello { parts = str "goodbye" }

abbrev opened : Task
opened = new_task "t1" "c1" hello

abbrev opened_db : TaskDb
opened_db = reserved digest "intake-agent" "me" hello opened (record empty_db {
  tasks = record { agent = "intake-agent"; owner = "me"; task = opened } ∷ [];
})

opens_task :
    reserve digest "t1" "c1" "intake-agent" "me" hello empty_db ≡ ok (opened, true, opened_db)
unfolding reserve
opens_task = refl

reserve_again_example :
    reserve digest "t2" "c2" "intake-agent" "me" hello opened_db ≡ ok (opened, false, opened_db)
reserve_again_example =
    reserve_again digest "intake-agent" "me" hello "t1" "c1" "t2" "c2" empty_db opens_task

digests_differ : digest hello ≢ digest goodbye
digests_differ = ne_of_beq (digest hello) (digest goodbye) refl

reserve_reused_example :
    reserve digest "t2" "c2" "intake-agent" "me" goodbye opened_db
    ≡ err (invalid_params "messageId reused with different input")
reserve_reused_example =
    reserve_reused digest "intake-agent" "me" hello goodbye "t1" "c1" "t2" "c2" empty_db opens_task
      refl digests_differ
