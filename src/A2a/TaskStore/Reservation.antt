-- ===== src/A2a/TaskStore/Reservation.antt =====
-- A message starts at most one task, and touches only the tasks of its agent and owner.
use mathlib.Core.Path.{subst}
use multi_agent_aidlc.Common.{
  String, ◌≡◌, ◌∙◌, sym, ap, refl, Bool, true, false, ◌&&◌, Option, none, some, List, [], ◌∷◌, ◌++◌,
  Error, ◌≢◌, beq_ne, update_where, ok, err, >>=-eq-ok, arith, invalid_params, any, find,
  find-append_none, find-update_where_hit, test_of_find, guard, or_raise, Bool-cases, Option-cases,
  inl, inr, ◌==◌, string_eq, beq_refl, eq_of_beq,
}
use multi_agent_aidlc.A2a.TaskStore.{
  Message, Task, TaskRow, MessageRow, TaskDb, TaskState, is_task, is_message, get_task, write_task,
  continued, new_task, reserved, task_state_eq, recall, continue_task, open_task, first_reserve,
  reserve_after, reserve,
}

last_part : (a b c : Bool) → (a && (b && c)) ≡ true → c ≡ true
last_part a b c h = ground arith

none-any : {A : Type 0} (p : A → Bool) (xs : List A) → find p xs ≡ none → any p xs ≡ false
none-any p [] h = refl
none-any p (x ∷ xs) h = elim (Bool-cases (p x)) [
  | inl hit ↦ cc (rw hit at h)
  | inr miss ↦ rw miss (none-any p xs (rw miss at h))
]

found_task :
    (agent owner id : String) (db : TaskDb) (task : Task)
    → get_task agent owner id db ≡ some task
    → (row : TaskRow) × (find (is_task agent owner id) db.tasks ≡ some row) × (row.task ≡ task)
unfolding get_task
found_task agent owner id db task h = elim (Option-cases (find (is_task agent owner id) db.tasks)) [
  | inl e ↦ cc (rw e at h)
  | inr (row, e) ↦ (row, e, cc (rw e at h))
]

or_raise-some : {A : Type 0} (o : Option A) (e : Error) {a : A} → or_raise o e ≡ ok a → o ≡ some a
or_raise-some none e h = cc h
or_raise-some (some b) e h = cc h

module _ (digest : Message → String) (agent owner : String) (message : Message) where
  -- The task stands in the store, and the reservations are as before.
  record Stored (task : Task) (db db' : TaskDb) : Type 0 where
    here : get_task agent owner task.id db' ≡ some task
    messages : db'.messages ≡ db.messages

  open_task-Stored :
      (task_id context_id : String) (db : TaskDb) {task : Task} {db' : TaskDb}
      → open_task digest task_id context_id agent owner message db ≡ ok (task, db')
      → Stored task db db'
  unfolding open_task get_task
  open_task-Stored task_id context_id db {task} {db'} h =
      elim (Bool-cases (any (is_task agent owner task_id) db.tasks)) [
        | inl taken ↦ cc (rw taken at h)
        | inr free ↦
            let h' = rw free at h in
            let fresh = new_task task_id context_id message in
            let row : TaskRow = record { agent = agent; owner = owner; task = fresh } in
            let same : fresh ≡ task = cc h' in
            let same_db : record db { tasks = db.tasks ++ row ∷ [] } ≡ db' = cc h' in
            let found : find (is_task agent owner task_id) (db.tasks ++ row ∷ []) ≡ some row =
              find-append_none _ db.tasks (row ∷ []) free
              ∙ rw (beq_refl agent, beq_refl owner, beq_refl task_id) refl in
            subst (λ t. Stored t db db') same
              (subst (λ d. Stored fresh db d) same_db
                (record { here = rw found refl; messages = refl }))
      ]

  is_task_same :
      (id : String) (task : Task) (row : TaskRow)
      → task.id ≡ id
      → is_task agent owner id row ≡ true
      → is_task agent owner id (write_task task row) ≡ true
  is_task_same id task row same h = rw (same, beq_refl id) (ground (arith, h))

  continue_task-Stored :
      (db : TaskDb) {task : Task} {db' : TaskDb}
      → continue_task digest agent owner message db ≡ ok (task, db')
      → Stored task db db'
  unfolding continue_task get_task
  continue_task-Stored db {task} {db'} h =
      let (old, e1, h1) =
        >>=-eq-ok
          (or_raise (get_task agent owner message.task_id db)
            (invalid_params "Unknown continuation task"))
          _ h in
      let (_, _, h2) =
        >>=-eq-ok
          (guard (old.context_id == message.context_id)
            (invalid_params "Continuation context mismatch"))
          _ h1 in
      let (_, _, h3) =
        >>=-eq-ok
          (guard (old.state == TaskState.input_required)
            (invalid_params "Task is not waiting for input"))
          _ h2 in
      let (row, found, row_task) =
        found_task agent owner message.task_id db old (or_raise-some _ _ e1) in
      let id_row =
        eq_of_beq row.task.id message.task_id
          (last_part _ _ _ (test_of_find _ db.tasks row found)) in
      let id_old : old.id ≡ message.task_id = ap (λ (t : Task). t.id) (sym row_task) ∙ id_row in
      let next = continued message old in
      let rows = update_where (is_task agent owner old.id) (write_task next) db.tasks in
      let same : next ≡ task = cc h3 in
      let same_db : record db { tasks = rows } ≡ db' = cc h3 in
      let found' : find (is_task agent owner old.id) rows ≡ some (write_task next row) =
        find-update_where_hit (is_task agent owner old.id) (write_task next) db.tasks
          (λ z k. is_task_same old.id next z refl k)
          (ap (λ x. find (is_task agent owner x) db.tasks) id_old ∙ found) in
      subst (λ t. Stored t db db') same
        (subst (λ d. Stored next db d) same_db (record { here = rw found' refl; messages = refl }))

  first_reserve-Stored :
      (task_id context_id : String) (db : TaskDb) {task : Task} {db' : TaskDb}
      → first_reserve digest task_id context_id agent owner message db ≡ ok (task, db')
      → Stored task db db'
  unfolding first_reserve
  first_reserve-Stored task_id context_id db h = elim (Bool-cases (message.task_id == "")) [
    | inl opens ↦ open_task-Stored task_id context_id db (rw opens at h)
    | inr continues ↦ continue_task-Stored db (rw continues at h)
  ]

  abbrev row_of : Task → MessageRow
  row_of task = record {
    agent = agent;
    owner = owner;
    message_id = message.message_id;
    fingerprint = digest message;
    task_id = task.id;
  }

  -- What a new reservation left.
  record Reserved (task : Task) (db' : TaskDb) : Type 0 where
    row : find (is_message agent owner message.message_id) db'.messages ≡ some (row_of task)
    task_here : get_task agent owner task.id db' ≡ some task

  reserve_after-Reserved :
      (task_id context_id : String) (o : Option MessageRow) (db : TaskDb) {task : Task}
      {db' : TaskDb}
      → find (is_message agent owner message.message_id) db.messages ≡ o
      → reserve_after digest task_id context_id agent owner message o db ≡ ok (task, true, db')
      → Reserved task db'
  unfolding reserve_after get_task
  reserve_after-Reserved task_id context_id (some row) db e h =
      let (_, _, h') = >>=-eq-ok (recall digest agent owner message row db) _ h in cc h'
  reserve_after-Reserved task_id context_id none db {task} {db'} e h =
      let ((fresh, db1), e1, h1) =
        >>=-eq-ok (first_reserve digest task_id context_id agent owner message db) _ h in
      let s = first_reserve-Stored task_id context_id db e1 in
      let same : fresh ≡ task = cc h1 in
      let same_db : reserved digest agent owner message fresh db1 ≡ db' = cc h1 in
      subst (λ t. Reserved t db') same
        (subst (λ d. Reserved fresh d) same_db
          (record {
            row = rw s.messages (
                find-append_none _ db.messages (row_of fresh ∷ []) (none-any _ db.messages e)
                ∙ rw (beq_refl agent, beq_refl owner, beq_refl message.message_id) refl);
            task_here = s.here;
          }))

  reserve-Reserved :
      (task_id context_id : String) (db : TaskDb) {task : Task} {db' : TaskDb}
      → reserve digest task_id context_id agent owner message db ≡ ok (task, true, db')
      → Reserved task db'
  unfolding reserve
  reserve-Reserved task_id context_id db h = reserve_after-Reserved task_id context_id _ db refl h

-- After a message starts a task, the same message sent again returns that task as it stands and
-- starts nothing, whatever identifiers are new.
pub reserve_again :
    (digest : Message → String) (agent owner : String) (message : Message)
    (task_id context_id task_id' context_id' : String) (db : TaskDb) {task : Task} {db' : TaskDb}
    → reserve digest task_id context_id agent owner message db ≡ ok (task, true, db')
    → reserve digest task_id' context_id' agent owner message db' ≡ ok (task, false, db')
unfolding reserve
reserve_again digest agent owner message task_id context_id task_id' context_id' db h =
    let r = reserve-Reserved digest agent owner message task_id context_id db h in
    rw (r.row, reserve_after) (rw (beq_refl (digest message), recall) (rw (r.task_here)))

-- After a message starts a task, a different message under the same identifier is refused.
pub reserve_reused :
    (digest : Message → String) (agent owner : String) (message other : Message)
    (task_id context_id task_id' context_id' : String) (db : TaskDb) {task : Task} {db' : TaskDb}
    → reserve digest task_id context_id agent owner message db ≡ ok (task, true, db')
    → other.message_id ≡ message.message_id
    → digest message ≢ digest other
    → reserve digest task_id' context_id' agent owner other db'
      ≡ err (invalid_params "messageId reused with different input")
unfolding reserve
reserve_reused digest agent owner message other task_id context_id task_id' context_id' db
      {db' = db'} h same differs =
    let r = reserve-Reserved digest agent owner message task_id context_id db h in
    let found = ap (λ x. find (is_message agent owner x) db'.messages) same ∙ r.row in
    rw (found, reserve_after) (rw (beq_ne (digest message) (digest other) differs, recall))
