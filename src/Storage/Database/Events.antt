-- ===== src/Storage/Database/Events.antt =====
-- The `events` table: `append_event` and `events_after`.
use multi_agent_aidlc.Common.{
  ℕ, ◌+◌, String, ◌&&◌, List, [], ◌∷◌, ◌++◌, Json, Result, ok, err, integrity_error, select, ltb,
  if◌then◌else◌, ◌==◌, string_eq,
}
use multi_agent_aidlc.Domain.{EventRecord}
use multi_agent_aidlc.Storage.Database.State.{Db, has_run}

unfoldable pub append_event : (now : ℕ) → String → String → Json → Db → Result (ℕ × Db)
append_event now run_id event_type payload db =
    if has_run run_id db
    then ok (
      event.event_id,
      record db { events = db.events ++ event ∷ []; last_event_id = event.event_id },
    )
    else err integrity_error
  where
    event : EventRecord
    event = record {
      event_id = db.last_event_id + 1;
      run_id = run_id;
      event_type = event_type;
      payload = payload;
      created_at = now;
    }

unfoldable pub events_after : String → ℕ → Db → List EventRecord
events_after run_id event_id db =
    select (λ e. e.run_id == run_id && ltb event_id e.event_id) db.events
