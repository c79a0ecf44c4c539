-- ===== src/Orchestration/World.antt =====
-- What the hub's coroutines of src/aidlc/orchestration/workflow.py act on: the database, the store
-- and a clock, changed by statements that may raise, and exception groups with their leaves.
use multi_agent_aidlc.Common.{
  ℕ, ◌+◌, String, Option, List, [], ◌∷◌, ◌++◌, Json, Error, Result, ok, err,
}
use multi_agent_aidlc.Domain.{RunStatus, StageName, ArtifactRecord, Hashing}
use multi_agent_aidlc.Storage.Artifacts.{Publication, Store, write}
use multi_agent_aidlc.Storage.Database.State.{Db}
use multi_agent_aidlc.Storage.Database.Runs.{update_run}
use multi_agent_aidlc.Storage.Database.Runs.Stages.{update_stage}
use multi_agent_aidlc.Storage.Database.Events.{append_event}
use multi_agent_aidlc.Storage.Database.Index.{add_artifact}
use multi_agent_aidlc.Orchestration.Hub.{event_only}

-- An exception: a single one, or an `ExceptionGroup`, which is never empty.
mutual
  pub data Raised : Type 0 where
    leaf : Error → Raised
    group : RaisedGroup → Raised

  pub data RaisedGroup : Type 0 where
    one : Raised → RaisedGroup
    also : Raised → RaisedGroup → RaisedGroup

-- `_leaf_errors`
unfoldable mutual
  pub leaf_errors : Raised → List Error
  leaf_errors (leaf error) = error ∷ []
  leaf_errors (group errors) = group_errors errors

  pub group_errors : RaisedGroup → List Error
  group_errors (one item) = leaf_errors item
  group_errors (also item rest) = leaf_errors item ++ group_errors rest

pub data Exit (A : Type 0) : Type 0 where
  returned : A → Exit A
  raised : Raised → Exit A

-- `step` counts the statements that read the clock or draw an identifier.
pub record World : Type 0 where
  pub db : Db
  pub store : Store
  pub step : ℕ

-- The hash functions, and the clock and `uuid4` at each step.
pub record Host : Type 0 where
  pub hashing : Hashing
  pub clock : ℕ → ℕ
  pub uuid : ℕ → String

-- What was changed before a raise stays changed.
abbrev pub Exec : Type 0 → Type 0
Exec A = World → Exit A × World

abbrev pub continue : {A B : Type 0} → Exit A × World → (A → Exec B) → Exit B × World
continue (raised error, w) rest = (raised error, w)
continue (returned a, w) rest = rest a w

infixl 10 ◌>>=◌ ◌>>◌
abbrev pub ◌>>=◌ : {A B : Type 0} → Exec A → (A → Exec B) → Exec B
◌>>=◌ first rest w = continue (first w) rest

abbrev pub ◌>>◌ : {A B : Type 0} → Exec A → Exec B → Exec B
first >> rest = first >>= λ _. rest

abbrev pub pure : {A : Type 0} → A → Exec A
pure a w = (returned a, w)

abbrev pub throw : {A : Type 0} → Error → Exec A
throw error w = (raised (leaf error), w)

abbrev pub exit_of : {A : Type 0} → Result A → Exit A
exit_of (err error) = raised (leaf error)
exit_of (ok a) = returned a

-- A statement that only reads.
abbrev pub asks : {A : Type 0} → (Db → Store → Result A) → Exec A
asks query w = (exit_of (query w.db w.store), w)

abbrev pub after_db : World → Result Db → Exit (Unit {0}) × World
after_db w (err error) = (raised (leaf error), record w { step = w.step + 1 })
after_db w (ok db) = (returned tt, record w { db = db; step = w.step + 1 })

abbrev pub after_store : World → Result (ArtifactRecord × Store) → Exit ArtifactRecord × World
after_store w (err error) = (raised (leaf error), record w { step = w.step + 1 })
after_store w (ok (artifact, store)) =
    (returned artifact, record w { store = store; step = w.step + 1 })

module _ (host : Host) where
  open host use {hashing, clock, uuid}

  -- A statement on the database at the present time.
  abbrev pub on_db : (ℕ → Db → Result Db) → Exec (Unit {0})
  on_db change w = after_db w (change (clock w.step) w.db)

  -- `_event`
  unfoldable pub event : String → String → Json → Exec (Unit {0})
  event run_id event_type payload =
      on_db (λ now db. event_only (append_event now run_id event_type payload db))

  unfoldable pub mark_run : String → RunStatus → Option StageName → Option String → Exec (Unit {0})
  mark_run run_id status stage error =
      on_db (λ now db. ok (update_run now run_id status stage error db))

  unfoldable pub mark_stage : String → StageName → RunStatus → Option String → Exec (Unit {0})
  mark_stage run_id stage status error =
      on_db (λ now db. ok (update_stage now run_id stage status error db))

  -- `self.artifacts.write(...)`
  unfoldable pub publish : Publication → Exec ArtifactRecord
  publish p w = after_store w (write hashing (uuid w.step) (clock w.step) p w.store)

  -- `self.database.add_artifact(artifact)`
  unfoldable pub index_artifact : ArtifactRecord → Exec (Unit {0})
  index_artifact artifact w = after_db w (add_artifact hashing artifact w.store w.db)
