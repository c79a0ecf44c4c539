-- ===== src/Storage/Database/State.antt =====
-- The tables of the workflow database. A row that stores a model's JSON is the model; rows stand in
-- insertion order, which is the order of `rowid`.
use multi_agent_aidlc.Common.{ℕ, String, Bool, Option, List, [], any, ◌==◌, string_eq}
use multi_agent_aidlc.Domain.{
  RunStatus, StageName, EventRecord, ArtifactRecord, DelegatedTask, HumanInteraction,
}

pub record RunRow : Type 0 where
  pub run_id : String
  pub idea : String
  pub status : RunStatus
  pub current_stage : Option StageName
  pub created_at : ℕ
  pub updated_at : ℕ
  pub error : Option String

pub record StageRow : Type 0 where
  pub run_id : String
  pub name : StageName
  pub status : RunStatus
  pub started_at : Option ℕ
  pub finished_at : Option ℕ
  pub error : Option String

pub record Db : Type 0 where
  pub runs : List RunRow
  pub stages : List StageRow
  pub artifacts : List ArtifactRecord
  pub events : List EventRecord
  pub last_event_id : ℕ  -- the AUTOINCREMENT counter
  pub delegated_tasks : List DelegatedTask
  pub human_interactions : List HumanInteraction

-- `initialize` on a new file
abbrev pub initialize : Db
initialize = record {
  runs = [];
  stages = [];
  artifacts = [];
  events = [];
  last_event_id = 0;
  delegated_tasks = [];
  human_interactions = [];
}

-- What a foreign key on `runs(run_id)` and the primary key of `runs` ask.
abbrev pub has_run : String → Db → Bool
has_run run_id db = any (λ r. r.run_id == run_id) db.runs
