-- ===== src/Storage/Database/Index.antt =====
-- The `artifacts` table: the index of the artifacts that a run can use.
pub mod Slots
pub mod Pipeline
use multi_agent_aidlc.Common.{
  ℕ, String, Bool, not, ◌&&◌, ◌||◌, Option, List, [], ◌∷◌, ◌++◌, Result, ok, err, ◌>>=◌,
  integrity_error, stop_iteration, any, find, select, sort_by, if◌then◌else◌, ◌==◌, string_eq, Json,
  guard, ◌>>◌,
}
use multi_agent_aidlc.Domain.{
  ArtifactMetadata, ArtifactRecord, artifact_kind_eq, ArtifactKind-discrete, Hashing, ContentPath,
}
use multi_agent_aidlc.Storage.Snapshots.{invalidated_kinds}
use multi_agent_aidlc.Storage.Artifacts.{Store, read_content, project_of}
use multi_agent_aidlc.Storage.Database.State.{Db, has_run}

abbrev pub same_slot : ArtifactMetadata → ArtifactMetadata → Bool
same_slot previous metadata =
    previous.kind == metadata.kind && previous.producing_agent == metadata.producing_agent

-- The row is deleted when the snapshot `metadata` is inserted.
abbrev pub replaced : ArtifactMetadata → ArtifactRecord → Bool
replaced metadata row =
    row.metadata.workflow_run_id == metadata.workflow_run_id
    && (same_slot row.metadata metadata
        || (row.metadata.current_snapshot && invalidated_kinds metadata.kind row.metadata.kind))

-- The rows that the INSERT meets.
abbrev pub kept_rows : ArtifactMetadata → List ArtifactRecord → List ArtifactRecord
kept_rows metadata rows =
    if metadata.current_snapshot then select (λ row. not (replaced metadata row)) rows else rows

unfoldable pub insert_artifact : ArtifactRecord → Db → Result Db
insert_artifact artifact db =
    if any (λ row. row.metadata.artifact_id == artifact.metadata.artifact_id) kept
      || not (has_run artifact.metadata.workflow_run_id db)
    then err integrity_error
    else ok (record db { artifacts = kept ++ artifact ∷ [] })
  where
    kept : List ArtifactRecord
    kept = kept_rows artifact.metadata db.artifacts

module _ (hashing : Hashing) where
  -- A snapshot is indexed only if it can still be read.
  unfoldable pub add_artifact : ArtifactRecord → Store → Db → Result Db
  add_artifact artifact store db =
      if artifact.metadata.current_snapshot
      then (do
        guard (project_of artifact.content_path == artifact.metadata.project_id) stop_iteration
        _ ← read_content hashing artifact store
        insert_artifact artifact db)
      else insert_artifact artifact db

-- `ORDER BY created_at`
unfoldable pub list_artifacts : String → Db → List ArtifactRecord
list_artifacts run_id db =
    sort_by (λ row. row.metadata.created_at)
      (select (λ row. row.metadata.workflow_run_id == run_id) db.artifacts)

unfoldable pub get_artifact : String → Db → Option ArtifactRecord
get_artifact artifact_id db = find (λ row. row.metadata.artifact_id == artifact_id) db.artifacts
