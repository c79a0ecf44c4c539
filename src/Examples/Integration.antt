-- ===== src/Examples/Integration.antt =====
-- The theorem on an integration at a concrete input.
use multi_agent_aidlc.Common.{String, ◌≡◌, refl, List, [], ◌∷◌, none, Result, ok}
use multi_agent_aidlc.Domain.{
  RunStatus, StageName-discrete, ArtifactKind, ArtifactKind-discrete, ArtifactRecord,
  ContextArtifact, project_id_for_run,
}
use multi_agent_aidlc.Tools.Source.{validate_source, source_bundle}
use multi_agent_aidlc.Agents.Sources.{is_under, is_python, is_vite_config, merge_sources}
use multi_agent_aidlc.Storage.Snapshots.{snapshot_kinds, invalidated_kinds}
use multi_agent_aidlc.Storage.Artifacts.{
  Publication, Store, put, filled, manifest_of, destination_of, write, read_content, release_source,
  descriptor_after, remove_stale,
}
use multi_agent_aidlc.Storage.Database.State.{Db, initialize}
use multi_agent_aidlc.Storage.Database.Events.{append_event}
use multi_agent_aidlc.Storage.Database.Index.{list_artifacts, add_artifact, insert_artifact}
use multi_agent_aidlc.Orchestration.Hub.{artifact_context}
use multi_agent_aidlc.Orchestration.Publish.{integrate}
use multi_agent_aidlc.Orchestration.Publish.Integration.{Integrated, integrate-Integrated}
use multi_agent_aidlc.Examples.Data.{hashing, publication, empty_store, run_row}
use multi_agent_aidlc.Examples.Sources.{pinned, changes}

abbrev publication_of : ContextArtifact → Publication
publication_of item =
    record (publication ArtifactKind.code_change item.metadata.producing_agent "") {
      content = item.content;
    }

abbrev record_of : String → ContextArtifact → ArtifactRecord
record_of hex item = record {
  metadata = manifest_of hashing hex 1 (publication_of item);
  content_path = destination_of hashing hex (publication_of item);
}

abbrev records_of : List ContextArtifact → List ArtifactRecord
records_of [] = []
records_of (item ∷ items) = record_of item.metadata.producing_agent item ∷ records_of items

abbrev store_of : List ContextArtifact → Store
store_of [] = empty_store
store_of (item ∷ items) =
    let hex = item.metadata.producing_agent in
    let p = publication_of item in
    record empty_store {
      directories =
          put (destination_of hashing hex p) (filled p (manifest_of hashing hex 1 p) none none)
            (store_of items).directories;
    }

abbrev db : Db
db = record initialize { runs = run_row RunStatus.running ∷ []; artifacts = records_of changes }

abbrev outcome : Result (List String) × Db × Store
outcome = integrate hashing pinned "9" 4 "run_1" ("art_0" ∷ []) db (store_of changes)

integrates :
    integrate hashing pinned "9" 4 "run_1" ("art_0" ∷ []) db (store_of changes)
    ≡ (ok ("art_0" ∷ "art_9" ∷ []), outcome.1, outcome.2)
unfolding integrate artifact_context list_artifacts read_content merge_sources validate_source
    source_bundle is_under is_python is_vite_config write release_source descriptor_after
    snapshot_kinds invalidated_kinds add_artifact insert_artifact append_event project_id_for_run
    remove_stale ArtifactKind-discrete StageName-discrete
integrates = refl

integrate-Integrated_example :
    Integrated hashing pinned "9" 4 "run_1"
      ("art_0" ∷ [])
      ("art_0" ∷ "art_9" ∷ [])
      db
      (store_of changes)
      outcome.2
integrate-Integrated_example =
    integrate-Integrated hashing pinned "9" 4 "run_1" ("art_0" ∷ []) db (store_of changes)
      integrates
