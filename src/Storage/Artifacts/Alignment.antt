-- ===== src/Storage/Artifacts/Alignment.antt =====
-- The manifests of the published directories agree with their paths and contents.
use multi_agent_aidlc.Common.{
  ℕ, String, ◌≡◌, refl, true, false, some, List, ok, Bool-cases, inl, inr, All, All-select,
}
use multi_agent_aidlc.Domain.{
  ArtifactRecord, ArtifactMetadata, Hashing, ContentPath, current, records, project_id_for_run,
  content_digest,
}
use multi_agent_aidlc.Storage.Artifacts.{
  Directory, Store, Publication, write, is_snapshot, destination_of, cleared, remove_stale,
  manifest_of,
}
use multi_agent_aidlc.Storage.Artifacts.Frame.{All-put}
use multi_agent_aidlc.Storage.Artifacts.Reading.{write-Written}

module _ (hashing : Hashing) where
  -- The manifest has the parts of the path, its project is that of its run, and its hash is that of
  -- the content.
  pub Agrees : ContentPath → ArtifactMetadata → Type 0
  Agrees (current project stage agent kind) m =
      (m.project_id ≡ project)
      × (m.stage_id ≡ stage)
      × (m.producing_agent ≡ agent)
      × (m.kind ≡ kind)
      × (m.current_snapshot ≡ true)
  Agrees (records project stage artifact_id) m =
      (m.project_id ≡ project)
      × (m.stage_id ≡ stage)
      × (m.artifact_id ≡ artifact_id)
      × (m.current_snapshot ≡ false)

  pub record IsAligned (entry : ContentPath × Directory) : Type 0 where
    pub manifest : ArtifactMetadata
    pub is_stored : entry.1.manifest ≡ some manifest
    pub agrees : Agrees entry.0 manifest
    pub of_run : project_id_for_run hashing manifest.workflow_run_id ≡ manifest.project_id
    pub digest : content_digest hashing entry.1.content ≡ manifest.content_sha256

  module _ (hex : String) (now : ℕ) (p : Publication) where
    cleared-IsAligned :
        (ds : List (ContentPath × Directory))
        → All IsAligned ds
        → All IsAligned (cleared hashing p ds)
    unfolding remove_stale
    cleared-IsAligned ds h = elim (Bool-cases (is_snapshot hashing p)) [
      | inl yes_snapshot ↦ rw yes_snapshot (All-select IsAligned _ ds h)
      | inr no_snapshot ↦ rw no_snapshot h
    ]

    destination_of-Agrees : Agrees (destination_of hashing hex p) (manifest_of hashing hex now p)
    unfolding Agrees
    destination_of-Agrees = elim (Bool-cases (is_snapshot hashing p)) [
      | inl yes_snapshot ↦ rw yes_snapshot (refl, refl, refl, refl, refl)
      | inr no_snapshot ↦ rw no_snapshot (refl, refl, refl, refl)
    ]

    -- If every directory of a store has a manifest that agrees with its path (project and stage, with
    -- the agent and the kind of a current directory, or the identifier of a recorded one), with its
    -- run and with the hash of its content, then so it is after a write that succeeds.
    pub write-IsAligned :
        (store : Store) {r : ArtifactRecord} {store' : Store}
        → All IsAligned store.directories
        → write hashing hex now p store ≡ ok (r, store')
        → All IsAligned store'.directories
    write-IsAligned store aligned h =
        let w = write-Written hashing hex now p store h in
        rw w.directories (
          All-put IsAligned _ _ _
            (record {
              manifest = manifest_of hashing hex now p;
              is_stored = refl;
              agrees = destination_of-Agrees;
              of_run = refl;
              digest = refl;
            })
            (cleared-IsAligned store.directories aligned))
