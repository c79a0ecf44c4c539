-- ===== src/Orchestration/Publish/Integration.antt =====
-- What a successful integration publishes.
use multi_agent_aidlc.Common.{
  ℕ, String, ◌≡◌, ap, Bool, true, List, ◌∷◌, [], ◌++◌, Result, ok, err, >>=-eq-ok, Result-cases,
  All, inl, inr,
}
use multi_agent_aidlc.Domain.{ArtifactRecord, ContextArtifact, StageName, Hashing}
use multi_agent_aidlc.Tools.Source.{SourceFile}
use multi_agent_aidlc.Agents.Sources.{merge_sources}
use multi_agent_aidlc.Agents.Sources.Ownership.{is_owned, merge_sources-is_owned}
use multi_agent_aidlc.Storage.Artifacts.{Store, read_content}
use multi_agent_aidlc.Storage.Artifacts.Reading.{read_content-write}
use multi_agent_aidlc.Storage.Database.State.{Db}
use multi_agent_aidlc.Orchestration.Hub.{artifact_context}
use multi_agent_aidlc.Orchestration.Publish.{
  integration, bundle_json, announce, after_write, integrate,
}

module _ (hashing : Hashing) (pinned : String → Result Bool) (hex : String) (now : ℕ) where
  after_write-ok :
      (run_id : String) (parent_ids : List String) (db : Db) (store : Store)
      (r : Result (ArtifactRecord × Store)) {ids : List String} {db' : Db} {store' : Store}
      → after_write hashing now run_id parent_ids db store r ≡ (ok ids, db', store')
      → (artifact : ArtifactRecord) × (r ≡ ok (artifact, store'))
        × (ids ≡ parent_ids ++ artifact.metadata.artifact_id ∷ [])
  after_write-ok run_id parent_ids db store (err e) h = cc h
  after_write-ok run_id parent_ids db store (ok (artifact, store1)) {ids} {db'} {store'} h =
      elim (Result-cases (announce hashing now run_id artifact StageName.integration store1 db)) [
        | inl (db1, e) ↦
            let h' = rw (e, after_write) at h in
            let same : store1 ≡ store' = cc h' in
            let same_ids : ids ≡ parent_ids ++ artifact.metadata.artifact_id ∷ [] = cc h' in
            (artifact, ap (λ s. ok (artifact, s)) same, same_ids)
        | inr (raised, e) ↦ cc (rw (e, after_write) at h)
      ]

  -- What an integration published.
  pub record Integrated (run_id : String) (parent_ids ids : List String) (db : Db)
      (store store' : Store) : Type 0 where
    pub context : List ContextArtifact
    pub current : artifact_context hashing run_id db store ≡ ok context
    pub files : List SourceFile
    pub merged : merge_sources pinned context ≡ ok files
    pub owned : All (λ file. is_owned file ≡ true) files
    pub artifact : ArtifactRecord
    pub readable : read_content hashing artifact store' ≡ ok (bundle_json files)
    pub next_ids : ids ≡ parent_ids ++ artifact.metadata.artifact_id ∷ []

  -- An integration that succeeds has merged the source of the run's current artifacts, each file of
  -- which stands in its implementer's directory, and the artifact that it adds to the parents reads
  -- back as exactly this source.
  pub integrate-Integrated :
      (run_id : String) (parent_ids : List String) (db : Db) (store : Store) {ids : List String}
      {db' : Db} {store' : Store}
      → integrate hashing pinned hex now run_id parent_ids db store ≡ (ok ids, db', store')
      → Integrated run_id parent_ids ids db store store'
  unfolding integrate integration
  integrate-Integrated run_id parent_ids db store h =
      let (artifact, written, next_ids) = after_write-ok run_id parent_ids db store _ h in
      let (context, current, h1) = >>=-eq-ok (artifact_context hashing run_id db store) _ written in
      let (files, merged, h2) = >>=-eq-ok (merge_sources pinned context) _ h1 in
      record {
        context = context;
        current = current;
        files = files;
        merged = merged;
        owned = (merge_sources-is_owned pinned context merged).0;
        artifact = artifact;
        readable =
            read_content-write hashing hex now (integration run_id parent_ids files) store h2;
        next_ids = next_ids;
      }
