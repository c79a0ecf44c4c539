-- ===== src/Storage/Artifacts/Frame.antt =====
-- What a write leaves of the other directories.
use multi_agent_aidlc.Common.{
  ℕ, String, ◌≡◌, ◌≢◌, ◌∙◌, sym, ap, refl, Bool, true, false, ◌&&◌, none, some, List, [], ◌∷◌, ok,
  arith, ◌==◌, string_eq, beq_ne, eq_of_beq, Bool-cases, inl, inr, if◌then◌else◌, All, All-select,
}
use multi_agent_aidlc.Domain.{
  ArtifactKind, ArtifactRecord, ArtifactMetadata, Hashing, ContentPath, current, records, path_eq,
  project_id_for_run,
}
use multi_agent_aidlc.Storage.Snapshots.{invalidated_kinds}
use multi_agent_aidlc.Storage.Artifacts.{
  Directory, Store, Publication, lookup, put, write, is_snapshot, destination_of, cleared,
  remove_stale, is_stale, manifest_of,
}
use multi_agent_aidlc.Storage.Artifacts.Reading.{write-Written, lookup-put_ne}

-- The path is a current directory of the project, for a kind that a new snapshot makes stale.
abbrev pub stale_path : String → ArtifactKind → ContentPath → Bool
stale_path project kind (current p stage agent k) = p == project && invalidated_kinds kind k
stale_path project kind (records p stage artifact_id) = false

-- The manifest of a current directory has the kind of its path.
abbrev pub IsLabelled : ContentPath × Directory → Type 0
IsLabelled (current _ _ _ kind, d) =
    (m : ArtifactMetadata) × (d.manifest ≡ some m) × (m.kind ≡ kind)
IsLabelled (records _ _ _, d) = Unit

abbrev pub IsConsistent : Store → Type 0
IsConsistent store = All IsLabelled store.directories

is_stale-path :
    (project : String) (kind : ArtifactKind) (path : ContentPath) (d : Directory)
    → IsLabelled (path, d)
    → is_stale project kind (path, d) ≡ stale_path project kind path
is_stale-path project kind (records p s i) d h = refl
is_stale-path project kind (current p s a k) d (m, e, label) = rw (e, label)

lookup-remove_stale :
    (project : String) (kind : ArtifactKind) (path : ContentPath)
    (ds : List (ContentPath × Directory))
    → All IsLabelled ds
    → lookup path (remove_stale project kind ds)
      ≡ (if stale_path project kind path then none else lookup path ds)
unfolding remove_stale
lookup-remove_stale project kind path [] h = ground arith
lookup-remove_stale project kind path ((p, d) ∷ ds) h =
    let ih = lookup-remove_stale project kind path ds h.1 in
    rw (is_stale-path project kind p d h.0) (elim (Bool-cases (p == path)) [
      | inl hit ↦ rw (ap (stale_path project kind) (eq_of_beq p path hit)) (ground (arith, ih, hit))
      | inr miss ↦ ground (arith, ih, miss)
    ])

pub All-put {κ} :
    {A : Type 0} (P : ContentPath × A → Type κ) (path : ContentPath) (a : A)
    (ds : List (ContentPath × A))
    → P (path, a)
    → All P ds
    → All P (put path a ds)
All-put P path a [] new h = (new, tt)
All-put {A} P path a ((p, b) ∷ ds) new h = step (All-put P path a ds new h.1) (p == path)
  where
    step :
        All P (put path a ds)
        → (c : Bool) → All P (if c then (path, a) ∷ ds else (p, b) ∷ put path a ds)
    step rest true = (new, h.1)
    step rest false = (h.0, rest)

module _ (hashing : Hashing) (hex : String) (now : ℕ) (p : Publication) where
  abbrev project : String
  project = project_id_for_run hashing p.run_id

  -- The directories that the write removes.
  abbrev pub removed : ContentPath → Bool
  removed path = is_snapshot hashing p && stale_path project p.kind path

  lookup-cleared :
      (path : ContentPath) (ds : List (ContentPath × Directory))
      → All IsLabelled ds
      → lookup path (cleared hashing p ds) ≡ (if removed path then none else lookup path ds)
  lookup-cleared path ds h = elim (Bool-cases (is_snapshot hashing p)) [
    | inl yes_snapshot ↦ rw yes_snapshot (lookup-remove_stale project p.kind path ds h)
    | inr no_snapshot ↦ rw no_snapshot
  ]

  cleared-IsLabelled :
      (ds : List (ContentPath × Directory))
      → All IsLabelled ds
      → All IsLabelled (cleared hashing p ds)
  unfolding remove_stale
  cleared-IsLabelled ds h = elim (Bool-cases (is_snapshot hashing p)) [
    | inl yes_snapshot ↦ rw yes_snapshot (All-select IsLabelled _ ds h)
    | inr no_snapshot ↦ rw no_snapshot h
  ]

  destination_of-IsLabelled :
      (d : Directory)
      → d.manifest ≡ some (manifest_of hashing hex now p)
      → IsLabelled (destination_of hashing hex p, d)
  destination_of-IsLabelled d e = elim (Bool-cases (is_snapshot hashing p)) [
    | inl yes_snapshot ↦ rw yes_snapshot (manifest_of hashing hex now p, e, refl)
    | inr no_snapshot ↦ rw no_snapshot tt
  ]

  -- A write keeps the kind of each current manifest that of its path.
  pub write-IsConsistent :
      (store : Store) {r : ArtifactRecord} {store' : Store}
      → IsConsistent store
      → write hashing hex now p store ≡ ok (r, store')
      → IsConsistent store'
  write-IsConsistent store consistent h =
      let w = write-Written hashing hex now p store h in
      rw w.directories (
        All-put IsLabelled _ _ _ (destination_of-IsLabelled _ refl)
          (cleared-IsLabelled store.directories consistent))

  -- In a store whose manifests are in line with their paths, a write changes no directory other than
  -- the one it fills, except that it removes exactly the current ones of its project whose kind a new
  -- snapshot makes stale. So other projects, and every record, stay as they are.
  pub write-frame :
      (store : Store) {r : ArtifactRecord} {store' : Store} (path : ContentPath)
      → IsConsistent store
      → write hashing hex now p store ≡ ok (r, store')
      → path ≢ r.content_path
      → lookup path store'.directories
        ≡ (if removed path then none else lookup path store.directories)
  write-frame store path consistent h ne =
      let w = write-Written hashing hex now p store h in
      rw w.directories (
        lookup-put_ne (destination_of hashing hex p) path _ _
          (beq_ne _ _ (λ e. ne (sym (ap (λ (x : ArtifactRecord). x.content_path) w.is_record ∙ e))))
        ∙ lookup-cleared path store.directories consistent)
