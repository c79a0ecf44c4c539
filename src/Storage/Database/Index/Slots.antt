-- ===== src/Storage/Database/Index/Slots.antt =====
-- What inserting an artifact does to the index.
use multi_agent_aidlc.Common.{
  ℕ, ◌≤◌, String, ◌≡◌, refl, Bool, true, false, not, ◌&&◌, some, List, [], ◌∷◌, ◌++◌, ok, arith,
  any, find, select, length, ◌==◌, string_eq, select-append, length-append, length-select-select,
  select-select_disjoint, find-select, find-append_some, find-append_none, Bool-cases, inl, inr,
  beq_refl, eq_of_beq,
}
use multi_agent_aidlc.Domain.{ArtifactKind, ArtifactMetadata, ArtifactRecord, artifact_kind_eq}
use multi_agent_aidlc.Storage.Database.State.{Db}
use multi_agent_aidlc.Storage.Database.Index.{insert_artifact, get_artifact, kept_rows, replaced}

-- What a successful insert leaves: the kept rows and the new one, under an identifier that no kept
-- row has.
pub record Inserted (a : ArtifactRecord) (db db' : Db) : Type 0 where
  pub rows : db'.artifacts ≡ kept_rows a.metadata db.artifacts ++ a ∷ []
  pub new_id :
      any
        (λ row. row.metadata.artifact_id == a.metadata.artifact_id)
        (kept_rows a.metadata db.artifacts)
      ≡ false

pub insert_artifact-Inserted :
    (a : ArtifactRecord) (db : Db) {db' : Db} → insert_artifact a db ≡ ok db' → Inserted a db db'
unfolding insert_artifact
insert_artifact-Inserted a db h = ground arith

abbrev has_id : String → ArtifactRecord → Bool
has_id artifact_id row = row.metadata.artifact_id == artifact_id

found_kept :
    (m : ArtifactMetadata) (row : ArtifactRecord) (rows : List ArtifactRecord)
    → find (has_id row.metadata.artifact_id) rows ≡ some row
    → (m.current_snapshot && replaced m row) ≡ false
    → find (has_id row.metadata.artifact_id) (kept_rows m rows) ≡ some row
found_kept m row rows found kept = elim (Bool-cases m.current_snapshot) [
  | inl snapshot ↦ rw snapshot (find-select _ _ rows row found (ground (arith, snapshot)))
  | inr other ↦ rw other found
]

-- The row is the current snapshot of an agent and a kind in a run.
abbrev pub in_slot : String → ArtifactKind → String → ArtifactRecord → Bool
in_slot run_id kind agent row =
    row.metadata.current_snapshot
    && (row.metadata.workflow_run_id == run_id
        && (row.metadata.kind == kind && row.metadata.producing_agent == agent))

abbrev pub slot_size : String → ArtifactKind → String → Db → ℕ
slot_size run_id kind agent db = length (select (in_slot run_id kind agent) db.artifacts)

module _ (run_id : String) (kind : ArtifactKind) (agent : String) where
  in_slot_parts :
      (row : ArtifactRecord)
      → in_slot run_id kind agent row ≡ true
      → (row.metadata.current_snapshot ≡ true)
        × (row.metadata.workflow_run_id ≡ run_id)
        × (row.metadata.kind ≡ kind)
        × (row.metadata.producing_agent ≡ agent)
  in_slot_parts row h = (
    ground arith,
    eq_of_beq row.metadata.workflow_run_id run_id (ground arith),
    eq_of_beq row.metadata.kind kind (ground arith),
    eq_of_beq row.metadata.producing_agent agent (ground arith),
  )

  -- A snapshot replaces whatever holds its slot.
  replaced-in_slot :
      (a row : ArtifactRecord)
      → in_slot run_id kind agent a ≡ true
      → in_slot run_id kind agent row ≡ true
      → not (replaced a.metadata row) ≡ false
  replaced-in_slot a row ha hr =
      let (_, run_a, kind_a, agent_a) = in_slot_parts a ha in
      let (_, run_r, kind_r, agent_r) = in_slot_parts row hr in
      rw
        (
          run_a,
          kind_a,
          agent_a,
          run_r,
          kind_r,
          agent_r,
          beq_refl run_id,
          beq_refl kind,
          beq_refl agent,
        )
        refl

  kept_rows-slot :
      (m : ArtifactMetadata) (rows : List ArtifactRecord)
      → length (select (in_slot run_id kind agent) (kept_rows m rows))
        ≤ length (select (in_slot run_id kind agent) rows)
  kept_rows-slot m rows = elim (Bool-cases m.current_snapshot) [
    | inl snapshot ↦ rw snapshot (length-select-select (in_slot run_id kind agent) _ rows)
    | inr other ↦ rw other (omega arith)
  ]

  kept_rows-slot_empty :
      (a : ArtifactRecord) (rows : List ArtifactRecord)
      → in_slot run_id kind agent a ≡ true
      → select (in_slot run_id kind agent) (kept_rows a.metadata rows) ≡ []
  kept_rows-slot_empty a rows h =
      rw (in_slot_parts a h).0 (
        select-select_disjoint (in_slot run_id kind agent) _ rows (λ row. replaced-in_slot a row h))

  -- If each agent had at most one current snapshot of a kind in a run, it still has after an insert.
  pub insert_artifact-slot_size :
      (a : ArtifactRecord) (db : Db) {db' : Db}
      → insert_artifact a db ≡ ok db'
      → slot_size run_id kind agent db ≤ 1
      → slot_size run_id kind agent db' ≤ 1
  insert_artifact-slot_size a db h few = rw (insert_artifact-Inserted a db h).rows (
      rw (select-append (in_slot run_id kind agent) (kept_rows a.metadata db.artifacts) (a ∷ []))
        (elim (Bool-cases (in_slot run_id kind agent a)) [
          | inl held ↦ rw (held, kept_rows-slot_empty a db.artifacts held) (omega arith)
          | inr free ↦ rw free (
              omega (
                arith,
                length-append
                    (select (in_slot run_id kind agent) (kept_rows a.metadata db.artifacts)) [],
                kept_rows-slot a.metadata db.artifacts,
              ))
        ]))

-- After an insert the artifact is found under its identifier.
pub insert_artifact-get_artifact :
    (a : ArtifactRecord) (db : Db) {db' : Db}
    → insert_artifact a db ≡ ok db'
    → get_artifact a.metadata.artifact_id db' ≡ some a
unfolding get_artifact
insert_artifact-get_artifact a db h =
    let i = insert_artifact-Inserted a db h in
    rw i.rows (rw (find-append_none _ _ (a ∷ []) i.new_id) (rw (beq_refl a.metadata.artifact_id)))

-- An artifact that was found under its identifier, and that the inserted one does not replace, is
-- found after the insert.
pub insert_artifact-get_artifact_other :
    (a row : ArtifactRecord) (db : Db) {db' : Db}
    → insert_artifact a db ≡ ok db'
    → get_artifact row.metadata.artifact_id db ≡ some row
    → (a.metadata.current_snapshot && replaced a.metadata row) ≡ false
    → get_artifact row.metadata.artifact_id db' ≡ some row
unfolding get_artifact
insert_artifact-get_artifact_other a row db h found kept =
    let i = insert_artifact-Inserted a db h in
    rw i.rows (
      find-append_some (has_id row.metadata.artifact_id) (kept_rows a.metadata db.artifacts)
        (a ∷ []) row (found_kept a.metadata row db.artifacts found kept))
