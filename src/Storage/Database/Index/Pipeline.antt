-- ===== src/Storage/Database/Index/Pipeline.antt =====
-- The current snapshots of a run stand in the order of the pipeline.
use mathlib.Core.List.{append-nil}
use multi_agent_aidlc.Common.{
  ℕ, ◌≤◌, String, ◌≡◌, ◌∙◌, sym, Bool, true, false, not, ◌&&◌, ◌||◌, List, [], ◌∷◌, ◌++◌, ok, arith,
  select, ◌==◌, string_eq, if◌then◌else◌, select-append, select-select_comm, Bool-cases, inl, inr,
  All, All-select, All-append, All-select-select, beq_refl, eq_of_beq, ltb,
}
use multi_agent_aidlc.Domain.{ArtifactRecord}
use multi_agent_aidlc.Storage.Snapshots.{snapshot_kinds}
use multi_agent_aidlc.Storage.Snapshots.Order.{depth, invalidated_kinds-depth, snapshot_kinds-depth}
use multi_agent_aidlc.Storage.Database.State.{Db}
use multi_agent_aidlc.Storage.Database.Index.{insert_artifact, kept_rows, replaced}
use multi_agent_aidlc.Storage.Database.Index.Slots.{insert_artifact-Inserted}

abbrev pub NotLater : ArtifactRecord → ArtifactRecord → Type 0
NotLater x y = depth x.metadata.kind ≤ depth y.metadata.kind

-- No row stands before one of an earlier place in the pipeline.
abbrev pub InOrder : List ArtifactRecord → Type 0
InOrder [] = Unit
InOrder (x ∷ xs) = All (NotLater x) xs × InOrder xs

InOrder-select :
    (p : ArtifactRecord → Bool) (xs : List ArtifactRecord) → InOrder xs → InOrder (select p xs)
InOrder-select p [] h = tt
InOrder-select p (x ∷ xs) h =
    step (p x) (All-select (NotLater x) p xs h.0) (InOrder-select p xs h.1)
  where
    step :
        (b : Bool)
        → All (NotLater x) (select p xs)
        → InOrder (select p xs)
        → InOrder (if b then x ∷ select p xs else select p xs)
    step true below rest = (below, rest)
    step false below rest = rest

InOrder-append :
    (xs : List ArtifactRecord) (a : ArtifactRecord)
    → InOrder xs
    → All (λ x. NotLater x a) xs
    → InOrder (xs ++ a ∷ [])
InOrder-append [] a h last = (tt, tt)
InOrder-append (x ∷ xs) a h last =
    (All-append (NotLater x) xs (a ∷ []) h.0 (last.0, tt), InOrder-append xs a h.1 last.1)

abbrev pub is_current_in : String → ArtifactRecord → Bool
is_current_in run_id row = row.metadata.current_snapshot && row.metadata.workflow_run_id == run_id

-- The current snapshots of the run, in the order of the index.
abbrev pub snapshots : String → Db → List ArtifactRecord
snapshots run_id db = select (is_current_in run_id) db.artifacts

abbrev pub IsPipelined : String → Db → Type 0
IsPipelined run_id db = InOrder (snapshots run_id db)

le_of_tests : (m n : ℕ) (b : Bool) → ltb 0 m ≡ true → b ≡ (ltb 0 m && ltb m n) → b ≡ false → n ≤ m
le_of_tests m n b placed e no_b = ground arith

first_part : (a b : Bool) → (a && b) ≡ true → a ≡ true
first_part a b h = ground arith

second_part : (a b : Bool) → (a && b) ≡ true → b ≡ true
second_part a b h = ground arith

not_invalidated :
    (same slot current stale : Bool)
    → same ≡ true
    → current ≡ true
    → not (same && (slot || (current && stale))) ≡ true
    → stale ≡ false
not_invalidated same slot current stale hs hc h = ground arith

-- A snapshot that a new one of the same run does not replace has no later place.
kept-NotLater :
    (a row : ArtifactRecord) (run_id : String)
    → snapshot_kinds a.metadata.kind ≡ true
    → is_current_in run_id a ≡ true
    → is_current_in run_id row ≡ true
    → not (replaced a.metadata row) ≡ true
    → NotLater row a
kept-NotLater a row run_id known ha hr kept =
    let run_a = eq_of_beq a.metadata.workflow_run_id run_id (second_part _ _ ha) in
    let run_r = eq_of_beq row.metadata.workflow_run_id run_id (second_part _ _ hr) in
    let same : (row.metadata.workflow_run_id == a.metadata.workflow_run_id) ≡ true =
      rw (run_a, run_r) (beq_refl run_id) in
    let fresh = not_invalidated _ _ row.metadata.current_snapshot _ same (first_part _ _ hr) kept in
    le_of_tests (depth a.metadata.kind) (depth row.metadata.kind) _
      (sym (snapshot_kinds-depth a.metadata.kind) ∙ known)
      (invalidated_kinds-depth a.metadata.kind row.metadata.kind) fresh

kept_InOrder :
    (b : Bool) (p q : ArtifactRecord → Bool) (rows : List ArtifactRecord)
    → InOrder (select p rows)
    → InOrder (select p (if b then select q rows else rows))
kept_InOrder true p q rows h = rw (select-select_comm p q rows) (InOrder-select q (select p rows) h)
kept_InOrder false p q rows h = h

kept_NotLater :
    (b : Bool) (p q : ArtifactRecord → Bool) (a : ArtifactRecord) (rows : List ArtifactRecord)
    → b ≡ true
    → ((x : ArtifactRecord) → p x ≡ true → q x ≡ true → NotLater x a)
    → All (λ x. NotLater x a) (select p (if b then select q rows else rows))
kept_NotLater true p q a rows e f = All-select-select (λ x. NotLater x a) p q rows f
kept_NotLater false p q a rows e f = cc

-- If the current snapshots of a run stand in pipeline order, each one no earlier in the pipeline
-- than those before it, they still do after an insert. The kind of a new snapshot is one of the
-- snapshot kinds.
pub insert_artifact-IsPipelined :
    (a : ArtifactRecord) (run_id : String) (db : Db) {db' : Db}
    → (a.metadata.current_snapshot ≡ true → snapshot_kinds a.metadata.kind ≡ true)
    → insert_artifact a db ≡ ok db'
    → IsPipelined run_id db
    → IsPipelined run_id db'
insert_artifact-IsPipelined a run_id db known h ordered =
    let current = is_current_in run_id in
    let kept = kept_rows a.metadata db.artifacts in
    let keeps = λ (row : ArtifactRecord). not (replaced a.metadata row) in
    let earlier = kept_InOrder a.metadata.current_snapshot current keeps db.artifacts ordered in
    rw ((insert_artifact-Inserted a db h).rows, select-append current kept (a ∷ []))
      (elim (Bool-cases (current a)) [
        | inl here ↦
            let snapshot = first_part a.metadata.current_snapshot _ here in
            rw here (
              InOrder-append (select current kept) a earlier (
                kept_NotLater a.metadata.current_snapshot current keeps a db.artifacts snapshot
                  (λ x. kept-NotLater a x run_id (known snapshot) here)))
        | inr away ↦ rw away (rw (append-nil (select current kept)) earlier)
      ])
