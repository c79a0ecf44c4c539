-- ===== src/Orchestration/Hub/Reuse.antt =====
-- What an output must satisfy to be used again.
use mathlib.Core.Path.{subst}
use mathlib.Core.List.{Memᴰ}
use multi_agent_aidlc.Common.{
  ℕ, String, ◌≡◌, ◌⊎◌, refl, sym, any, ◌&&◌, ◌||◌, str, nat_eq, is_str-eq, ok-injective, truthy,
  num_or_zero, ap, arith, get, is_str, eq_of_beq, Bool, true, false, Option, none, some, List, [],
  ◌∷◌, Json, ok, >>=-eq-ok, find_last, test_of_find_last, All, if◌then◌else◌, ◌==◌, string_eq,
  Bool-cases, inl, inr, find,
}
use multi_agent_aidlc.Domain.{
  ArtifactRecord, artifact_kind_eq, Hashing, WorkflowRun, StageRecord, RunStatus, run_status_eq,
  EventRecord, StageName, stage_name_eq,
}
use multi_agent_aidlc.Agents.{AgentSpec}
use multi_agent_aidlc.Storage.Artifacts.{Store, read_content}
use multi_agent_aidlc.Storage.Database.State.{Db}
use multi_agent_aidlc.Storage.Database.Index.{list_artifacts}
use multi_agent_aidlc.Storage.Database.Events.{events_after}
use multi_agent_aidlc.Orchestration.Hub.{
  same_texts, is_cached, is_saved, saves, is_completed, verified, cached_output, put_output,
  collect, saved_outputs, unless_unmerged, is_unmerged,
}

-- The artifact can be read back whole.
abbrev pub IsIntact : Hashing → Store → ArtifactRecord → Type 0
IsIntact hashing store artifact =
    (content : Json) × (read_content hashing artifact store ≡ ok content)

same_texts-eq : (xs ys : List String) → same_texts xs ys ≡ true → xs ≡ ys
same_texts-eq [] [] h = refl
same_texts-eq [] (y ∷ ys) h = cc h
same_texts-eq (x ∷ xs) [] h = cc h
same_texts-eq (x ∷ xs) (y ∷ ys) h =
    cc (eq_of_beq x y (ground arith), same_texts-eq xs ys (ground arith))

-- The artifact is the output that the agent would give on these inputs.
pub record IsReusable (spec : AgentSpec) (cache_key : String) (input_ids : List String)
    (artifact : ArtifactRecord) : Type 0 where
  pub agent : artifact.metadata.producing_agent ≡ spec.name
  pub kind : artifact.metadata.kind ≡ spec.artifact_kind
  pub key : is_str (get artifact.metadata.execution "cache_key") cache_key ≡ true
  pub contract :
      is_str
        (get artifact.metadata.execution "context_contract_version")
        spec.context_contract_version
      ≡ true
  pub inputs : artifact.metadata.parent_artifact_ids ≡ input_ids

is_cached-IsReusable :
    (spec : AgentSpec) (cache_key : String) (input_ids : List String) (artifact : ArtifactRecord)
    → is_cached spec cache_key input_ids artifact ≡ true
    → IsReusable spec cache_key input_ids artifact
unfolding is_cached
is_cached-IsReusable spec cache_key input_ids artifact h = record {
  agent = eq_of_beq artifact.metadata.producing_agent spec.name (ground arith);
  kind = eq_of_beq artifact.metadata.kind spec.artifact_kind (ground arith);
  key = ground arith;
  contract = ground arith;
  inputs = same_texts-eq artifact.metadata.parent_artifact_ids input_ids (ground arith);
}

-- A completed agent published the artifact in the repair attempt.
pub record IsFinish (attempt : ℕ) (artifact_id : String) (event : EventRecord) : Type 0 where
  pub is_creation : event.event_type ≡ "artifact.created"
  pub by_completed : truthy (get event.payload "agent_completed") ≡ true
  pub in_attempt : num_or_zero (get event.payload "repair_attempt") ≡ attempt
  pub of_artifact : get event.payload "artifact_id" ≡ some (str artifact_id)

-- The stage of the run is recorded as completed.
pub WasCompleted : WorkflowRun → StageName → Type 0
WasCompleted run stage =
    (item : StageRecord) × (find (λ (i : StageRecord). i.name == stage) run.stages ≡ some item)
    × (item.status ≡ RunStatus.completed)

-- The artifact is an output of the stage that needs no second run.
pub record IsSaved (run : WorkflowRun) (stage : StageName) (attempt : ℕ) (specs : List AgentSpec)
    (db : Db) (artifact : ArtifactRecord) : Type 0 where
  pub listed : Memᴰ artifact (list_artifacts run.run_id db)
  pub of_stage : artifact.metadata.stage_id ≡ stage
  pub spec : AgentSpec
  pub staffed : Memᴰ spec specs
  pub by_agent : artifact.metadata.producing_agent ≡ spec.name
  pub of_kind : artifact.metadata.kind ≡ spec.artifact_kind
  pub finished :
      WasCompleted run stage
      ⊎ ((event : EventRecord) × Memᴰ event (events_after run.run_id 0 db)
          × IsFinish attempt artifact.metadata.artifact_id event)

module _ {ℓ} {A : Type ℓ} where
  any-Mem : (p : A → Bool) (xs : List A) → any p xs ≡ true → (x : A) × Memᴰ x xs × (p x ≡ true)
  any-Mem p [] h = cc h
  any-Mem p (x ∷ xs) h = elim (Bool-cases (p x)) [
    | inl hit ↦ (x, Memᴰ.head refl, hit)
    | inr miss ↦ let (y, m, there) = any-Mem p xs (rw miss at h) in (y, Memᴰ.tail m, there)
  ]

saves-IsFinish :
    (attempt : ℕ) (run_id : String) (db : Db) (artifact_id : String)
    → saves attempt run_id db artifact_id ≡ true
    → (event : EventRecord) × Memᴰ event (events_after run_id 0 db)
      × IsFinish attempt artifact_id event
unfolding saves
saves-IsFinish attempt run_id db artifact_id h =
    let (event, among, meets) = any-Mem _ (events_after run_id 0 db) h in
    (
      event,
      among,
      record {
        is_creation = eq_of_beq event.event_type "artifact.created" (ground (arith, meets));
        by_completed = ground (arith, meets);
        in_attempt =
            eq_of_beq (num_or_zero (get event.payload "repair_attempt")) attempt
              (ground (arith, meets));
        of_artifact =
            is_str-eq (get event.payload "artifact_id") artifact_id (ground (arith, meets));
      },
    )

was_completed :
    (run : WorkflowRun) (stage : StageName) (found : Option StageRecord)
    → find (λ (i : StageRecord). i.name == stage) run.stages ≡ found
    → is_completed stage found ≡ ok true
    → WasCompleted run stage
unfolding is_completed WasCompleted
was_completed run stage none e h = cc h
was_completed run stage (some item) e h =
    (item, e, eq_of_beq item.status RunStatus.completed (ok-injective h))

is_saved-IsSaved :
    (run : WorkflowRun) (stage : StageName) (attempt : ℕ) (specs : List AgentSpec) (db : Db)
    (artifact : ArtifactRecord) (completed : Bool)
    → is_completed stage (find (λ (i : StageRecord). i.name == stage) run.stages) ≡ ok completed
    → Memᴰ artifact (list_artifacts run.run_id db)
    → is_saved completed stage attempt run.run_id specs db artifact ≡ true
    → IsSaved run stage attempt specs db artifact
unfolding is_saved
is_saved-IsSaved run stage attempt specs db artifact completed e among h =
    let staffed : any
          (λ (spec : AgentSpec).
            spec.name == artifact.metadata.producing_agent
            && spec.artifact_kind == artifact.metadata.kind)
          specs
        ≡ true =
      ground (arith, h) in
    let (spec, of_specs, meets) = any-Mem _ specs staffed in
    record {
      listed = among;
      of_stage = eq_of_beq artifact.metadata.stage_id stage (ground (arith, h));
      spec = spec;
      staffed = of_specs;
      by_agent =
          sym (eq_of_beq spec.name artifact.metadata.producing_agent (ground (arith, meets)));
      of_kind = sym (eq_of_beq spec.artifact_kind artifact.metadata.kind (ground (arith, meets)));
      finished = finish completed e (ground (arith, h));
    }
  where
    finish :
        (completed : Bool)
        → is_completed stage (find (λ (i : StageRecord). i.name == stage) run.stages) ≡ ok completed
        → (completed || saves attempt run.run_id db artifact.metadata.artifact_id) ≡ true
        → WasCompleted run stage
          ⊎ ((event : EventRecord) × Memᴰ event (events_after run.run_id 0 db)
              × IsFinish attempt artifact.metadata.artifact_id event)
    finish true e' k = inl (was_completed run stage _ refl e')
    finish false e' k = inr (saves-IsFinish attempt run.run_id db artifact.metadata.artifact_id k)

module _ (hashing : Hashing) where
  verified-ok :
      (o : Option ArtifactRecord) (store : Store) {artifact : ArtifactRecord}
      → verified hashing o store ≡ ok (some artifact)
      → (o ≡ some artifact) × IsIntact hashing store artifact
  verified-ok none store h = cc h
  verified-ok (some found) store {artifact} h =
      let (content, e, h1) = >>=-eq-ok (read_content hashing found store) _ h in
      let same : found ≡ artifact = cc h1 in
      (ap some same, subst (IsIntact hashing store) same (content, e))

  -- An output that the cache returns was made by this agent, is of its kind, has the same cache key
  -- and contract version and exactly the same input artifacts, and can be read back whole.
  pub cached_output-IsReusable :
      (run_id : String) (spec : AgentSpec) (cache_key : String) (input_ids : List String) (db : Db)
      (store : Store) {artifact : ArtifactRecord}
      → cached_output hashing run_id spec cache_key input_ids db store ≡ ok (some artifact)
      → IsReusable spec cache_key input_ids artifact × IsIntact hashing store artifact
  unfolding cached_output
  cached_output-IsReusable run_id spec cache_key input_ids db store {artifact} h =
      let (found, intact) =
        verified-ok (find_last (is_cached spec cache_key input_ids) (list_artifacts run_id db))
          store h in
      (
        is_cached-IsReusable spec cache_key input_ids artifact
            (test_of_find_last _ (list_artifacts run_id db) artifact found),
        intact,
      )

  module _ (Q : ArtifactRecord → Type 0) where
    All-put_output :
        (artifact : ArtifactRecord) (found : List ArtifactRecord)
        → Q artifact
        → All Q found
        → All Q (put_output artifact found)
    All-put_output artifact [] h hs = (h, tt)
    All-put_output artifact (other ∷ others) h hs =
        step (All-put_output artifact others h hs.1)
          (other.metadata.producing_agent == artifact.metadata.producing_agent)
      where
        step :
            All Q (put_output artifact others)
            → (b : Bool)
            → All Q (if b then artifact ∷ others else other ∷ put_output artifact others)
        step rest true = (h, hs.1)
        step rest false = (hs.0, rest)

    All-collect :
        (p : ArtifactRecord → Bool) (artifacts : List ArtifactRecord) (store : Store)
        (found : List ArtifactRecord) {outputs : List ArtifactRecord}
        → ((artifact : ArtifactRecord)
            → Memᴰ artifact artifacts
            → p artifact ≡ true
            → IsIntact hashing store artifact
            → Q artifact)
        → All Q found
        → collect hashing p artifacts store found ≡ ok outputs
        → All Q outputs
    unfolding collect
    All-collect p [] store found {outputs} meets hs h =
        let same : found ≡ outputs = cc h in subst (All Q) same hs
    All-collect p (artifact ∷ rest) store found meets hs h = elim (Bool-cases (p artifact)) [
      | inl kept ↦
          let (content, e, h1) = >>=-eq-ok (read_content hashing artifact store) _ (rw kept at h) in
          All-collect p rest store (put_output artifact found) (λ a m. meets a (Memᴰ.tail m))
            (All-put_output artifact found (meets artifact (Memᴰ.head refl) kept (content, e)) hs)
            h1
      | inr skipped ↦
          All-collect p rest store found (λ a m. meets a (Memᴰ.tail m)) hs (rw skipped at h)
    ]

    All-unless_unmerged :
        (b : Bool) (found : List ArtifactRecord)
        → All Q found
        → All Q (unless_unmerged hashing b found)
    All-unless_unmerged true found hs = tt
    All-unless_unmerged false found hs = hs

  -- The outputs that a retry reuses belong to the run and to the stage, and are the outputs that one
  -- of the given agents is there for; an event of the run names each as the output of a completed
  -- agent in this repair attempt, unless the stage was completed; and each can be read back whole.
  pub saved_outputs-IsSaved :
      (run : WorkflowRun) (stage : StageName) (attempt : ℕ) (specs : List AgentSpec) (db : Db)
      (store : Store) {outputs : List ArtifactRecord}
      → saved_outputs hashing run stage attempt specs db store ≡ ok outputs
      → All
          (λ artifact.
            IsSaved run stage attempt specs db artifact × IsIntact hashing store artifact)
          outputs
  unfolding saved_outputs
  saved_outputs-IsSaved run stage attempt specs db store {outputs} h =
      let (completed, e, h1) =
        >>=-eq-ok (is_completed stage (find (λ item. item.name == stage) run.stages)) _ h in
      let (found, e', h2) =
        >>=-eq-ok
          (collect hashing (is_saved completed stage attempt run.run_id specs db)
            (list_artifacts run.run_id db) store [])
          _ h1 in
      let same : unless_unmerged hashing (is_unmerged hashing stage run.run_id db) found ≡ outputs =
        cc h2 in
      let Saved = λ (artifact : ArtifactRecord).
        IsSaved run stage attempt specs db artifact × IsIntact hashing store artifact in
      subst (All Saved) same (
        All-unless_unmerged Saved (is_unmerged hashing stage run.run_id db) found (
          All-collect Saved (is_saved completed stage attempt run.run_id specs db)
            (list_artifacts run.run_id db) store []
            (λ artifact among kept intact.
              (is_saved-IsSaved run stage attempt specs db artifact completed e among kept, intact))
            tt e'))
