-- ===== src/Storage/Database/Interactions/Answers.antt =====
-- An action is accepted only for a waiting prompt that allows it, and its repetition is harmless.
use multi_agent_aidlc.Common.{
  ℕ, String, ◌≡◌, ◌⊎◌, ◌∙◌, sym, ap, refl, Bool, true, false, ◌&&◌, Option, none, some, Result, ok,
  err, arith, find, update_where, ◌==◌, string_eq, nat_eq, beq_refl, eq_of_beq, Bool-cases, inl,
  inr, value_error, find-update_where_const, test_of_find, Result-cases, Option-cases,
}
use multi_agent_aidlc.Domain.{
  HumanAction, HumanInteraction, HumanResponse, ArtifactRecord, same_action, decision_eq,
}
use multi_agent_aidlc.Storage.Database.State.{Db, RunRow}
use multi_agent_aidlc.Storage.Database.Index.{insert_artifact}
use multi_agent_aidlc.Storage.Database.Interactions.{
  allowed, is_waiting, empty_submission, answered, check_action, commit_answer, finish_answer,
  first_answer, answer_to, answer_after, accept_action,
}

abbrev pub find_surface : String → String → Db → Option HumanInteraction
find_surface run_id surface_id db =
    find (λ i. i.surface_id == surface_id && i.run_id == run_id) db.human_interactions

abbrev pub run_row : String → Db → Option RunRow
run_row run_id db = find (λ r. r.run_id == run_id) db.runs

pub first_part : (a b : Bool) → (a && b) ≡ true → a ≡ true
first_part a b h = ground arith

-- What the code asks of a first answer.
pub record IsValid (action : HumanAction) (i : HumanInteraction) (run : Option RunRow)
    : Type 0 where
  pub waiting : is_waiting run ≡ true
  pub version : action.version ≡ i.version
  pub artifact : action.artifact_sha256 ≡ i.artifact_sha256
  pub decision : allowed i.prompt.kind action.decision ≡ true
  pub not_empty : empty_submission action ≡ false

check_action-IsValid :
    (action : HumanAction) (i : HumanInteraction) (run : Option RunRow) (u : Unit)
    → check_action action i run ≡ ok u
    → IsValid action i run
unfolding check_action
check_action-IsValid action i run u h = record {
  waiting = ground arith;
  version = eq_of_beq action.version i.version (ground arith);
  artifact = eq_of_beq action.artifact_sha256 i.artifact_sha256 (ground arith);
  decision = ground arith;
  not_empty = ground arith;
}

module _ {S : Type 0} (publish : HumanInteraction → S → Result ArtifactRecord × S) where
  -- What an accepted first answer did.
  pub record Accepted (now : ℕ) (run_id : String) (action : HumanAction) (db : Db) (s : S)
      (j : HumanInteraction) (db' : Db) (s' : S) : Type 0 where
    pub before : HumanInteraction
    pub found : find_surface run_id action.surface_id db ≡ some before
    pub unanswered : before.response ≡ none
    pub valid : IsValid action before (run_row run_id db)
    pub response : j ≡ answered now action before
    pub artifact : ArtifactRecord
    pub published : publish j s ≡ (ok artifact, s')
    pub committed : commit_answer j artifact db ≡ ok db'

  finish_answer-ok :
      (i : HumanInteraction) (db : Db) (o : Result ArtifactRecord × S) {j : HumanInteraction}
      {c : Bool} {db' : Db} {s' : S}
      → finish_answer publish i db o ≡ (ok (j, c, db'), s')
      → (artifact : ArtifactRecord) × (o ≡ (ok artifact, s'))
        × (commit_answer i artifact db ≡ ok db')
        × (j ≡ i)
        × (c ≡ true)
  unfolding finish_answer
  finish_answer-ok i db (err e, s) h = cc
  finish_answer-ok i db (ok artifact, s) h = elim (Result-cases (commit_answer i artifact db)) [
    | inl (db'', e) ↦
        (artifact, ground (arith, e), ground (arith, e), ground (arith, e), ground (arith, e))
    | inr (e, p) ↦ ground (arith, p)
  ]

  first_answer-ok :
      (now : ℕ) (run_id : String) (action : HumanAction) (i : HumanInteraction) (db : Db) (s : S)
      {j : HumanInteraction} {c : Bool} {db' : Db} {s' : S}
      → first_answer publish now run_id action i db s ≡ (ok (j, c, db'), s')
      → find_surface run_id action.surface_id db ≡ some i
      → i.response ≡ none
      → Accepted now run_id action db s j db' s' × (c ≡ true)
  unfolding first_answer
  first_answer-ok now run_id action i db s h found unanswered =
      elim (Result-cases (check_action action i (run_row run_id db))) [
        | inl (u, e) ↦
            let (artifact, published, committed, same, created) =
              finish_answer-ok (answered now action i) db (publish (answered now action i) s)
                (rw (e, first_answer) at h) in
            (
              record {
                before = i;
                found = found;
                unanswered = unanswered;
                valid = check_action-IsValid action i (run_row run_id db) u e;
                response = same;
                artifact = artifact;
                published = rw same published;
                committed = rw same committed;
              },
              created,
            )
        | inr (e, p) ↦ cc (rw (p, first_answer) at h)
      ]

  -- What a repeated answer did: nothing.
  pub record Repeated (run_id : String) (action : HumanAction) (db : Db) (s : S)
      (j : HumanInteraction) (db' : Db) (s' : S) : Type 0 where
    pub found : find_surface run_id action.surface_id db ≡ some j
    pub response : HumanResponse
    pub answered_before : j.response ≡ some response
    pub same : same_action response.action action ≡ true
    pub same_db : db' ≡ db
    pub same_state : s' ≡ s

  answer_after-ok :
      (now : ℕ) (run_id : String) (action : HumanAction) (i : HumanInteraction)
      (o : Option HumanResponse) (db : Db) (s : S) {j : HumanInteraction} {c : Bool} {db' : Db}
      {s' : S}
      → answer_after publish now run_id action i o db s ≡ (ok (j, c, db'), s')
      → find_surface run_id action.surface_id db ≡ some i
      → i.response ≡ o
      → (Accepted now run_id action db s j db' s' × (c ≡ true))
        ⊎ (Repeated run_id action db s j db' s' × (c ≡ false))
  unfolding answer_after
  answer_after-ok now run_id action i none db s h found e =
      inl (first_answer-ok now run_id action i db s h found e)
  answer_after-ok now run_id action i (some r) db s {j} h found e =
      elim (Bool-cases (same_action r.action action)) [
        | inl same ↦
            let h' = rw same at h in
            let same_interaction : j ≡ i = cc h' in
            inr (
              record {
                found = found ∙ cc h';
                response = r;
                answered_before = ap (λ (k : HumanInteraction). k.response) same_interaction ∙ e;
                same = same;
                same_db = cc h';
                same_state = cc h';
              },
              cc h',
            )
        | inr other ↦ cc (rw other at h)
      ]

  -- Every accepted action either answers the prompt for the first time or repeats its answer.
  pub accept_action_cases :
      (now : ℕ) (run_id : String) (action : HumanAction) (db : Db) (s : S) {j : HumanInteraction}
      {c : Bool} {db' : Db} {s' : S}
      → accept_action publish now run_id action db s ≡ (ok (j, c, db'), s')
      → (Accepted now run_id action db s j db' s' × (c ≡ true))
        ⊎ (Repeated run_id action db s j db' s' × (c ≡ false))
  unfolding accept_action
  accept_action_cases now run_id action db s h =
      elim (Option-cases (find_surface run_id action.surface_id db)) [
        | inl missing ↦ cc (rw (missing, answer_to) at h)
        | inr (i, found) ↦
            answer_after-ok now run_id action i i.response db s (rw (found, answer_to) at h) found
              refl
      ]

  -- A new answer is accepted only for an unanswered prompt of a run that waits for input, with the
  -- version and artifact hash that the prompt shows and a decision that its kind allows; the
  -- response's artifact is published, and indexed in the commit that stores the answer.
  pub accept_action-Accepted :
      (now : ℕ) (run_id : String) (action : HumanAction) (db : Db) (s : S) {j : HumanInteraction}
      {db' : Db} {s' : S}
      → accept_action publish now run_id action db s ≡ (ok (j, true, db'), s')
      → Accepted now run_id action db s j db' s'
  accept_action-Accepted now run_id action db s h =
      elim (accept_action_cases now run_id action db s h) [
        | inl (accepted, _) ↦ accepted
        | inr (_, e) ↦ cc e
      ]

  pub commit_answer-interactions :
      (i : HumanInteraction) (artifact : ArtifactRecord) (db : Db) {db' : Db}
      → commit_answer i artifact db ≡ ok db'
      → db'.human_interactions
        ≡ update_where (λ k. k.surface_id == i.surface_id) (λ _. i) db.human_interactions
  unfolding insert_artifact
  commit_answer-interactions i artifact db h = ground arith

  find_surface-Accepted :
      (now : ℕ) (run_id : String) (action : HumanAction) (db : Db) (s : S) {j : HumanInteraction}
      {db' : Db} {s' : S}
      → Accepted now run_id action db s j db' s'
      → find_surface run_id action.surface_id db' ≡ some j
  find_surface-Accepted now run_id action db s {j} {db'} a =
      let here = test_of_find _ db.human_interactions a.before a.found in
      let same_surface = eq_of_beq a.before.surface_id action.surface_id (first_part _ _ here) in
      let surface_j : j.surface_id ≡ action.surface_id =
        ap (λ (k : HumanInteraction). k.surface_id) a.response ∙ same_surface in
      let rows = commit_answer-interactions j a.artifact db a.committed in
      rw rows (
        find-update_where_const _ (λ k. k.surface_id == j.surface_id) j db.human_interactions
          (λ k apart. rw (ap (λ x. k.surface_id == x) (sym surface_j) ∙ apart) refl)
          (rw a.response here) a.found)

  same_action_refl : (action : HumanAction) → same_action action action ≡ true
  same_action_refl action = rw (
    beq_refl action.action_id,
    beq_refl action.surface_id,
    beq_refl action.artifact_sha256,
    beq_refl action.version,
    beq_refl action.decision,
    beq_refl action.answer,
  )

  answer_after-same :
      (now : ℕ) (run_id : String) (action : HumanAction) (i : HumanInteraction)
      (o : Option HumanResponse) (r : HumanResponse) (db : Db) (s : S)
      → o ≡ some r
      → same_action r.action action ≡ true
      → answer_after publish now run_id action i o db s ≡ (ok (i, false, db), s)
  unfolding answer_after
  answer_after-same now run_id action i none r db s e same = cc e
  answer_after-same now run_id action i (some r') r db s e same =
      let e' : r' ≡ r = cc e in rw (e', same)

  answer_after-other :
      (now : ℕ) (run_id : String) (action : HumanAction) (i : HumanInteraction)
      (o : Option HumanResponse) (r : HumanResponse) (db : Db) (s : S)
      → o ≡ some r
      → same_action r.action action ≡ false
      → answer_after publish now run_id action i o db s
        ≡ (err (value_error "Surface already answered; conflicting or stale action"), s)
  unfolding answer_after
  answer_after-other now run_id action i none r db s e other = cc e
  answer_after-other now run_id action i (some r') r db s e other =
      let e' : r' ≡ r = cc e in rw (e', other)

  accept_action-found :
      (now : ℕ) (run_id : String) (action : HumanAction) (i : HumanInteraction) (db : Db) (s : S)
      → find_surface run_id action.surface_id db ≡ some i
      → accept_action publish now run_id action db s
        ≡ answer_after publish now run_id action i i.response db s
  unfolding accept_action
  accept_action-found now run_id action i db s found = rw (found, answer_to)

  answer_of :
      (now : ℕ) (run_id : String) (action : HumanAction) (db : Db) (s : S) {j : HumanInteraction}
      {db' : Db} {s' : S} (a : Accepted now run_id action db s j db' s')
      → j.response ≡ (answered now action a.before).response
  answer_of now run_id action db s a = ap (λ (k : HumanInteraction). k.response) a.response

  -- After an answer is accepted, the same action sent again, at any time, is accepted with the same
  -- interaction and changes nothing.
  pub accept_action-repeat :
      (now later : ℕ) (run_id : String) (action : HumanAction) (db : Db) (s t : S)
      {j : HumanInteraction} {db' : Db} {s' : S}
      → accept_action publish now run_id action db s ≡ (ok (j, true, db'), s')
      → accept_action publish later run_id action db' t ≡ (ok (j, false, db'), t)
  accept_action-repeat now later run_id action db s t {j} {db'} h =
      let a = accept_action-Accepted now run_id action db s h in
      accept_action-found later run_id action j db' t
        (find_surface-Accepted now run_id action db s a)
      ∙ answer_after-same later run_id action j j.response _ db' t
          (answer_of now run_id action db s a) (same_action_refl action)

  -- After an answer is accepted, an action on the same surface with any difference is refused, and
  -- changes nothing.
  pub accept_action-conflict :
      (now later : ℕ) (run_id : String) (action other : HumanAction) (db : Db) (s t : S)
      {j : HumanInteraction} {db' : Db} {s' : S}
      → accept_action publish now run_id action db s ≡ (ok (j, true, db'), s')
      → other.surface_id ≡ action.surface_id
      → same_action action other ≡ false
      → accept_action publish later run_id other db' t
        ≡ (err (value_error "Surface already answered; conflicting or stale action"), t)
  accept_action-conflict now later run_id action other db s t {j} {db'} h surface differs =
      let a = accept_action-Accepted now run_id action db s h in
      accept_action-found later run_id other j db' t (
        ap (λ x. find_surface run_id x db') surface
        ∙ find_surface-Accepted now run_id action db s a)
      ∙ answer_after-other later run_id other j j.response _ db' t
          (answer_of now run_id action db s a) differs
