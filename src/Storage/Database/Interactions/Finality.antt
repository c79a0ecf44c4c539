-- ===== src/Storage/Database/Interactions/Finality.antt =====
-- `accept_action` never changes an answer that another action gave.
use multi_agent_aidlc.Common.{
  ℕ, String, ◌≡◌, ◌∙◌, sym, ap, refl, Bool, true, false, ◌&&◌, some, Result, ok, find, All,
  All-find, ◌==◌, string_eq, eq_of_beq, beq_refl, beq_comm, Bool-cases, inl, inr,
  find-update_where_apart, test_of_find,
}
use multi_agent_aidlc.Domain.{HumanAction, HumanInteraction, HumanResponse, ArtifactRecord}
use multi_agent_aidlc.Storage.Database.State.{Db}
use multi_agent_aidlc.Storage.Database.Interactions.{accept_action}
use multi_agent_aidlc.Storage.Database.Interactions.Answers.{
  find_surface, first_part, accept_action_cases, commit_answer-interactions, Accepted,
}

-- The primary key: a surface names one row.
abbrev pub IsKeyed : Db → Type 0
IsKeyed db =
    All (λ i. find (λ k. k.surface_id == i.surface_id) db.human_interactions ≡ some i)
      db.human_interactions

-- The row that a search by surface and run finds is the row of its surface.
find_surface-keyed :
    (run_id surface : String) (db : Db) {i : HumanInteraction}
    → IsKeyed db
    → find_surface run_id surface db ≡ some i
    → find (λ k. k.surface_id == surface) db.human_interactions ≡ some i
find_surface-keyed run_id surface db {i} keyed found =
    let here = test_of_find _ db.human_interactions i found in
    let same = eq_of_beq i.surface_id surface (first_part _ _ here) in
    ap (λ x. find (λ k. k.surface_id == x) db.human_interactions) (sym same)
    ∙ All-find _ _ db.human_interactions keyed found

-- The search passes by the rows of another surface.
other_surface :
    (run_id a b c : String) (k : HumanInteraction)
    → a ≡ b
    → (c == b) ≡ false
    → (k.surface_id == a) ≡ true
    → (k.surface_id == c && k.run_id == run_id) ≡ false
other_surface run_id a b c k same apart h =
    let at : k.surface_id ≡ b = eq_of_beq k.surface_id a h ∙ same in
    rw (at, beq_comm b c, apart) refl

module _ {S : Type 0} (publish : HumanInteraction → S → Result ArtifactRecord × S) where
  Accepted-keeps :
      (now : ℕ) (run_id : String) (action : HumanAction) (db : Db) (s : S) {j : HumanInteraction}
      {db' : Db} {s' : S} (owner surface : String) {i : HumanInteraction} {r : HumanResponse}
      → IsKeyed db
      → Accepted publish now run_id action db s j db' s'
      → find_surface owner surface db ≡ some i
      → i.response ≡ some r
      → find_surface owner surface db' ≡ some i
  Accepted-keeps now run_id action db s {j} {db'} owner surface {i} keyed a found answer =
      let before = find_surface-keyed run_id action.surface_id db keyed a.found in
      let surface_j : j.surface_id ≡ action.surface_id =
        ap (λ (k : HumanInteraction). k.surface_id) a.response
        ∙ eq_of_beq a.before.surface_id action.surface_id
            (first_part _ _ (test_of_find _ db.human_interactions a.before a.found)) in
      elim (Bool-cases (surface == action.surface_id)) [
        | inl same ↦
            let here = eq_of_beq surface action.surface_id same in
            let found' = find_surface-keyed owner surface db keyed found in
            let one : some i ≡ some a.before =
              sym found'
              ∙ ap (λ x. find (λ k. k.surface_id == x) db.human_interactions) here
              ∙ before in
            let one' : i ≡ a.before = cc one in
            absurd (cc (answer, ap (λ (k : HumanInteraction). k.response) one', a.unanswered))
        | inr apart ↦
            ap (find (λ k. k.surface_id == surface && k.run_id == owner))
              (commit_answer-interactions publish j a.artifact db a.committed)
            ∙ find-update_where_apart _ (λ k. k.surface_id == j.surface_id) j db.human_interactions
                (λ k. other_surface owner j.surface_id action.surface_id surface k surface_j apart)
                (other_surface owner j.surface_id action.surface_id surface j surface_j apart
                  (beq_refl j.surface_id))
            ∙ found
      ]

  -- In a database whose surfaces are unique, an accepted action, whether new or repeated, leaves
  -- every interaction that was answered before as it was: no answer is changed or lost.
  pub accept_action-final :
      (now : ℕ) (run_id : String) (action : HumanAction) (db : Db) (s : S) {j : HumanInteraction}
      {c : Bool} {db' : Db} {s' : S} (owner surface : String) {i : HumanInteraction}
      {r : HumanResponse}
      → IsKeyed db
      → accept_action publish now run_id action db s ≡ (ok (j, c, db'), s')
      → find_surface owner surface db ≡ some i
      → i.response ≡ some r
      → find_surface owner surface db' ≡ some i
  accept_action-final now run_id action db s owner surface keyed h found answer =
      elim (accept_action_cases publish now run_id action db s h) [
        | inl (a, _) ↦ Accepted-keeps now run_id action db s owner surface keyed a found answer
        | inr (repetition, _) ↦ ap (find_surface owner surface) repetition.same_db ∙ found
      ]
