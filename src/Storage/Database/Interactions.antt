-- ===== src/Storage/Database/Interactions.antt =====
-- The `human_interactions` table: `save_interaction`, `list_interactions` and `accept_action`.
pub mod Answers
pub mod Finality
use multi_agent_aidlc.Common.{
  ℕ, String, Bool, true, false, not, ◌&&◌, ◌||◌, Option, none, some, List, [], ◌∷◌, ◌++◌, Error,
  Result, ok, err, ◌>>=◌, ◌>>◌, guard, or_raise, value_error, integrity_error, any, find, select,
  update_where, if◌then◌else◌, ◌==◌, string_eq, nat_eq,
}
use multi_agent_aidlc.Domain.{
  RunStatus, PromptKind, Decision, clarification, approval, evaluation_decision, submit, approve,
  reject, accept, repair, HumanAction, HumanResponse, HumanInteraction, ArtifactRecord, same_action,
  run_status_eq, decision_eq, RunStatus-discrete, Decision-discrete,
}
use multi_agent_aidlc.Storage.Database.State.{Db, RunRow, has_run}
use multi_agent_aidlc.Storage.Database.Index.{insert_artifact}

unfoldable pub save_interaction : HumanInteraction → Db → Result Db
save_interaction interaction db =
    if any (λ i. i.surface_id == interaction.surface_id) db.human_interactions
      || not (has_run interaction.run_id db)
    then err integrity_error
    else ok (record db { human_interactions = db.human_interactions ++ interaction ∷ [] })

unfoldable pub list_interactions : String → Db → List HumanInteraction
list_interactions run_id db = select (λ i. i.run_id == run_id) db.human_interactions

-- The decisions that a prompt of the kind allows.
unfoldable pub allowed : PromptKind → Decision → Bool
allowed clarification submit = true
allowed approval approve = true
allowed approval reject = true
allowed evaluation_decision accept = true
allowed evaluation_decision repair = true
allowed _ _ = false

abbrev pub is_waiting : Option RunRow → Bool
unfolding RunStatus-discrete
is_waiting none = false
is_waiting (some row) = row.status == RunStatus.input_required

-- `decision == "submit" and not answer`
abbrev pub empty_submission : HumanAction → Bool
unfolding Decision-discrete
empty_submission action = action.decision == submit && action.answer == ""

-- The interaction with the response that the action gives.
abbrev pub answered : (now : ℕ) → HumanAction → HumanInteraction → HumanInteraction
answered now action interaction = record interaction { response = some response }
  where
    response : HumanResponse
    response = record {
      action = action;
      actor = "local-learner";
      answered_at = now;
      decision = action.decision;
      answer = action.answer;
      artifact_id = interaction.artifact_id;
      artifact_sha256 = interaction.artifact_sha256;
      action_id = action.action_id;
    }

-- The checks of a first answer, in the order of the code.
unfoldable pub check_action : HumanAction → HumanInteraction → Option RunRow → Result (Unit {0})
unfolding allowed
check_action action interaction run = do
  guard (is_waiting run) (value_error "Run is not waiting for human input")
  guard
      (action.version == interaction.version
        && action.artifact_sha256 == interaction.artifact_sha256)
      (value_error "Stale artifact or surface version")
  guard (allowed interaction.prompt.kind action.decision && not (empty_submission action))
      (value_error "Invalid decision or empty clarification answer")

-- A repeated answer: the same action again, or a conflict.
abbrev pub repeated : HumanAction → HumanInteraction → HumanResponse → Result HumanInteraction
repeated action interaction response =
    if same_action response.action action
    then ok interaction
    else err (value_error "Surface already answered; conflicting or stale action")

-- The artifact's row and the answered interaction, in one commit.
abbrev pub commit_answer : HumanInteraction → ArtifactRecord → Db → Result Db
commit_answer interaction artifact db = do
  db' ← insert_artifact artifact db
  ok (record db' {
    human_interactions =
        update_where (λ i. i.surface_id == interaction.surface_id) (λ _. interaction)
          db'.human_interactions;
  })

-- `publish` writes the response's artifact; what it did to its state stays done if a later step
-- fails, while the database is only changed by the commit.
module _ {S : Type 0} (publish : HumanInteraction → S → Result ArtifactRecord × S) where
  abbrev pub Reply : Type 0
  Reply = Result (HumanInteraction × Bool × Db) × S

  unfoldable pub finish_answer : HumanInteraction → Db → Result ArtifactRecord × S → Reply
  finish_answer interaction db (err e, s) = (err e, s)
  finish_answer interaction db (ok artifact, s) =
      ((do db' ← commit_answer interaction artifact db; ok (interaction, true, db')), s)

  unfoldable pub first_answer : (now : ℕ) → String → HumanAction → HumanInteraction → Db → S → Reply
  unfolding check_action finish_answer
  first_answer now run_id action interaction db s =
      elim (check_action action interaction (find (λ r. r.run_id == run_id) db.runs)) [
        | err e ↦ (err e, s)
        | ok _ ↦
            finish_answer (answered now action interaction) db
              (publish (answered now action interaction) s)
      ]

  -- `if interaction.response:`
  unfoldable pub answer_after :
      (now : ℕ) → String → HumanAction → HumanInteraction → Option HumanResponse → Db → S → Reply
  unfolding first_answer
  answer_after now run_id action interaction none db s =
      first_answer now run_id action interaction db s
  answer_after now run_id action interaction (some response) db s =
      ((do i ← repeated action interaction response; ok (i, false, db)), s)

  unfoldable pub answer_to :
      (now : ℕ) → String → HumanAction → Option HumanInteraction → Db → S → Reply
  unfolding answer_after
  answer_to now run_id action none db s = (err (value_error "Unknown surface"), s)
  answer_to now run_id action (some interaction) db s =
      answer_after now run_id action interaction interaction.response db s

  unfoldable pub accept_action : (now : ℕ) → String → HumanAction → Db → S → Reply
  unfolding answer_to
  accept_action now run_id action db s =
      answer_to now run_id action
        (find (λ i. i.surface_id == action.surface_id && i.run_id == run_id) db.human_interactions)
        db s
