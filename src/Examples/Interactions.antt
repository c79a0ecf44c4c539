-- ===== src/Examples/Interactions.antt =====
-- The theorems on human answers at concrete inputs.
use multi_agent_aidlc.Common.{
  ℕ, suc, ◌≡◌, refl, true, false, some, [], ◌∷◌, Result, ok, err, value_error,
}
use multi_agent_aidlc.Domain.{
  ArtifactKind, StageName, HumanInteraction, ArtifactRecord, same_action, RunStatus-discrete,
  Decision-discrete, ArtifactKind-discrete,
}
use multi_agent_aidlc.Storage.Snapshots.{invalidated_kinds}
use multi_agent_aidlc.Storage.Database.State.{Db}
use multi_agent_aidlc.Storage.Database.Index.{insert_artifact}
use multi_agent_aidlc.Storage.Database.Interactions.{accept_action, answered}
use multi_agent_aidlc.Storage.Database.Interactions.Answers.{
  find_surface, Accepted, accept_action-Accepted, accept_action-repeat, accept_action-conflict,
}
use multi_agent_aidlc.Storage.Database.Interactions.Finality.{IsKeyed, accept_action-final}
use multi_agent_aidlc.Examples.Data.{artifact, question, approve, reject, waiting_db}

-- The artifact that a response is published as, whose number is the state.
abbrev response_artifact : ArtifactRecord
response_artifact = artifact "art_9" ArtifactKind.human_response StageName.intake "local-learner"

abbrev publish : HumanInteraction → ℕ → Result ArtifactRecord × ℕ
publish interaction n = (ok response_artifact, suc n)

abbrev old_question : HumanInteraction
old_question =
    answered 2 (record approve { surface_id = "surface_0" })
      (record question { surface_id = "surface_0" })

abbrev asking_db : Db
asking_db = record waiting_db { human_interactions = old_question ∷ question ∷ [] }

abbrev answer : HumanInteraction
answer = answered 5 approve question

abbrev answered_db : Db
answered_db = record waiting_db {
  human_interactions = old_question ∷ answer ∷ [];
  artifacts = response_artifact ∷ [];
}

first_time :
    accept_action publish 5 "run_1" approve asking_db 0 ≡ (ok (answer, true, answered_db), 1)
unfolding accept_action insert_artifact invalidated_kinds RunStatus-discrete Decision-discrete
    ArtifactKind-discrete
first_time = refl

accept_action-Accepted_example : Accepted publish 5 "run_1" approve asking_db 0 answer answered_db 1
accept_action-Accepted_example =
    accept_action-Accepted publish 5 "run_1" approve asking_db 0 first_time

accept_action-repeat_example :
    accept_action publish 8 "run_1" approve answered_db 4 ≡ (ok (answer, false, answered_db), 4)
accept_action-repeat_example =
    accept_action-repeat publish 5 8 "run_1" approve asking_db 0 4 first_time

reject_differs : same_action approve reject ≡ false
unfolding Decision-discrete
reject_differs = refl

accept_action-conflict_example :
    accept_action publish 8 "run_1" reject answered_db 4
    ≡ (err (value_error "Surface already answered; conflicting or stale action"), 4)
accept_action-conflict_example =
    accept_action-conflict publish 5 8 "run_1" approve reject asking_db 0 4 first_time refl
      reject_differs

asking_db-IsKeyed : IsKeyed asking_db
asking_db-IsKeyed = (refl, (refl, tt))

accept_action-final_example : find_surface "run_1" "surface_0" answered_db ≡ some old_question
accept_action-final_example =
    accept_action-final publish 5 "run_1" approve asking_db 0 "run_1" "surface_0" asking_db-IsKeyed
      first_time refl refl
