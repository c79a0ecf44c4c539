-- ===== src/Orchestration/Questions/Rounds.antt =====
-- The number of clarification rounds of a run stays within its limit.
use mathlib.Core.Path.{subst}
use multi_agent_aidlc.Common.{
  ℕ, ◌+◌, ◌≤◌, String, ◌≡◌, refl, sym, ◌∙◌, Bool, true, false, not, ◌&&◌, ◌||◌, Option, List, [],
  ◌∷◌, ◌++◌, Json, ok, err, integrity_error, Bool-cases, Option-cases, inl, inr, any, select,
  length, leb, arith, ◌==◌, string_eq, if◌then◌else◌, beq_refl,
}
use multi_agent_aidlc.Domain.{
  RunStatus, StageName, ArtifactRecord, DelegatedTask, HumanInteraction, HumanPrompt, PromptKind,
  prompt_kind_eq,
}
use multi_agent_aidlc.Storage.Artifacts.{Publication}
use multi_agent_aidlc.Storage.Database.State.{Db, has_run}
use multi_agent_aidlc.Storage.Database.Runs.{update_run}
use multi_agent_aidlc.Storage.Database.Runs.Stages.{update_stage}
use multi_agent_aidlc.Storage.Database.Events.{append_event}
use multi_agent_aidlc.Storage.Database.Index.{add_artifact, insert_artifact, list_artifacts}
use multi_agent_aidlc.Storage.Database.Interactions.{save_interaction, list_interactions}
use multi_agent_aidlc.Evaluation.{Floats}
use multi_agent_aidlc.Orchestration.Budget.{ExecutionMetadata, Details, record_execution}
use multi_agent_aidlc.Orchestration.Context.Key.{Settings}
use multi_agent_aidlc.Orchestration.Services.{AgentResult, Services}
use multi_agent_aidlc.Orchestration.World.{
  Exit, returned, raised, World, Host, Exec, continue, exit_of, after_db, event, mark_run,
  mark_stage, publish, index_artifact, on_db,
}
use multi_agent_aidlc.Orchestration.Questions.{
  no_details, is_clarification, clarifications, is_exhausted, draft_publication, new_interaction,
  request_publication, open_interaction, find_surface, ask, announce, identity, recorded_draft,
  surface_of, request_input,
}

abbrev interactions : World → List HumanInteraction
interactions w = w.db.human_interactions

-- Statements that leave the interactions alone.
module _ (host : Host) (w : World) where
  publish-interactions : (p : Publication) → interactions (publish host p w).1 ≡ interactions w
  unfolding publish
  publish-interactions p = ground arith

  index_artifact-interactions :
      (artifact : ArtifactRecord) → interactions (index_artifact host artifact w).1 ≡ interactions w
  unfolding index_artifact add_artifact insert_artifact
  index_artifact-interactions artifact = ground arith

  event-interactions :
      (run_id event_type : String) (payload : Json)
      → interactions (event host run_id event_type payload w).1 ≡ interactions w
  unfolding event append_event
  event-interactions run_id event_type payload = ground arith

  mark_run-interactions :
      (run_id : String) (status : RunStatus) (stage : Option StageName) (error : Option String)
      → interactions (mark_run host run_id status stage error w).1 ≡ interactions w
  unfolding mark_run update_run
  mark_run-interactions run_id status stage error = refl

  mark_stage-interactions :
      (run_id : String) (stage : StageName) (status : RunStatus) (error : Option String)
      → interactions (mark_stage host run_id stage status error w).1 ≡ interactions w
  unfolding mark_stage update_stage
  mark_stage-interactions run_id stage status error = refl

record_execution-interactions :
    (now budget : ℕ) (run_id agent : String) (phase : StageName) (details : Details)
    (execution : ExecutionMetadata) (db : Db)
    → (record_execution now budget run_id agent phase details execution db).1.human_interactions
      ≡ db.human_interactions
unfolding record_execution append_event
record_execution-interactions now budget run_id agent phase details execution db = ground arith

-- The interactions have the property when the statements are over, also if one raised.
abbrev Keeps : {A : Type 0} → (List HumanInteraction → Type 0) → Exit A × World → Type 0
Keeps Q x = Q (interactions x.1)

continue-Keeps :
    {A B : Type 0} (Q : List HumanInteraction → Type 0) (x : Exit A × World) (rest : A → Exec B)
    → Keeps Q x
    → ((a : A) (w : World) → interactions w ≡ interactions x.1 → Keeps Q (rest a w))
    → Keeps Q (continue x rest)
continue-Keeps Q (returned a, w) rest h k = k a w refl
continue-Keeps Q (raised error, w) rest h k = h

-- A statement that leaves the interactions alone.
quiet-Keeps :
    {A B : Type 0} (Q : List HumanInteraction → Type 0) (items : List HumanInteraction)
    (x : Exit A × World) (rest : A → Exec B)
    → Q items
    → interactions x.1 ≡ items
    → ((a : A) (w : World) → interactions w ≡ items → Keeps Q (rest a w))
    → Keeps Q (continue x rest)
quiet-Keeps Q items (returned a, w) rest q same k = k a w same
quiet-Keeps Q items (raised error, w) rest q same k = subst Q (sym same) q

count-append :
    (p q : HumanInteraction → Bool) (items : List HumanInteraction) (new : HumanInteraction)
    → q new ≡ true
    → length (select p (select q (items ++ new ∷ [])))
      ≡ length (select p (select q items)) + (if p new then 1 else 0)
count-append p q [] new h = ground (arith, h)
count-append p q (item ∷ items) new h = ground (arith, count-append p q items new h)

open_there :
    (limit count : ℕ) (counts : Bool)
    → count ≤ limit
    → (counts && leb limit count) ≡ false
    → count + (if counts then 1 else 0) ≤ limit
open_there limit count true within below = ground (arith, below)
open_there limit count false within below = omega arith

module _ (host : Host) (settings : Settings) {floats : Floats} (services : Services floats)
    (mapping : DelegatedTask) (draft : AgentResult) where
  abbrev Within : List HumanInteraction → Type 0
  Within items =
      length (select is_clarification (select (λ i. i.run_id == mapping.run_id) items))
      ≤ settings.max_clarification_rounds

  saved-Within :
      (interaction : HumanInteraction) (w : World)
      → Within (interactions w)
      → Within (interactions w ++ interaction ∷ [])
      → Keeps Within (on_db host (λ now db. save_interaction interaction db) w)
  unfolding save_interaction
  saved-Within interaction w old new = stored (
      any (λ i. i.surface_id == interaction.surface_id) (interactions w)
      || not (has_run interaction.run_id w.db))
    where
      stored :
          (refused : Bool)
          → Keeps Within (
              after_db w (
                if refused
                then err integrity_error
                else ok (record w.db { human_interactions = interactions w ++ interaction ∷ [] })))
      stored true = old
      stored false = new

  module _ (surface_id task_id : String) (prompt : HumanPrompt) where
    appended-Within :
        (items : List HumanInteraction) (artifact : ArtifactRecord)
        → Within items
        → (prompt.kind == PromptKind.clarification
            && leb settings.max_clarification_rounds
                (length (select is_clarification (select (λ i. i.run_id == mapping.run_id) items))))
          ≡ false
        → Within (items ++ new_interaction surface_id mapping task_id prompt artifact ∷ [])
    unfolding is_clarification
    appended-Within items artifact old below =
        rw
          (count-append is_clarification (λ i. i.run_id == mapping.run_id) items
            (new_interaction surface_id mapping task_id prompt artifact) (beq_refl mapping.run_id))
          (open_there settings.max_clarification_rounds _ (prompt.kind == PromptKind.clarification)
            old below)

    open_interaction-Within :
        (w : World)
        → Within (interactions w)
        → is_exhausted settings.max_clarification_rounds mapping.run_id prompt w.db ≡ false
        → Keeps Within
            (open_interaction host settings services surface_id mapping task_id draft prompt w)
    unfolding open_interaction is_exhausted list_interactions
    open_interaction-Within w within below =
        let items = interactions w in
        let new = λ (artifact : ArtifactRecord).
          new_interaction surface_id mapping task_id prompt artifact in
        let draft_p : Publication =
          draft_publication mapping draft (list_artifacts mapping.run_id w.db) in
        quiet-Keeps Within items (publish host draft_p w) _ within
          (publish-interactions host w draft_p)
          λ artifact w1 e1.
            quiet-Keeps Within items (index_artifact host artifact w1) _ within
              (index_artifact-interactions host w1 artifact ∙ e1)
              λ _ w2 e2.
                let request_p : Publication =
                  request_publication mapping prompt artifact
                    (services.dump_interaction (new artifact)) in
                quiet-Keeps Within items (publish host request_p w2) _ within
                  (publish-interactions host w2 request_p ∙ e2)
                  λ request w3 e3.
                    quiet-Keeps Within items (index_artifact host request w3) _ within
                      (index_artifact-interactions host w3 request ∙ e3)
                      λ _ w4 e4.
                        let stored =
                          saved-Within (new artifact) w4 (rw e4 within)
                            (rw e4 (appended-Within items artifact within below)) in
                        continue-Keeps Within
                          (on_db host (λ now db. save_interaction (new artifact) db) w4) _ stored
                          (λ _ w5 e5. rw e5 stored)

    ask-Within :
        (w : World)
        → Within (interactions w)
        → Keeps Within (ask host settings services surface_id mapping task_id draft prompt w)
    unfolding ask
    ask-Within w within = elim (Option-cases (find_surface surface_id mapping.run_id w.db)) [
      | inr (interaction, there) ↦ rw there within
      | inl none_there ↦
          elim (Bool-cases
            (is_exhausted settings.max_clarification_rounds mapping.run_id prompt w.db)) [
              | inl full ↦ rw (none_there, full) within
              | inr below ↦ rw (none_there, below) (open_interaction-Within w within below)
            ]
    ]

  announce-Within :
      (interaction : HumanInteraction) (w : World)
      → Within (interactions w)
      → Keeps Within (announce host settings services mapping interaction w)
  unfolding mark_stage mark_run update_stage update_run
  announce-Within interaction w within = subst Within (sym (event-interactions host _ _ _ _)) within

  -- A request for a person's input keeps the clarifications of its run within
  -- `max_clarification_rounds`, also when it raises.
  pub request_input-clarifications :
      (dump : AgentResult → String) (w : World)
      → clarifications mapping.run_id w.db ≤ settings.max_clarification_rounds
      → clarifications mapping.run_id
          (request_input host settings services dump mapping draft w).1.db
        ≤ settings.max_clarification_rounds
  unfolding request_input clarifications list_interactions
  request_input-clarifications dump w within =
      quiet-Keeps Within (interactions w) (recorded_draft host settings services mapping draft w) _
        within
        (record_execution-interactions (host.clock w.step) settings.token_budget_per_phase_per_run
          mapping.run_id mapping.agent mapping.stage no_details draft.execution w.db)
        λ _ w1 e1.
          quiet-Keeps Within (interactions w)
            (exit_of (identity host settings services mapping draft), w1) _ within e1
            λ request w2 e2.
              let surface = surface_of host settings services dump mapping draft in
              let asked = ask-Within surface request.0 request.1 w2 (rw e2 within) in
              continue-Keeps Within
                (ask host settings services surface mapping request.0 draft request.1 w2) _ asked
                λ interaction w3 e3.
                  let told = announce-Within interaction w3 (rw e3 asked) in
                  continue-Keeps Within (announce host settings services mapping interaction w3) _
                    told (λ _ w4 e4. rw e4 told)
