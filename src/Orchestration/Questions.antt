-- ===== src/Orchestration/Questions.antt =====
-- `_human_input` of src/aidlc/orchestration/workflow.py: a prompt is published once, and answered by
-- the person's response to it.
pub mod Rounds
use multi_agent_aidlc.Common.{
  ℕ, zero, suc, ◌+◌, String, Bool, true, false, not, ◌&&◌, Option, none, some, List, [], ◌∷◌, map,
  Json, null, str, obj, field, end, Result, ok, err, or_raise, value_error, runtime_error,
  stop_iteration, find, select, length, leb, concat, first_chars, if◌then◌else◌, ◌==◌, string_eq,
}
use multi_agent_aidlc.Domain.{
  RunStatus, StageName, ArtifactKind, PromptKind, PromptKind-discrete, prompt_kind_eq,
  ArtifactRecord, DelegatedTask, HumanInteraction, HumanPrompt, HumanResponse,
}
use multi_agent_aidlc.Human.{surface_messages}
use multi_agent_aidlc.Storage.Artifacts.{Publication, Store}
use multi_agent_aidlc.Storage.Database.State.{Db}
use multi_agent_aidlc.Storage.Database.Index.{list_artifacts}
use multi_agent_aidlc.Storage.Database.Interactions.{save_interaction, list_interactions}
use multi_agent_aidlc.Evaluation.{Floats}
use multi_agent_aidlc.Orchestration.Budget.{
  Details, ExecutionMetadata, record_execution, text_or_null, num_or_null,
}
use multi_agent_aidlc.Orchestration.Context.Key.{Settings}
use multi_agent_aidlc.Orchestration.Services.{AgentResult, Services}
use multi_agent_aidlc.Orchestration.World.{
  Exit, returned, raised, leaf, World, Host, Exec, ◌>>=◌, ◌>>◌, continue, pure, throw, asks,
  exit_of, on_db, event, mark_run, mark_stage, publish, index_artifact,
}

abbrev pub no_details : Details
no_details = record {
  cache_key = null;
  context_contract_version = null;
  context_bytes = null;
  baseline_context_bytes = null;
  repair_attempt = 0;
  retry_attempt = 0;
}

-- `draft.execution.model_dump(mode="json")`
abbrev pub execution_dump : ExecutionMetadata → Json
execution_dump execution = obj (
    field "execution_id" (text_or_null execution.execution_id) (
      field "model_id" (str execution.model_id) (
        field "prompt_version" (str execution.prompt_version) (
          field "input_tokens" (num_or_null execution.input_tokens) (
            field "output_tokens" (num_or_null execution.output_tokens) (
              field "cost_usd" execution.cost_usd
                (field "cost_basis" (str execution.cost_basis) end)))))))

-- `item.prompt.kind == "clarification"`
unfoldable pub is_clarification : HumanInteraction → Bool
unfolding PromptKind-discrete
is_clarification item = item.prompt.kind == PromptKind.clarification

unfoldable pub clarifications : String → Db → ℕ
unfolding is_clarification
clarifications run_id db = length (select is_clarification (list_interactions run_id db))

-- The round limit holds for clarifications alone.
unfoldable pub is_exhausted : (limit : ℕ) → String → HumanPrompt → Db → Bool
unfolding PromptKind-discrete clarifications
is_exhausted limit run_id prompt db =
    prompt.kind == PromptKind.clarification && leb limit (clarifications run_id db)

-- `previous_answers`
abbrev pub previous_answers : List HumanInteraction → List String
previous_answers [] = []
previous_answers (item ∷ items) =
    let rest = previous_answers items in
    elim item.response [
      | none ↦ rest
      | some response ↦ if is_clarification item then response.answer ∷ rest else rest
    ]

-- What the agent gets: the response, with the answers of the run.
pub record Answer : Type 0 where
  pub response : HumanResponse
  pub previous : List String

abbrev pub find_surface : String → String → Db → Option HumanInteraction
find_surface surface_id run_id db =
    find (λ item. item.surface_id == surface_id) (list_interactions run_id db)

abbrev pub draft_publication : DelegatedTask → AgentResult → List ArtifactRecord → Publication
draft_publication mapping draft artifacts = record {
  run_id = mapping.run_id;
  stage = mapping.stage;
  kind = draft.artifact_kind;
  producing_agent = mapping.agent;
  content = draft.content;
  markdown = draft.markdown;
  parent_artifact_ids = map (λ item. item.metadata.artifact_id) artifacts;
  model_id = some draft.execution.model_id;
  prompt_version = draft.execution.prompt_version;
  execution = execution_dump draft.execution;
}

abbrev pub new_interaction :
    String → DelegatedTask → (task_id : String) → HumanPrompt → ArtifactRecord → HumanInteraction
new_interaction surface_id mapping task_id prompt artifact = record {
  surface_id = surface_id;
  run_id = mapping.run_id;
  stage = mapping.stage;
  agent = mapping.agent;
  task_id = task_id;
  context_id = mapping.context_id;
  prompt = prompt;
  artifact_id = artifact.metadata.artifact_id;
  artifact_sha256 = artifact.metadata.content_sha256;
  version = 1;
  messages = surface_messages surface_id prompt.question prompt.kind;
  response = none;
}

abbrev pub request_publication :
    DelegatedTask → HumanPrompt → ArtifactRecord → (content : Json) → Publication
request_publication mapping prompt artifact content = record {
  run_id = mapping.run_id;
  stage = mapping.stage;
  kind = ArtifactKind.human_request;
  producing_agent = mapping.agent;
  content = content;
  markdown = concat "# Human request\n\n" prompt.question;
  parent_artifact_ids = artifact.metadata.artifact_id ∷ [];
  model_id = none;
  prompt_version = "deterministic-v1";
  execution = obj end;
}

module _ (host : Host) (settings : Settings) {floats : Floats} (services : Services floats) where
  -- The draft and the request are published, and the interaction is saved.
  unfoldable pub open_interaction :
      String
      → DelegatedTask
      → (task_id : String) → AgentResult
      → HumanPrompt
      → Exec HumanInteraction
  open_interaction surface_id mapping task_id draft prompt = do
    parents ← asks (λ db store. ok (list_artifacts mapping.run_id db))
    artifact ← publish host (draft_publication mapping draft parents)
    index_artifact host artifact
    let interaction = new_interaction surface_id mapping task_id prompt artifact
    request ←
        publish host
          (request_publication mapping prompt artifact (services.dump_interaction interaction))
    index_artifact host request
    on_db host (λ now db. save_interaction interaction db)
    pure interaction

  -- The interaction of the surface: the one that is there, or a new one within the round limit.
  unfoldable pub ask :
      String
      → DelegatedTask
      → (task_id : String) → AgentResult
      → HumanPrompt
      → Exec HumanInteraction
  unfolding open_interaction
  ask surface_id mapping task_id draft prompt w =
      known (find_surface surface_id mapping.run_id w.db)
        (is_exhausted settings.max_clarification_rounds mapping.run_id prompt w.db)
    where
      known : Option HumanInteraction → Bool → Exit HumanInteraction × World
      known (some interaction) exhausted = (returned interaction, w)
      known none true = throw (runtime_error "Clarification round limit exceeded") w
      known none false = open_interaction surface_id mapping task_id draft prompt w

  -- `while interaction.response is None`, with a sleep in each round; `none` when the fuel is out,
  -- for a person may never answer.
  unfoldable pub poll :
      (fuel : ℕ)
      → (sleep : World → World) → (surface_id run_id : String) → Option HumanResponse
      → World
      → Option (Exit HumanResponse × World)
  poll fuel sleep surface_id run_id (some response) w = some (returned response, w)
  poll zero sleep surface_id run_id none w = none
  poll (suc fuel) sleep surface_id run_id none w =
      elim (find_surface surface_id run_id (sleep w).db) [
        | none ↦ some (raised (leaf stop_iteration), sleep w)
        | some interaction ↦ poll fuel sleep surface_id run_id interaction.response (sleep w)
      ]

  abbrev pub announce : DelegatedTask → HumanInteraction → Exec (Unit {0})
  announce mapping interaction = do
    mark_stage host mapping.run_id mapping.stage RunStatus.input_required none
    mark_run host mapping.run_id RunStatus.input_required (some mapping.stage) none
    event host mapping.run_id "human.requested" (services.dump_interaction interaction)

  abbrev pub resume : DelegatedTask → HumanResponse → Exec Answer
  resume mapping response = do
    mark_stage host mapping.run_id mapping.stage RunStatus.running none
    mark_run host mapping.run_id RunStatus.running (some mapping.stage) none
    asks (λ db store. ok (record {
      response = response;
      previous = previous_answers (list_interactions mapping.run_id db);
    }))

  abbrev pub recorded_draft : DelegatedTask → AgentResult → Exec (Unit {0})
  recorded_draft mapping draft w = kept (
      record_execution (host.clock w.step) settings.token_budget_per_phase_per_run mapping.run_id
        mapping.agent mapping.stage no_details draft.execution w.db)
    where
      kept : Result (Unit {0}) × Db → Exit (Unit {0}) × World
      kept (outcome, db) = (exit_of outcome, record w { db = db; step = w.step + 1 })

  abbrev pub identity : DelegatedTask → AgentResult → Result (String × HumanPrompt)
  identity mapping draft = both draft.human_prompt mapping.task_id
    where
      both : Option HumanPrompt → Option String → Result (String × HumanPrompt)
      both (some prompt) (some task_id) = ok (task_id, prompt)
      both none _ = err (value_error "Missing human request or remote task identity")
      both (some _) none = err (value_error "Missing human request or remote task identity")

  -- `surface_id`, where `dump` is `model_dump_json` of the draft
  abbrev pub surface_of : (dump : AgentResult → String) → DelegatedTask → AgentResult → String
  surface_of dump mapping draft =
      concat mapping.invocation_id (concat ":" (first_chars 20 (host.hashing.sha256 (dump draft))))

  -- The part before the person is waited for.
  unfoldable pub request_input :
      (dump : AgentResult → String) → DelegatedTask → AgentResult → Exec HumanInteraction
  unfolding ask
  request_input dump mapping draft = do
    recorded_draft mapping draft
    request ← asks (λ db store. identity mapping draft)
    interaction ← ask (surface_of dump mapping draft) mapping request.0 draft request.1
    announce mapping interaction
    pure interaction

  abbrev pub after_poll :
      DelegatedTask → Option (Exit HumanResponse × World) → Option (Exit Answer × World)
  after_poll mapping none = none
  after_poll mapping (some x) = some (continue x (resume mapping))

  abbrev pub after_request :
      (fuel : ℕ)
      → (sleep : World → World) → (surface_id : String) → DelegatedTask
      → Exit HumanInteraction × World
      → Option (Exit Answer × World)
  after_request fuel sleep surface_id mapping (raised error, w) = some (raised error, w)
  after_request fuel sleep surface_id mapping (returned interaction, w) =
      after_poll mapping (poll fuel sleep surface_id mapping.run_id interaction.response w)

  -- `_human_input`
  unfoldable pub human_input :
      (fuel : ℕ)
      → (sleep : World → World) → (dump : AgentResult → String) → DelegatedTask
      → AgentResult
      → World
      → Option (Exit Answer × World)
  unfolding request_input poll
  human_input fuel sleep dump mapping draft w =
      after_request fuel sleep (surface_of dump mapping draft) mapping
        (request_input dump mapping draft w)
