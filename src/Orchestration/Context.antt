-- ===== src/Orchestration/Context.antt =====
-- The least-context projection of src/aidlc/orchestration/context.py.
pub mod Contract
pub mod Supply
pub mod Key
use multi_agent_aidlc.Common.{
  ℕ, String, Bool, true, false, not, ◌&&◌, ◌||◌, Option, none, some, List, [], ◌∷◌, ◌++◌, map, Json,
  Result, ok, err, ◌>>=◌, value_error, select, find_last, ltb, codes, concat, if◌then◌else◌, ◌==◌,
  string_eq, nat_eq, option_eq,
}
use multi_agent_aidlc.Domain.{
  ArtifactKind, artifact_kind_eq, ArtifactKind-discrete, kind_text, AgentContext, ContextArtifact,
}
use multi_agent_aidlc.Agents.{AgentSpec, ArtifactInput}

-- `dependency.producer is None or name == dependency.producer`
abbrev pub is_producer : Option String → String → Bool
is_producer none name = true
is_producer (some producer) name = name == producer

-- `_matches`
unfoldable pub matches : ContextArtifact → ArtifactInput → Bool
unfolding ArtifactKind-discrete
matches item dependency =
    item.metadata.kind == dependency.kind
    && is_producer dependency.producer item.metadata.producing_agent

-- Python's order of texts, by code points.
abbrev pub before_or_same : List ℕ → List ℕ → Bool
before_or_same [] ys = true
before_or_same (x ∷ xs) [] = false
before_or_same (x ∷ xs) (y ∷ ys) =
    let rest = before_or_same xs ys in if x == y then rest else ltb x y

-- The item of a producer, put into the items of the producers that are kept in the order of their
-- names: a later item takes the place of an earlier one of the same producer.
abbrev pub put_producer : ContextArtifact → List ContextArtifact → List ContextArtifact
put_producer item [] = item ∷ []
put_producer item (other ∷ others) =
    let rest = put_producer item others in
    if item.metadata.producing_agent == other.metadata.producing_agent
    then item ∷ others
    else if before_or_same (codes item.metadata.producing_agent)
        (codes other.metadata.producing_agent)
    then item ∷ other ∷ others
    else other ∷ rest

abbrev pub put_each : List ContextArtifact → List ContextArtifact → List ContextArtifact
put_each [] kept = kept
put_each (item ∷ rest) kept = put_each rest (put_producer item kept)

-- `[latest_by_producer[name] for name in sorted(latest_by_producer)]`
unfoldable pub latest_by_producer : List ContextArtifact → List ContextArtifact
latest_by_producer items = put_each items []

abbrev pub is_kind : Option ArtifactKind → ContextArtifact → Bool
unfolding ArtifactKind-discrete
is_kind none item = false
is_kind (some kind) item = item.metadata.kind == kind

abbrev pub last {ℓ} : {A : Type ℓ} → A → List A → A
last x [] = x
last x (y ∷ ys) = last y ys

abbrev pub or_fallback : List ContextArtifact → List ContextArtifact → List ContextArtifact
or_fallback [] fallback = fallback
or_fallback (item ∷ items) fallback = item ∷ items

abbrev pub from_producer : Option String → String
from_producer none = ""
from_producer (some producer) = if producer == "" then "" else concat " from " producer

-- The matches of a dependency, or what stands in for them.
unfoldable pub candidates : ArtifactInput → List ContextArtifact → List ContextArtifact
unfolding matches latest_by_producer
candidates dependency artifacts =
    or_fallback (select (λ item. matches item dependency) artifacts)
      (latest_by_producer (select (is_kind dependency.fallback_kind) artifacts))

-- What one dependency takes of its candidates.
unfoldable pub pick :
    (agent : String) → ArtifactInput → List ContextArtifact → Result (List ContextArtifact)
pick agent dependency [] =
    if dependency.required
    then err (
        value_error (
          concat agent (
            concat " requires "
              (concat (kind_text dependency.kind) (from_producer dependency.producer)))))
    else ok []
pick agent dependency (item ∷ items) =
    if is_kind dependency.fallback_kind item then ok (item ∷ items) else ok (last item items ∷ [])

unfoldable pub select_inputs :
    (agent : String) → List ArtifactInput → List ContextArtifact → Result (List ContextArtifact)
unfolding pick candidates
select_inputs agent [] artifacts = ok []
select_inputs agent (dependency ∷ dependencies) artifacts = do
  selected ← pick agent dependency (candidates dependency artifacts)
  rest ← select_inputs agent dependencies artifacts
  ok (selected ++ rest)

unfoldable pub select_agent_artifacts :
    AgentSpec → List ContextArtifact → Result (List ContextArtifact)
unfolding select_inputs
select_agent_artifacts spec artifacts = select_inputs spec.name spec.inputs artifacts

-- `f(repair_artifact) if repair_attempt and repair_artifact else None`
abbrev pub of_repair {ℓ κ} : {A : Type ℓ} {B : Type κ} → ℕ → (A → B) → Option A → Option B
of_repair attempt f none = none
of_repair attempt f (some a) = if attempt == 0 then none else some (f a)

unfoldable pub build_agent_context :
    AgentSpec
    → (run_id idea : String) → List ContextArtifact
    → (repair_attempt : ℕ) → (repair_feedback : Option Json) → (retry_attempt : ℕ)
    → Result AgentContext
unfolding select_agent_artifacts ArtifactKind-discrete
build_agent_context spec run_id idea artifacts repair_attempt repair_feedback retry_attempt =
    let request = find_last (λ item. item.metadata.kind == ArtifactKind.repair_request) artifacts in
    select_agent_artifacts spec artifacts >>= λ selected. ok (record {
      run_id = run_id;
      idea = if spec.include_idea then idea else "";
      stage = spec.stage;
      artifacts = selected;
      human_response = none;
      repair_attempt = repair_attempt;
      repair_feedback = if repair_attempt == 0 then none else repair_feedback;
      repair_artifact_id =
          of_repair repair_attempt (λ (item : ContextArtifact). item.metadata.artifact_id) request;
      repair_artifact_sha256 =
          of_repair repair_attempt (λ (item : ContextArtifact). item.metadata.content_sha256)
            request;
      retry_attempt = retry_attempt;
    })

-- `if context.repair_artifact_id: ids.append(...)`, where an empty id is none
abbrev pub repair_ids : Option String → List String
repair_ids none = []
repair_ids (some id) = if id == "" then [] else id ∷ []

unfoldable pub context_input_artifact_ids : AgentContext → List String
context_input_artifact_ids context =
    map (λ item. item.metadata.artifact_id) context.artifacts
    ++ repair_ids context.repair_artifact_id
