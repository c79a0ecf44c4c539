-- ===== src/Agents/Sources.antt =====
-- Source ownership and integration, src/aidlc/agents/source.py. `pinned` tells whether a text is the
-- JSON of the pinned front-end dependencies, or fails as `json.loads` does.
pub mod Ownership
use multi_agent_aidlc.Common.{
  ℕ, String, Bool, true, false, not, ◌&&◌, ◌||◌, Option, none, some, List, [], ◌∷◌, ◌++◌, Result,
  ok, err, ◌>>=◌, ◌>>◌, guard, or_raise, value_error, key_error, any, all, select, find_last,
  is_empty, codes, split_on, nat_beq, if◌then◌else◌, ◌==◌, string_eq, concat,
}
use multi_agent_aidlc.Domain.{
  ArtifactKind, artifact_kind_eq, ArtifactKind-discrete, ContextArtifact,
}
use multi_agent_aidlc.Tools.Source.{SourceFile, validate_source, source_bundle}

abbrev pub starts_with : List ℕ → List ℕ → Bool
starts_with [] text = true
starts_with (c ∷ cs) [] = false
starts_with (c ∷ cs) (d ∷ ds) = nat_beq c d && starts_with cs ds

abbrev pub same_text : List ℕ → List ℕ → Bool
same_text [] [] = true
same_text [] (_ ∷ _) = false
same_text (_ ∷ _) [] = false
same_text (c ∷ cs) (d ∷ ds) = nat_beq c d && same_text cs ds

abbrev pub ends_with : List ℕ → List ℕ → Bool
ends_with end [] = is_empty end
ends_with end (c ∷ cs) = same_text end (c ∷ cs) || ends_with end cs

-- `file.path.startswith(prefix)`
unfoldable pub is_under : String → SourceFile → Bool
is_under prefix file = starts_with (codes prefix) (codes file.path)

-- `file.path.endswith(".py")`
unfoldable pub is_python : SourceFile → Bool
is_python file = ends_with (codes ".py") (codes file.path)

abbrev last_part : List (List ℕ) → List ℕ
last_part [] = []
last_part (part ∷ []) = part
last_part (part ∷ next ∷ parts) = last_part (next ∷ parts)

-- `Path(file.path).name.startswith("vite.config")`
unfoldable pub is_vite_config : SourceFile → Bool
is_vite_config file =
    starts_with (codes "vite.config") (last_part (split_on b'/' (codes file.path)))

-- A dictionary of the last item of each producer, in the order in which the producers come.
abbrev pub put_latest : ContextArtifact → List ContextArtifact → List ContextArtifact
put_latest item [] = item ∷ []
put_latest item (other ∷ others) =
    let rest = put_latest item others in
    if other.metadata.producing_agent == item.metadata.producing_agent
    then item ∷ others
    else other ∷ rest

abbrev pub latest_from : List ContextArtifact → List ContextArtifact → List ContextArtifact
latest_from [] kept = kept
latest_from (item ∷ items) kept = latest_from items (put_latest item kept)

abbrev last_or : List ContextArtifact → List ContextArtifact → List ContextArtifact
last_or [] others = others
last_or (item ∷ []) others = item ∷ []
last_or (item ∷ next ∷ items) others = last_or (next ∷ items) others

unfoldable pub current_sources : List ContextArtifact → List ContextArtifact
unfolding ArtifactKind-discrete
current_sources artifacts =
    last_or (select (λ item. item.metadata.kind == ArtifactKind.integrated_source) artifacts)
      (latest_from (select (λ item. item.metadata.kind == ArtifactKind.code_change) artifacts) [])

abbrev pub prefix_of : String → Option String
prefix_of agent =
    if agent == "backend-agent"
    then some "backend/"
    else if agent == "frontend-agent"
    then some "ui/"
    else if agent == "test-agent"
    then some "tests/"
    else none

abbrev pub has_path : List SourceFile → String → Bool
has_path files path = any (λ file. file.path == path) files

abbrev pub implementers : List String
implementers = "backend-agent" ∷ "frontend-agent" ∷ "test-agent" ∷ []

unfoldable pub latest_change : String → List ContextArtifact → Option ContextArtifact
unfolding ArtifactKind-discrete
latest_change agent artifacts =
    find_last
      (λ item.
        item.metadata.kind == ArtifactKind.code_change && item.metadata.producing_agent == agent)
      artifacts

abbrev pub is_present {ℓ} : {A : Type ℓ} → Option A → Bool
is_present none = false
is_present (some _) = true

-- `set(latest) == {"backend-agent", "frontend-agent", "test-agent"}`
unfoldable pub is_complete : List ContextArtifact → Bool
unfolding latest_change ArtifactKind-discrete
is_complete artifacts =
    all
      (λ item.
        not (item.metadata.kind == ArtifactKind.code_change)
        || any (λ agent. agent == item.metadata.producing_agent) implementers)
      artifacts
    && all (λ agent. is_present (latest_change agent artifacts)) implementers

module _ (pinned : String → Result Bool) where
  -- The loop over the front end's files.
  unfoldable pub check_toolchain : List SourceFile → Result (Unit {0})
  check_toolchain [] = ok tt
  check_toolchain (file ∷ files) = do
    same ← if file.path == "ui/package.json" then pinned file.content else ok true
    guard same (value_error "Frontend dependencies and scripts must match the pinned toolchain")
    guard (not (file.path == "ui/package-lock.json"))
        (value_error "The dependency lockfile is supplied by the trusted toolchain")
    check_toolchain files

  unfoldable pub check_frontend : List SourceFile → Result (Unit {0})
  unfolding check_toolchain
  check_frontend files = do
    guard (all (has_path files) ("ui/index.html" ∷ "ui/src/main.tsx" ∷ "ui/tsconfig.json" ∷ []))
        (value_error "Frontend must include index.html, src/main.tsx and tsconfig.json")
    guard (not (any is_vite_config files))
        (value_error "Vite configuration is supplied by the trusted toolchain")
    check_toolchain files

  unfoldable pub validate_source_output : String → List SourceFile → Result (Unit {0})
  unfolding check_frontend
  validate_source_output agent files = do
    prefix ← or_raise (prefix_of agent) (key_error agent)
    guard (all (is_under prefix) files)
        (value_error (concat agent (concat " may write only " prefix)))
    guard (agent == "frontend-agent" || all is_python files)
        (value_error "Backend and test source must use standard-library Python")
    if agent == "frontend-agent" then check_frontend files else ok tt

  -- The files of one agent.
  unfoldable pub output_of : String → List ContextArtifact → Result (List SourceFile)
  unfolding latest_change validate_source_output
  output_of agent artifacts = do
    item ← or_raise (latest_change agent artifacts) (key_error agent)
    files ← validate_source item.content
    _ ← validate_source_output agent files
    ok files

  unfoldable pub merge_each : List String → List ContextArtifact → Result (List SourceFile)
  unfolding output_of
  merge_each [] artifacts = ok []
  merge_each (agent ∷ agents) artifacts = do
    files ← output_of agent artifacts
    rest ← merge_each agents artifacts
    ok (files ++ rest)

  unfoldable pub merge_sources : List ContextArtifact → Result (List SourceFile)
  unfolding is_complete merge_each
  merge_sources artifacts = do
    guard (is_complete artifacts)
        (value_error "Integration requires source from all three implementation agents")
    files ← merge_each implementers artifacts
    source_bundle files
