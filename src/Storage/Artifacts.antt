-- ===== src/Storage/Artifacts.antt =====
-- src/aidlc/storage/artifacts.py: the directories of each project. A lock is held over each
-- operation, so an operation is one step.
pub mod Reading
pub mod Frame
pub mod Alignment
use multi_agent_aidlc.Common.{
  ℕ, String, Bool, true, false, ◌&&◌, ◌||◌, not, Option, none, some, List, [], ◌∷◌, Json, obj,
  field, str, end, Fields, get, Result, ok, value_error, file_not_found, ◌>>=◌, ◌>>◌, guard, select,
  all, leb, if◌then◌else◌, ◌==◌, string_eq, codes, nat_beq, concat, is_empty, rstrip, set_field,
  or_raise,
}
use multi_agent_aidlc.Domain.{
  StageName, ArtifactKind, ArtifactMetadata, ArtifactRecord, ContentPath, current, records, path_eq,
  artifact_kind_eq, ArtifactKind-discrete, Hashing, project_id_for_run, content_digest, stage_text,
  kind_text,
}
use multi_agent_aidlc.Storage.Snapshots.{snapshot_kinds, invalidated_kinds}
use multi_agent_aidlc.Tools.Source.{SourceFile, validate_bundle}

-- The files of one directory.
pub record Directory : Type 0 where
  pub manifest : Option ArtifactMetadata
  pub content : Json
  pub markdown : String
  pub source : Option (List SourceFile)

-- The directories under the root, and each project's descriptor `project.json`.
pub record Store : Type 0 where
  pub directories : List (ContentPath × Directory)
  pub descriptors : List (String × Json)

abbrev pub path_of : ContentPath × Directory → ContentPath
path_of (path, _) = path

abbrev pub project_of : ContentPath → String
project_of (current project _ _ _) = project
project_of (records project _ _) = project

abbrev pub is_current : ContentPath → Bool
is_current (current _ _ _ _) = true
is_current (records _ _ _) = false

module _ {A : Type 0} where
  -- A file tree read and written by path.
  abbrev pub lookup : ContentPath → List (ContentPath × A) → Option A
  lookup path [] = none
  lookup path ((p, a) ∷ rest) = if p == path then some a else lookup path rest

  abbrev pub put : ContentPath → A → List (ContentPath × A) → List (ContentPath × A)
  put path a [] = (path, a) ∷ []
  put path a ((p, b) ∷ rest) = if p == path then (path, a) ∷ rest else (p, b) ∷ put path a rest

module _ {A : Type 0} where
  abbrev lookup_text : String → List (String × A) → Option A
  lookup_text key [] = none
  lookup_text key ((k, a) ∷ rest) = if k == key then some a else lookup_text key rest

  abbrev put_text : String → A → List (String × A) → List (String × A)
  put_text key a [] = (key, a) ∷ []
  put_text key a ((k, b) ∷ rest) =
      if k == key then (key, a) ∷ rest else (k, b) ∷ put_text key a rest

-- The pattern `[A-Za-z0-9_-]+`
abbrev pub safe_producer : String → Bool
safe_producer name = not (is_empty (codes name)) && all in_pattern (codes name)
  where
    in_pattern : ℕ → Bool
    in_pattern c =
        (leb b'A' c && leb c b'Z')
        || ((leb b'a' c && leb c b'z')
            || ((leb b'0' c && leb c b'9') || (nat_beq c b'_' || nat_beq c b'-')))

-- The keyword arguments of `write`.
pub record Publication : Type 0 where
  pub run_id : String
  pub stage : StageName
  pub kind : ArtifactKind
  pub producing_agent : String
  pub content : Json
  pub markdown : String
  pub parent_artifact_ids : List String
  pub model_id : Option String
  pub prompt_version : String
  pub execution : Json

abbrev is_some : Option Json → Bool
is_some none = false
is_some (some _) = true

-- The source that a release publishes beside its content.
unfoldable pub release_source : ArtifactKind → Json → Result (Option (List SourceFile))
unfolding ArtifactKind-discrete
release_source kind content =
    if kind == ArtifactKind.release_bundle && is_some (get content "files")
    then (do files ← validate_bundle (get content "files"); ok (some files))
    else ok none

-- The directories that survive a new snapshot: all but the current ones of the project whose
-- manifest has a kind that the new one invalidates.
abbrev pub is_stale : String → ArtifactKind → ContentPath × Directory → Bool
is_stale project kind (path, directory) =
    is_current path
    && (project_of path == project
        && elim directory.manifest [ none ↦ false | some m ↦ invalidated_kinds kind m.kind ])

unfoldable pub remove_stale :
    String → ArtifactKind → List (ContentPath × Directory) → List (ContentPath × Directory)
remove_stale project kind = select (λ d. not (is_stale project kind d))

-- The directory after the write; the source of an earlier release stays when none is published.
abbrev pub filled :
    Publication → ArtifactMetadata → Option (List SourceFile) → Option Directory → Directory
filled p metadata source old = record {
  manifest = some metadata;
  content = p.content;
  markdown = concat (rstrip p.markdown) "\n";
  source = elim source [
    | none ↦ elim old [ none ↦ none | some d ↦ d.source ]
    | some files ↦ some files
  ];
}

-- `str(destination.relative_to(project))`
abbrev relative_path : ContentPath → String
relative_path (current _ stage agent kind) =
    concat "current/"
      (concat (stage_text stage) (concat "/" (concat agent (concat "/" (kind_text kind)))))
relative_path (records _ stage artifact_id) =
    concat "records/" (concat (stage_text stage) (concat "/" artifact_id))

abbrev identity_of : String → String → Option Json → Fields
identity_of project run_id (some (obj fields)) = fields
identity_of project run_id _ = field "project_id" (str project) (field "run_id" (str run_id) end)

-- The descriptor after a new project brief; other kinds leave it alone.
unfoldable pub descriptor_after :
    String
    → Publication
    → ArtifactMetadata
    → ContentPath
    → List (String × Json)
    → List (String × Json)
unfolding ArtifactKind-discrete
descriptor_after project p metadata destination descriptors =
    if p.kind == ArtifactKind.project_brief
    then put_text project identity descriptors
    else descriptors
  where
    identity : Json
    identity = obj (
        set_field "scope_sha256" (str metadata.content_sha256) (
          set_field "scope_path" (str (relative_path destination)) (
            set_field "scope_artifact_id" (str metadata.artifact_id)
              (identity_of project p.run_id (lookup_text project descriptors)))))

module _ (hashing : Hashing) where
  unfoldable pub initialize_project : String → String → Store → Store
  initialize_project run_id idea store = record store {
    descriptors = put_text project descriptor store.descriptors;
  }
    where
      project : String
      project = project_id_for_run hashing run_id

      descriptor : Json
      descriptor = obj (
          field "project_id" (str project)
            (field "run_id" (str run_id) (field "idea" (str idea) end)))

  -- `kind in SNAPSHOT_KINDS and producing_agent != "trusted-sandbox-service"`
  abbrev pub is_snapshot : Publication → Bool
  is_snapshot p = snapshot_kinds p.kind && not (p.producing_agent == "trusted-sandbox-service")

  -- The manifest of an artifact written at `now` under the new identifier `hex`.
  abbrev pub manifest_of : (hex : String) → (now : ℕ) → Publication → ArtifactMetadata
  manifest_of hex now p = record {
    project_id = project_id_for_run hashing p.run_id;
    current_snapshot = is_snapshot p;
    artifact_id = concat "art_" hex;
    kind = p.kind;
    workflow_run_id = p.run_id;
    stage_id = p.stage;
    parent_artifact_ids = p.parent_artifact_ids;
    producing_agent = p.producing_agent;
    model_id = p.model_id;
    prompt_version = p.prompt_version;
    execution = p.execution;
    created_at = now;
    content_sha256 = content_digest hashing p.content;
  }

  abbrev pub destination_of : (hex : String) → Publication → ContentPath
  destination_of hex p =
      if is_snapshot p
      then current (project_id_for_run hashing p.run_id) p.stage p.producing_agent p.kind
      else records (project_id_for_run hashing p.run_id) p.stage (concat "art_" hex)

  -- The directories that the write starts from: a snapshot first removes what it makes stale.
  abbrev pub cleared : Publication → List (ContentPath × Directory) → List (ContentPath × Directory)
  cleared p directories =
      if is_snapshot p
      then remove_stale (project_id_for_run hashing p.run_id) p.kind directories
      else directories

  unfoldable pub write :
      (hex : String) → (now : ℕ) → Publication → Store → Result (ArtifactRecord × Store)
  unfolding release_source descriptor_after
  write hex now p store = do
    guard (safe_producer p.producing_agent) (value_error "Unsafe artifact producer")
    source ← release_source p.kind p.content
    let metadata = manifest_of hex now p
    let destination = destination_of hex p
    let directories = cleared p store.directories
    let directory = filled p metadata source (lookup destination directories)
    ok (
      record { metadata = metadata; content_path = destination },
      record {
        directories = put destination directory directories;
        descriptors = descriptor_after metadata.project_id p metadata destination store.descriptors;
      },
    )

  abbrev superseded : Option ArtifactMetadata → String → Bool
  superseded none artifact_id = false
  superseded (some stored) artifact_id = not (stored.artifact_id == artifact_id)

  abbrev checked : ArtifactRecord → Directory → Result Json
  checked r directory = do
    guard (not (superseded directory.manifest r.metadata.artifact_id))
        (value_error "Artifact snapshot superseded")
    guard (content_digest hashing directory.content == r.metadata.content_sha256)
        (value_error "Artifact integrity check failed")
    ok directory.content

  unfoldable pub read_content : ArtifactRecord → Store → Result Json
  read_content r store = do
    directory ← or_raise (lookup r.content_path store.directories) file_not_found
    checked r directory
