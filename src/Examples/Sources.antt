-- ===== src/Examples/Sources.antt =====
-- The theorem on integrated source at a concrete input.
use multi_agent_aidlc.Common.{
  String, ◌≡◌, ◌≤◌, refl, Bool, true, false, List, [], ◌∷◌, map, Json, str, arr, obj, cons, nil,
  field, end, Result, ok, All, length,
}
use multi_agent_aidlc.Domain.{StageName, ArtifactKind, ArtifactKind-discrete, ContextArtifact}
use multi_agent_aidlc.Tools.Source.{
  SourceFile, validate_source, source_bundle, has_duplicate, total_bytes,
}
use multi_agent_aidlc.Agents.Sources.{is_under, is_python, is_vite_config, merge_sources}
use multi_agent_aidlc.Agents.Sources.Ownership.{is_owned, merge_sources-is_owned}
use multi_agent_aidlc.Examples.Data.{metadata}

abbrev pub pinned : String → Result Bool
pinned text = ok true

abbrev pub file_json : String → Json
file_json path = obj (field "path" (str path) (field "content" (str "x") end))

abbrev pub change_of : String → Json → ContextArtifact
change_of agent content = record {
  metadata = metadata "art_1" ArtifactKind.code_change StageName.implementation agent;
  content = content;
}

abbrev pub changes : List ContextArtifact
changes =
    change_of "backend-agent"
      (obj (field "files" (arr (cons (file_json "backend/app.py") nil)) end))
    ∷ change_of "frontend-agent" (
        obj (
          field "files"
            (arr (
              cons (file_json "ui/index.html")
                (cons (file_json "ui/src/main.tsx") (cons (file_json "ui/tsconfig.json") nil))))
            end))
    ∷ change_of "test-agent"
        (obj (field "files" (arr (cons (file_json "tests/test_app.py") nil)) end))
    ∷ []

abbrev file_at : String → SourceFile
file_at path = record { path = path; content = "x" }

abbrev merged : List SourceFile
merged =
    file_at "backend/app.py"
    ∷ file_at "ui/index.html"
    ∷ file_at "ui/src/main.tsx"
    ∷ file_at "ui/tsconfig.json"
    ∷ file_at "tests/test_app.py"
    ∷ []

merges : merge_sources pinned changes ≡ ok merged
unfolding merge_sources validate_source source_bundle is_under is_python is_vite_config
    ArtifactKind-discrete
merges = refl

merge_sources-is_owned_example :
    All (λ file. is_owned file ≡ true) merged
    × (length merged ≤ 50)
    × (has_duplicate (map (λ (file : SourceFile). file.path) merged) ≡ false)
    × (total_bytes merged ≤ 262144)
merge_sources-is_owned_example = merge_sources-is_owned pinned changes merges
