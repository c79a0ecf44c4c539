-- ===== src/Agents/Sources/Ownership.antt =====
-- What integration lets through: each agent's files stand in its own directory.
use mathlib.Core.Path.{subst}
use multi_agent_aidlc.Common.{
  String, ◌≡◌, ◌≤◌, Bool, true, false, not, ◌&&◌, ◌||◌, List, [], ◌∷◌, ◌++◌, map, Result, ok,
  >>=-eq-ok, guard, or_raise, arith, any, all, length, All, All-append, All-mono, if◌then◌else◌,
  ◌==◌, string_eq, value_error, key_error, concat,
}
use multi_agent_aidlc.Domain.{ContextArtifact}
use multi_agent_aidlc.Tools.Source.{
  SourceFile, source_bundle, has_duplicate, total_bytes, validate_source,
}
use multi_agent_aidlc.Agents.Sources.{
  is_under, is_python, is_vite_config, check_toolchain, check_frontend, validate_source_output,
  output_of, implementers, latest_change, is_complete, merge_each, merge_sources, has_path,
}

-- A file in the directory of one implementer, of the kind that this one may write.
abbrev pub is_owned : SourceFile → Bool
is_owned file =
    (is_under "backend/" file && is_python file)
    || ((is_under "tests/" file && is_python file)
        || (is_under "ui/" file
            && (not (is_vite_config file) && not (file.path == "ui/package-lock.json"))))

All-of_all :
    (p : SourceFile → Bool) (files : List SourceFile)
    → all p files ≡ true
    → All (λ file. p file ≡ true) files
All-of_all p [] h = tt
All-of_all p (file ∷ files) h = (ground arith, All-of_all p files (ground arith))

All-of_none :
    (p : SourceFile → Bool) (files : List SourceFile)
    → any p files ≡ false
    → All (λ file. p file ≡ false) files
All-of_none p [] h = tt
All-of_none p (file ∷ files) h = (ground arith, All-of_none p files (ground arith))

All-both :
    (P Q : SourceFile → Type 0) (files : List SourceFile)
    → All P files
    → All Q files
    → All (λ file. P file × Q file) files
All-both P Q [] h k = tt
All-both P Q (file ∷ files) h k = ((h.0, k.0), All-both P Q files h.1 k.1)

module _ (pinned : String → Result Bool) where
  check_toolchain-ok :
      (files : List SourceFile) {u : Unit}
      → check_toolchain pinned files ≡ ok u
      → All (λ file. (file.path == "ui/package-lock.json") ≡ false) files
  unfolding check_toolchain
  check_toolchain-ok [] h = tt
  check_toolchain-ok (file ∷ files) h =
      let (same, _, h1) =
        >>=-eq-ok (if file.path == "ui/package.json" then pinned file.content else ok true) _ h in
      let (_, _, h2) =
        >>=-eq-ok
          (guard same
            (value_error "Frontend dependencies and scripts must match the pinned toolchain"))
          _ h1 in
      let (_, e, h3) =
        >>=-eq-ok
          (guard (not (file.path == "ui/package-lock.json"))
            (value_error "The dependency lockfile is supplied by the trusted toolchain"))
          _ h2 in
      (ground (arith, e), check_toolchain-ok files h3)

  backend_owned :
      (files : List SourceFile) {u : Unit}
      → validate_source_output pinned "backend-agent" files ≡ ok u
      → All (λ file. is_owned file ≡ true) files
  unfolding validate_source_output
  backend_owned files h =
      All-mono _ _ files (λ file k. ground (arith, k.0, k.1))
        (All-both _ _ files (All-of_all (is_under "backend/") files (ground (arith, h)))
          (All-of_all is_python files (ground (arith, h))))

  tests_owned :
      (files : List SourceFile) {u : Unit}
      → validate_source_output pinned "test-agent" files ≡ ok u
      → All (λ file. is_owned file ≡ true) files
  unfolding validate_source_output
  tests_owned files h =
      All-mono _ _ files (λ file k. ground (arith, k.0, k.1))
        (All-both _ _ files (All-of_all (is_under "tests/") files (ground (arith, h)))
          (All-of_all is_python files (ground (arith, h))))

  check_frontend-ok :
      (files : List SourceFile) {u : Unit}
      → check_frontend pinned files ≡ ok u
      → (any is_vite_config files ≡ false) × (check_toolchain pinned files ≡ ok u)
  unfolding check_frontend
  check_frontend-ok files h =
      let (_, _, h1) =
        >>=-eq-ok
          (guard
            (all (has_path files) ("ui/index.html" ∷ "ui/src/main.tsx" ∷ "ui/tsconfig.json" ∷ []))
            (value_error "Frontend must include index.html, src/main.tsx and tsconfig.json"))
          _ h in
      let (_, e, h2) =
        >>=-eq-ok
          (guard (not (any is_vite_config files))
            (value_error "Vite configuration is supplied by the trusted toolchain"))
          _ h1 in
      (ground (arith, e), h2)

  frontend_owned :
      (files : List SourceFile) {u : Unit}
      → validate_source_output pinned "frontend-agent" files ≡ ok u
      → All (λ file. is_owned file ≡ true) files
  unfolding validate_source_output
  frontend_owned files h =
      let (_, e, h1) =
        >>=-eq-ok
          (guard (all (is_under "ui/") files)
            (value_error (concat "frontend-agent" (concat " may write only " "ui/"))))
          _ h in
      let (no_vite, checked) = check_frontend-ok files h1 in
      All-mono _ _ files (λ file k. ground (arith, k.0, k.1.0, k.1.1))
        (All-both _ _ files (All-of_all (is_under "ui/") files (ground (arith, e))) (
          All-both _ _ files (All-of_none is_vite_config files no_vite)
            (check_toolchain-ok files checked)))

  -- What an agent's output is known by.
  abbrev IsOwner : String → Type 0
  IsOwner agent =
      (files : List SourceFile)
      → validate_source_output pinned agent files ≡ ok tt
      → All (λ file. is_owned file ≡ true) files

  output_of-owned :
      (agent : String) (artifacts : List ContextArtifact) {files : List SourceFile}
      → IsOwner agent
      → output_of pinned agent artifacts ≡ ok files
      → All (λ file. is_owned file ≡ true) files
  unfolding output_of
  output_of-owned agent artifacts {files} owner h =
      let (item, _, h1) =
        >>=-eq-ok (or_raise (latest_change agent artifacts) (key_error agent)) _ h in
      let (out, _, h2) = >>=-eq-ok (validate_source item.content) _ h1 in
      let (u, e, h3) = >>=-eq-ok (validate_source_output pinned agent out) _ h2 in
      let same : out ≡ files = cc h3 in
      subst (All (λ file. is_owned file ≡ true)) same (owner out e)

  merge_each-owned :
      (agents : List String) (artifacts : List ContextArtifact) {files : List SourceFile}
      → All IsOwner agents
      → merge_each pinned agents artifacts ≡ ok files
      → All (λ file. is_owned file ≡ true) files
  unfolding merge_each
  merge_each-owned [] artifacts {files} owners h =
      let same : [] ≡ files = cc h in subst (All (λ file. is_owned file ≡ true)) same tt
  merge_each-owned (agent ∷ agents) artifacts {files} owners h =
      let (first, e, h1) = >>=-eq-ok (output_of pinned agent artifacts) _ h in
      let (rest, e', h2) = >>=-eq-ok (merge_each pinned agents artifacts) _ h1 in
      let same : first ++ rest ≡ files = cc h2 in
      subst (All (λ file. is_owned file ≡ true)) same (
        All-append _ first rest (output_of-owned agent artifacts owners.0 e)
          (merge_each-owned agents artifacts owners.1 e'))

  source_bundle-bounds :
      (files : List SourceFile) {out : List SourceFile}
      → source_bundle files ≡ ok out
      → (files ≡ out)
        × (length files ≤ 50)
        × (has_duplicate (map (λ (file : SourceFile). file.path) files) ≡ false)
        × (total_bytes files ≤ 262144)
  unfolding source_bundle
  source_bundle-bounds files h =
      (ground (arith, h), ground (arith, h), ground (arith, h), ground (arith, h))

  -- Integration lets through only files in the directory of an implementer, with Python alone from
  -- the backend and the tests and no build configuration or lockfile from the front end; and at most
  -- fifty files of at most 256 KiB in all, of which no two have one path.
  pub merge_sources-is_owned :
      (artifacts : List ContextArtifact) {files : List SourceFile}
      → merge_sources pinned artifacts ≡ ok files
      → All (λ file. is_owned file ≡ true) files
        × (length files ≤ 50)
        × (has_duplicate (map (λ (file : SourceFile). file.path) files) ≡ false)
        × (total_bytes files ≤ 262144)
  unfolding merge_sources
  merge_sources-is_owned artifacts {files} h =
      let (_, _, h1) =
        >>=-eq-ok
          (guard (is_complete artifacts)
            (value_error "Integration requires source from all three implementation agents"))
          _ h in
      let (merged, e, h2) = >>=-eq-ok (merge_each pinned implementers artifacts) _ h1 in
      let (same, few, unique, small) = source_bundle-bounds merged h2 in
      subst
        (λ fs.
          All (λ file. is_owned file ≡ true) fs
          × (length fs ≤ 50)
          × (has_duplicate (map (λ (file : SourceFile). file.path) fs) ≡ false)
          × (total_bytes fs ≤ 262144))
        same
        (
          merge_each-owned implementers artifacts
              (
                λ fs k. backend_owned fs k,
                (λ fs k. frontend_owned fs k, (λ fs k. tests_owned fs k, tt)),
              )
              e,
          few,
          unique,
          small,
        )
