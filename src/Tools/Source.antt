-- ===== src/Tools/Source.antt =====
-- `SourceFile` and `SourceBundle` of src/aidlc/tools/models.py, with their validators.
use Prim.Native.String.{count, len}
use multi_agent_aidlc.Common.{
  ℕ, ◌+◌, String, Bool, true, false, not, ◌&&◌, ◌||◌, Option, none, some, List, [], ◌∷◌, map, Json,
  str, arr, obj, Items, nil, cons, Fields, end, field, get_field, Result, ok, err, value_error,
  ◌>>=◌, ◌>>◌, guard, any, length, leb, nat_beq, if◌then◌else◌, ◌==◌, string_eq, codes, split_on,
  same_codes,
}

pub record SourceFile : Type 0 where
  pub path : String
  pub content : String

abbrev starts_with_dot : List ℕ → Bool
starts_with_dot [] = false
starts_with_dot (c ∷ _) = nat_beq c b'.'

abbrev is_absolute : List ℕ → Bool
is_absolute [] = false
is_absolute (c ∷ _) = nat_beq c b'/'

-- `PurePosixPath(value).name` of a path with no empty part: the last part
abbrev last_part : List (List ℕ) → List ℕ
last_part [] = []
last_part (part ∷ []) = part
last_part (part ∷ next ∷ parts) = last_part (next ∷ parts)

abbrev is_none : Option (List ℕ) → Bool
is_none none = true
is_none (some _) = false

abbrev or_else : Option (List ℕ) → Option (List ℕ) → Option (List ℕ)
or_else none b = b
or_else (some a) b = some a

-- The text from the last dot on.
abbrev after_last_dot : List ℕ → Option (List ℕ)
after_last_dot [] = none
after_last_dot (c ∷ cs) =
    or_else (after_last_dot cs) (if nat_beq c b'.' then some (c ∷ cs) else none)

-- `path.suffix` of a name that does not begin with a dot
abbrev suffix : List ℕ → List ℕ
suffix name = elim (after_last_dot name) [ none ↦ [] | some s ↦ s ]

abbrev suffixes : List (List ℕ)
suffixes =
    codes ".py"
    ∷ codes ".ts"
    ∷ codes ".tsx"
    ∷ codes ".js"
    ∷ codes ".jsx"
    ∷ codes ".mjs"
    ∷ codes ".json"
    ∷ codes ".html"
    ∷ codes ".css"
    ∷ codes ".md"
    ∷ codes ".txt"
    ∷ []

abbrev build_output : List (List ℕ)
build_output = codes "node_modules" ∷ codes "dist" ∷ codes "__pycache__" ∷ []

abbrev among : List (List ℕ) → List ℕ → Bool
among names name = any (same_codes name) names

-- The condition of `safe_source_path` under which the path is refused.
unfoldable pub unsafe_path : List ℕ → Bool
unsafe_path value =
    let parts = split_on b'/' value in
    is_absolute value
    || (any (λ c. nat_beq c 92 || (nat_beq c b':' || nat_beq c 0)) value
        || (any (λ part. starts_with_dot part || nat_beq (length part) 0) parts
            || (not (among suffixes (suffix (last_part parts))) || any (among build_output) parts)))

unfoldable pub source_file : String → String → Result SourceFile
unfolding unsafe_path
source_file path content = do
  guard (leb 1 (count path) && leb (count path) 200) (value_error "path length")
  guard (leb (count content) 65536) (value_error "content length")
  guard (not (unsafe_path (codes path)))
      (value_error "Expected a relative source file path without traversal or build output")
  ok (record { path = path; content = content })

abbrev only_keys : Fields → Bool
only_keys end = true
only_keys (field key _ rest) = (key == "path" || key == "content") && only_keys rest

-- `SourceFile.model_validate(value)`, where extra keys are forbidden
unfoldable pub validate_file : Json → Result SourceFile
unfolding source_file
validate_file (obj fields) = elim (get_field fields "path") [
  | some (str path) ↦ elim (get_field fields "content") [
    | some (str content) ↦
        if only_keys fields
        then source_file path content
        else err (value_error "extra fields not permitted")
    | _ ↦ err (value_error "content")
  ]
  | _ ↦ err (value_error "path")
]
validate_file _ = err (value_error "not an object")

unfoldable pub validate_files : Items → Result (List SourceFile)
unfolding validate_file
validate_files nil = ok []
validate_files (cons value rest) = do
  file ← validate_file value
  files ← validate_files rest
  ok (file ∷ files)

-- `len(set(paths)) != len(paths)`
unfoldable pub has_duplicate : List String → Bool
has_duplicate [] = false
has_duplicate (p ∷ ps) = any (λ q. q == p) ps || has_duplicate ps

unfoldable pub total_bytes : List SourceFile → ℕ
total_bytes [] = 0
total_bytes (f ∷ fs) = len f.content + total_bytes fs

-- `SourceBundle(files=files)`: the bounds of the field, then `bounded_bundle`
unfoldable pub source_bundle : List SourceFile → Result (List SourceFile)
unfolding has_duplicate total_bytes
source_bundle files = do
  guard (leb 1 (length files) && leb (length files) 50) (value_error "files length")
  guard (not (has_duplicate (map (λ f. f.path) files))) (value_error "Duplicate source paths")
  guard (leb (total_bytes files) 262144) (value_error "Source bundle exceeds 256 KiB")
  ok files

-- `SourceBundle.model_validate({"files": value})`
unfoldable pub validate_bundle : Option Json → Result (List SourceFile)
unfolding validate_files source_bundle
validate_bundle (some (arr items)) = do files ← validate_files items; source_bundle files
validate_bundle _ = err (value_error "files")

abbrev only_files : Fields → Bool
only_files end = true
only_files (field key _ rest) = key == "files" && only_files rest

-- `SourceBundle.model_validate(content)`, where extra keys are forbidden
unfoldable pub validate_source : Json → Result (List SourceFile)
unfolding validate_bundle
validate_source (obj fields) =
    if only_files fields
    then validate_bundle (get_field fields "files")
    else err (value_error "extra fields not permitted")
validate_source _ = err (value_error "not an object")
