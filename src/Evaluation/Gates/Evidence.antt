-- ===== src/Evaluation/Gates/Evidence.antt =====
-- What a gate that passed says of the evidence for each of its sources.
use mathlib.Core.Path.{subst}
use mathlib.Core.List.{Memᴰ}
use mathlib.Core.Option.{some-injective}
use multi_agent_aidlc.Common.{
  String, ◌≡◌, inl, inr, refl, sym, ap, arith, Bool, true, false, Option, none, some, List, [], ◌∷◌,
  ◌⊎◌, ◌&&◌, Json, bool, num, str, get, is_str, is_str-eq, ok, if◌then◌else◌, guard, or_raise,
  >>=-eq-ok, Bool-cases, Result-cases, All, ◌∙◌, any, all, select, eq_of_beq, ◌==◌, string_eq,
  nat_eq,
}
use multi_agent_aidlc.Domain.{ArtifactKind, artifact_kind_eq, ContextArtifact}
use multi_agent_aidlc.Evaluation.{GateStatus}
use multi_agent_aidlc.Evaluation.Gates.Checks.{Checked, check-Checked, guard-ok, or_raise-ok}
use multi_agent_aidlc.Evaluation.Gates.Published.{IsNamed, Named, All_last, candidates-Named}
use multi_agent_aidlc.Evaluation.Gates.{
  Validators, Finding, has_text, id_of, hash_key, trusted_producer, is_missing, is_failed, judge,
  finding_of, check_report, check_analysis, check_sandbox, is_isolated, execution_gate, status_of,
  is_zero, is_bool,
}

has_text-Mem : (text : String) (texts : List String) → has_text text texts ≡ true → Memᴰ text texts
has_text-Mem text [] h = cc h
has_text-Mem text (t ∷ ts) h = elim (Bool-cases (t == text)) [
  | inl same ↦ Memᴰ.head (sym (eq_of_beq t text same))
  | inr other ↦ Memᴰ.tail (has_text-Mem text ts (rw other at h))
]

module _ {ℓ} {A : Type ℓ} where
  pub all-Mem : (p : A → Bool) (xs : List A) {x : A} → all p xs ≡ true → Memᴰ x xs → p x ≡ true
  all-Mem p [] h m = elim m [ ]
  all-Mem p (y ∷ ys) h (Memᴰ.head e) = subst (λ z. p z ≡ true) (sym e) (ground (arith, h))
  all-Mem p (y ∷ ys) h (Memᴰ.tail m) = all-Mem p ys (ground (arith, h)) m

  pub any-Mem : (p : A → Bool) (xs : List A) {x : A} → any p xs ≡ false → Memᴰ x xs → p x ≡ false
  any-Mem p [] h m = elim m [ ]
  any-Mem p (y ∷ ys) h (Memᴰ.head e) = subst (λ z. p z ≡ false) (sym e) (ground (arith, h))
  any-Mem p (y ∷ ys) h (Memᴰ.tail m) = any-Mem p ys (ground (arith, h)) m

  pub select-Mem :
      (p : A → Bool) (xs : List A) {x : A} → p x ≡ true → Memᴰ x xs → Memᴰ x (select p xs)
  select-Mem p [] px m = elim m [ ]
  select-Mem p (y ∷ ys) {x} px (Memᴰ.head e) = elim (Bool-cases (p y)) [
    | inl hit ↦ rw hit (Memᴰ.head e)
    | inr miss ↦ absurd (cc (px, e, miss))
  ]
  select-Mem p (y ∷ ys) px (Memᴰ.tail m) = elim (Bool-cases (p y)) [
    | inl hit ↦ rw hit (Memᴰ.tail (select-Mem p ys px m))
    | inr miss ↦ rw miss (select-Mem p ys px m)
  ]

module _ {ℓ κ} {A : Type ℓ} (P : A → Type κ) where
  pub All-Mem : (xs : List A) → ((x : A) → Memᴰ x xs → P x) → All P xs
  All-Mem [] h = tt
  All-Mem (x ∷ xs) h = (h x (Memᴰ.head refl), All-Mem xs (λ y m. h y (Memᴰ.tail m)))

-- The execution left with 0, in time, in its memory and with its whole output, and was cleaned up.
pub record IsClean (execution : Json) : Type 0 where
  pub exit_code :
      (get execution "exit_code" ≡ some (num 0)) ⊎ (get execution "exit_code" ≡ some (bool false))
  pub cleanup : get execution "cleanup_succeeded" ≡ some (bool true)
  pub in_time : get execution "timed_out" ≡ some (bool false)
  pub whole : get execution "output_truncated" ≡ some (bool false)
  pub in_memory : get execution "oom_killed" ≡ some (bool false)

-- A report in the artifact is evidence of the kind for the source.
pub record IsEvidence (validators : Validators) (kind : ArtifactKind) (runtime : String)
    (source artifact : ContextArtifact) (report : Json) : Type 0 where
  pub hash : get report (hash_key kind) ≡ some (str source.metadata.content_sha256)
  pub parent : Memᴰ (id_of source) artifact.metadata.parent_artifact_ids
  pub producer : artifact.metadata.producing_agent ≡ trusted_producer kind
  pub completed : get report "status" ≡ some (str "completed")
  pub execution : Json
  pub executed : get report "execution" ≡ some execution
  pub isolated : get execution "runtime" ≡ some (str runtime)
  pub clean : IsClean execution
  pub checked : Checked validators kind source artifact report

-- Some artifact of the kind holds evidence for the source.
pub HasEvidence :
    Validators → ArtifactKind → (runtime : String) → List ContextArtifact → ContextArtifact → Type 0
HasEvidence validators kind runtime artifacts source =
    (artifact : ContextArtifact) × (report : Json) × IsNamed kind (id_of source) artifacts artifact
      report
    × IsEvidence validators kind runtime source artifact report

&&-parts :
    (a b c d e f g h : Bool)
    → (a && (b && (c && (d && (e && (f && (g && h))))))) ≡ true
    → (a ≡ true) × (b ≡ true) × (c ≡ true) × (d ≡ true) × (e ≡ true) × (f ≡ true) × (g ≡ true)
&&-parts true true true true true true true h k = (refl, refl, refl, refl, refl, refl, refl)
&&-parts false b c d e f g h k = cc k
&&-parts true false c d e f g h k = cc k
&&-parts true true false d e f g h k = cc k
&&-parts true true true false e f g h k = cc k
&&-parts true true true true false f g h k = cc k
&&-parts true true true true true false g h k = cc k
&&-parts true true true true true true false h k = cc k

is_bool-eq : (b : Bool) (value : Option Json) → is_bool b value ≡ true → value ≡ some (bool b)
is_bool-eq true (some (bool true)) h = refl
is_bool-eq true (some (bool false)) h = cc h
is_bool-eq false (some (bool false)) h = refl
is_bool-eq false (some (bool true)) h = cc h
is_bool-eq true none h = cc h
is_bool-eq false none h = cc h
is_bool-eq true (some _) h = cc h
is_bool-eq false (some _) h = cc h

is_zero-eq :
    (value : Option Json)
    → is_zero value ≡ true
    → (value ≡ some (num 0)) ⊎ (value ≡ some (bool false))
is_zero-eq (some (num n)) h = inl (ap (λ m. some (num m)) (eq_of_beq n 0 h))
is_zero-eq (some (bool false)) h = inr refl
is_zero-eq (some (bool true)) h = cc h
is_zero-eq none h = cc h
is_zero-eq (some _) h = cc h

module _ (validators : Validators) (runtime : String) where
  -- A finding without a complaint comes from a report that passes its checks.
  finding_of-fine :
      (kind : ArtifactKind) (source : ContextArtifact) (found : Option (ContextArtifact × Json))
      → finding_of validators kind runtime source found ≡ Finding.fine
      → (artifact : ContextArtifact) × (report : Json) × (found ≡ some (artifact, report))
        × (check_report validators kind source artifact report runtime ≡ ok tt)
  finding_of-fine kind source none h = cc h
  finding_of-fine kind source (some (artifact, report)) h =
      elim (Result-cases (check_report validators kind source artifact report runtime)) [
        | inl (u, passes) ↦ (artifact, report, refl, passes)
        | inr (e, fails) ↦ cc (rw (fails, finding_of) at h)
      ]

  is_isolated-facts :
      (status execution : Json)
      → is_isolated validators runtime status execution ≡ true
      → (status ≡ str "completed")
        × (get execution "runtime" ≡ some (str runtime))
        × IsClean execution
  unfolding is_isolated
  is_isolated-facts status execution h =
      let parts : (is_str (some status) "completed" ≡ true)
          × (is_str (get execution "runtime") runtime ≡ true)
          × (is_zero (get execution "exit_code") ≡ true)
          × (is_bool true (get execution "cleanup_succeeded") ≡ true)
          × (is_bool false (get execution "timed_out") ≡ true)
          × (is_bool false (get execution "output_truncated") ≡ true)
          × (is_bool false (get execution "oom_killed") ≡ true) =
        (&&-parts _ _ _ _ _ _ _ _ h) in
      (
        some-injective status (str "completed") (is_str-eq (some status) "completed" parts.0),
        is_str-eq (get execution "runtime") runtime parts.1,
        record {
          exit_code = is_zero-eq _ parts.2;
          cleanup = is_bool-eq true _ parts.3;
          in_time = is_bool-eq false _ parts.4;
          whole = is_bool-eq false _ parts.5;
          in_memory = is_bool-eq false _ parts.6;
        },
      )

  check_report-IsEvidence :
      (kind : ArtifactKind) (source artifact : ContextArtifact) (report : Json)
      → check_report validators kind source artifact report runtime ≡ ok tt
      → IsEvidence validators kind runtime source artifact report
  unfolding check_report
  check_report-IsEvidence kind source artifact report h =
      let (hash, hashed, h1) = >>=-eq-ok (or_raise (get report (hash_key kind)) _) _ h in
      let (_, matches, h2) =
        >>=-eq-ok (guard (is_str (some hash) source.metadata.content_sha256) _) _ h1 in
      let (_, parent, h3) =
        >>=-eq-ok (guard (has_text (id_of source) artifact.metadata.parent_artifact_ids) _) _ h2 in
      let (_, producer, h4) =
        >>=-eq-ok (guard (artifact.metadata.producing_agent == trusted_producer kind) _) _ h3 in
      let (_, by_kind, h5) =
        >>=-eq-ok
          (if kind == ArtifactKind.static_analysis_report
            then check_analysis validators source report
            else check_sandbox validators kind artifact report)
          _ h4 in
      let (execution, executed, h6) = >>=-eq-ok (or_raise (get report "execution") _) _ h5 in
      let (_, _, h7) = >>=-eq-ok (validators.sandbox_execution execution) _ h6 in
      let (status, stated, h8) = >>=-eq-ok (or_raise (get report "status") _) _ h7 in
      let facts = is_isolated-facts status execution (guard-ok _ _ h8) in
      record {
        hash =
            or_raise-ok _ _ hashed
            ∙ is_str-eq (some hash) source.metadata.content_sha256 (guard-ok _ _ matches);
        parent =
            has_text-Mem (id_of source) artifact.metadata.parent_artifact_ids (guard-ok _ _ parent);
        producer =
            eq_of_beq artifact.metadata.producing_agent (trusted_producer kind)
              (guard-ok _ _ producer);
        completed = or_raise-ok _ _ stated ∙ ap (λ s. some s) facts.0;
        execution = execution;
        executed = or_raise-ok _ _ executed;
        isolated = facts.1;
        clean = facts.2;
        checked = check-Checked validators kind source artifact report by_kind;
      }

  judge-fine :
      (kind : ArtifactKind) (artifacts : List ContextArtifact) (source : ContextArtifact)
      → judge validators kind runtime artifacts source ≡ Finding.fine
      → HasEvidence validators kind runtime artifacts source
  unfolding judge HasEvidence Named
  judge-fine kind artifacts source h =
      let (artifact, report, found, passes) = finding_of-fine kind source _ h in
      (
        artifact,
        report,
        All_last kind (Named kind (id_of source) artifacts) _
            (candidates-Named kind (id_of source) artifacts) found,
        check_report-IsEvidence kind source artifact report passes,
      )

  fine_of_tests :
      (finding : Finding)
      → is_missing finding ≡ false
      → is_failed finding ≡ false
      → finding ≡ Finding.fine
  fine_of_tests Finding.missing h1 h2 = cc h1
  fine_of_tests (Finding.failed e) h1 h2 = cc h2
  fine_of_tests Finding.fine h1 h2 = refl

  status_of-passed :
      (missing_any failed_any : Bool)
      → status_of validators missing_any failed_any ≡ GateStatus.passed
      → (missing_any ≡ false) × (failed_any ≡ false)
  status_of-passed true failed_any h = cc h
  status_of-passed false true h = cc h
  status_of-passed false false h = (refl, refl)

  -- A gate that passed has evidence for each of its sources.
  pub execution_gate-evidence :
      (name : String) (kind : ArtifactKind) (sources artifacts : List ContextArtifact)
      (ready : Bool) (source : ContextArtifact)
      → (execution_gate validators name kind sources artifacts runtime ready).status
        ≡ GateStatus.passed
      → Memᴰ source sources
      → HasEvidence validators kind runtime artifacts source
  unfolding execution_gate
  execution_gate-evidence name kind sources artifacts false source h m = cc h
  execution_gate-evidence name kind sources artifacts true source h m =
      let none_so = status_of-passed _ _ h in
      judge-fine kind artifacts source (
        fine_of_tests (judge validators kind runtime artifacts source)
          (any-Mem (λ s. is_missing (judge validators kind runtime artifacts s)) sources none_so.0
            m)
          (any-Mem (λ s. is_failed (judge validators kind runtime artifacts s)) sources none_so.1
            m))
