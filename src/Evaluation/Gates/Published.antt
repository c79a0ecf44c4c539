-- ===== src/Evaluation/Gates/Published.antt =====
-- The reports that the artifacts publish on a source, in their contents or in lists there.
use mathlib.Core.Path.{subst}
use mathlib.Core.List.{Memᴰ}
use multi_agent_aidlc.Common.{
  String, ◌≡◌, inl, inr, refl, none, some, List, [], ◌∷◌, ◌⊎◌, Json, null, bool, num, arr, obj, str,
  Items, nil, cons, get, is_str, is_str-eq, Bool-cases, Option-cases, All, All-mono, All-append,
  ◌∙◌, eq_of_beq, ◌==◌, string_eq, nat_eq,
}
use multi_agent_aidlc.Domain.{ArtifactKind, artifact_kind_eq, ContextArtifact}
use multi_agent_aidlc.Evaluation.Gates.{source_key, last_of, naming, candidates, reports_of}

-- The report stands in the list.
pub data Listed (report : Json) : Items → Type 0 where
  first : (reports : Items) → Listed report (cons report reports)
  later :
      (other : Json) (reports : Items) → Listed report reports → Listed report (cons other reports)

-- The content is the report, or has it in its list `reports`.
pub IsReportOf : (content report : Json) → Type 0
IsReportOf content report =
    ((get content "reports" ≡ none) × (report ≡ content))
    ⊎ ((reports : Items) × (get content "reports" ≡ some (arr reports)) × Listed report reports)

-- The report is published in one of the artifacts, of the kind, and names the source.
pub record IsNamed (kind : ArtifactKind) (source_id : String) (artifacts : List ContextArtifact)
    (artifact : ContextArtifact) (report : Json) : Type 0 where
  pub among : Memᴰ artifact artifacts
  pub is_kind : artifact.metadata.kind ≡ kind
  pub published : IsReportOf artifact.content report
  pub names : get report (source_key kind) ≡ some (str source_id)

not-Listed : {report : Json} → ¬ (Listed report nil)
not-Listed listed = elim listed [ ]

sole-Listed : {report other : Json} → Listed report (cons other nil) → report ≡ other
sole-Listed (first _) = refl
sole-Listed (later other reports listed) = absurd (not-Listed listed)

reports_of-IsReportOf :
    (content report : Json) → Listed report (reports_of content) → IsReportOf content report
unfolding IsReportOf
reports_of-IsReportOf content report listed = elim (Option-cases (get content "reports")) [
  | inl nothing ↦ inl (nothing, sole-Listed (rw nothing at listed))
  | inr (value, e) ↦ of_value value e listed
]
  where
    of_value :
        (value : Json)
        → get content "reports" ≡ some value
        → Listed report (reports_of content)
        → IsReportOf content report
    of_value (arr reports) e m = inr (reports, e, rw e at m)
    of_value null e m = absurd (not-Listed (rw e at m))
    of_value (bool b) e m = absurd (not-Listed (rw e at m))
    of_value (num n) e m = absurd (not-Listed (rw e at m))
    of_value (str s) e m = absurd (not-Listed (rw e at m))
    of_value (obj fields) e m = absurd (not-Listed (rw e at m))

module _ (kind : ArtifactKind) where
  unfoldable pub Named :
      (source_id : String) → List ContextArtifact → ContextArtifact × Json → Type 0
  Named source_id artifacts found = IsNamed kind source_id artifacts found.0 found.1

  pub All_last :
      (P : ContextArtifact × Json → Type 0) (found : List (ContextArtifact × Json))
      {x : ContextArtifact × Json}
      → All P found
      → last_of found ≡ some x
      → P x
  All_last P (y ∷ ys) h e = elim (Option-cases (last_of ys)) [
    | inl nothing ↦ subst P (cc (rw nothing at e)) h.0
    | inr (z, found) ↦ All_last P ys h.1 (found ∙ (rw found at e))
  ]
  All_last P [] h e = cc e

  naming-Named :
      (id : String) (artifacts : List ContextArtifact) (artifact : ContextArtifact)
      (reports : Items)
      → Memᴰ artifact artifacts
      → artifact.metadata.kind ≡ kind
      → ((report : Json) → Listed report reports → IsReportOf artifact.content report)
      → All (Named id artifacts) (naming (source_key kind) id artifact reports)
  unfolding Named
  naming-Named id artifacts artifact nil among same within = tt
  naming-Named id artifacts artifact (cons report reports) among same within =
      let rest =
        naming-Named id artifacts artifact reports among same
          (λ other m. within other (later report reports m)) in
      elim (Bool-cases (is_str (get report (source_key kind)) id)) [
        | inl hit ↦ rw hit (
          record {
            among = among;
            is_kind = same;
            published = within report (first reports);
            names = is_str-eq (get report (source_key kind)) id hit;
          },
          rest,
        )
        | inr miss ↦ rw miss rest
      ]

  pub candidates-Named :
      (id : String) (artifacts : List ContextArtifact)
      → All (Named id artifacts) (candidates kind id artifacts)
  unfolding Named candidates
  candidates-Named id [] = tt
  candidates-Named id (artifact ∷ artifacts) =
      let later_ones : All (Named id (artifact ∷ artifacts)) (candidates kind id artifacts) =
        All-mono (Named id artifacts) (Named id (artifact ∷ artifacts))
          (candidates kind id artifacts)
          (λ found h. record {
            among = Memᴰ.tail h.among;
            is_kind = h.is_kind;
            published = h.published;
            names = h.names;
          })
          (candidates-Named id artifacts) in
      elim (Bool-cases (artifact.metadata.kind == kind)) [
        | inl same ↦ rw same (
            All-append (Named id (artifact ∷ artifacts)) _ _
              (naming-Named id (artifact ∷ artifacts) artifact (reports_of artifact.content)
                (Memᴰ.head refl) (eq_of_beq artifact.metadata.kind kind same)
                (λ report. reports_of-IsReportOf artifact.content report))
              later_ones)
        | inr other ↦ rw other later_ones
      ]
