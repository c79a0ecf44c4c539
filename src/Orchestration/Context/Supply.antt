-- ===== src/Orchestration/Context/Supply.antt =====
-- When the projection of src/aidlc/orchestration/context.py succeeds.
use multi_agent_aidlc.Common.{
  String, ◌≡◌, ◌∙◌, ◌↔◌, refl, Bool, true, false, not, ◌&&◌, ◌||◌, List, [], ◌∷◌, ◌++◌, ok,
  >>=-eq-ok, arith, select, any, all, is_empty, Bool-cases, inl, inr, codes, ◌==◌, string_eq,
  if◌then◌else◌,
}
use multi_agent_aidlc.Domain.{ContextArtifact}
use multi_agent_aidlc.Agents.{AgentSpec, ArtifactInput}
use multi_agent_aidlc.Orchestration.Context.{
  matches, is_kind, put_producer, put_each, before_or_same, latest_by_producer, or_fallback, pick,
  candidates, select_inputs, select_agent_artifacts,
}
use multi_agent_aidlc.Orchestration.Context.Contract.{fits}

-- Every required dependency has an artifact that fits it.
abbrev pub is_supplied : List ArtifactInput → List ContextArtifact → Bool
is_supplied inputs artifacts =
    all (λ dependency. not dependency.required || any (fits dependency) artifacts) inputs

is_empty-put_producer :
    (item : ContextArtifact) (kept : List ContextArtifact)
    → is_empty (put_producer item kept) ≡ false
is_empty-put_producer item [] = refl
is_empty-put_producer item (other ∷ others) =
    step (item.metadata.producing_agent == other.metadata.producing_agent)
      (before_or_same (codes item.metadata.producing_agent) (codes other.metadata.producing_agent))
  where
    step :
        (a b : Bool)
        → is_empty (
            if a
            then item ∷ others
            else if b
            then item ∷ other ∷ others
            else other ∷ put_producer item others)
          ≡ false
    step true b = refl
    step false true = refl
    step false false = refl

is_empty-put_each :
    (items kept : List ContextArtifact)
    → is_empty (put_each items kept) ≡ (is_empty items && is_empty kept)
is_empty-put_each [] kept = refl
is_empty-put_each (item ∷ rest) kept =
    is_empty-put_each rest (put_producer item kept)
    ∙ ground (arith, is_empty-put_producer item kept)

is_empty-select :
    (p : ContextArtifact → Bool) (items : List ContextArtifact)
    → is_empty (select p items) ≡ not (any p items)
is_empty-select p [] = refl
is_empty-select p (item ∷ items) = ground (arith, is_empty-select p items)

any-or :
    (p q : ContextArtifact → Bool) (items : List ContextArtifact)
    → any (λ item. p item || q item) items ≡ (any p items || any q items)
any-or p q [] = refl
any-or p q (item ∷ items) = ground (arith, any-or p q items)

is_empty-or_fallback :
    (items fallback : List ContextArtifact)
    → is_empty (or_fallback items fallback) ≡ (is_empty items && is_empty fallback)
is_empty-or_fallback [] fallback = refl
is_empty-or_fallback (item ∷ items) fallback = refl

is_empty-candidates :
    (dependency : ArtifactInput) (artifacts : List ContextArtifact)
    → is_empty (candidates dependency artifacts) ≡ not (any (fits dependency) artifacts)
unfolding candidates latest_by_producer
is_empty-candidates dependency artifacts =
    let direct = λ (item : ContextArtifact). matches item dependency in
    let fallback = is_kind dependency.fallback_kind in
    rw
      (
        is_empty-or_fallback (select direct artifacts) (put_each (select fallback artifacts) []),
        is_empty-put_each (select fallback artifacts) [],
        is_empty-select direct artifacts,
        is_empty-select fallback artifacts,
        any-or direct fallback artifacts,
      )
      (ground arith)

pick-ok :
    (agent : String) (dependency : ArtifactInput) (items : List ContextArtifact)
    → (not dependency.required || not (is_empty items)) ≡ true
    → (selected : List ContextArtifact) × (pick agent dependency items ≡ ok selected)
unfolding pick
pick-ok agent dependency [] h =
    let optional : dependency.required ≡ false = ground arith in ([], rw optional refl)
pick-ok agent dependency (item ∷ items) h =
    elim (Bool-cases (is_kind dependency.fallback_kind item)) [
      | inl fallback ↦ rw fallback (_, refl)
      | inr direct ↦ rw direct (_, refl)
    ]

pick-fails :
    (agent : String) (dependency : ArtifactInput) (items : List ContextArtifact)
    {selected : List ContextArtifact}
    → pick agent dependency items ≡ ok selected
    → (not dependency.required || not (is_empty items)) ≡ true
unfolding pick
pick-fails agent dependency [] h = elim (Bool-cases dependency.required) [
  | inl required ↦ cc (rw required at h)
  | inr optional ↦ rw optional refl
]
pick-fails agent dependency (item ∷ items) h = ground arith

both : (a b : Bool) → a ≡ true → b ≡ true → (a && b) ≡ true
both a b h k = ground arith

select_inputs-ok :
    (agent : String) (inputs : List ArtifactInput) (artifacts : List ContextArtifact)
    → is_supplied inputs artifacts ≡ true
    → (selected : List ContextArtifact) × (select_inputs agent inputs artifacts ≡ ok selected)
unfolding select_inputs
select_inputs-ok agent [] artifacts h = ([], refl)
select_inputs-ok agent (dependency ∷ inputs) artifacts h =
    let (taken, e) =
      pick-ok agent dependency (candidates dependency artifacts)
        (rw (is_empty-candidates dependency artifacts) (ground arith)) in
    let (rest, e') = select_inputs-ok agent inputs artifacts (ground arith) in
    (taken ++ rest, rw (e, e') refl)

select_inputs-supplied :
    (agent : String) (inputs : List ArtifactInput) (artifacts : List ContextArtifact)
    {selected : List ContextArtifact}
    → select_inputs agent inputs artifacts ≡ ok selected
    → is_supplied inputs artifacts ≡ true
unfolding select_inputs
select_inputs-supplied agent [] artifacts h = refl
select_inputs-supplied agent (dependency ∷ inputs) artifacts h =
    let (taken, e1, e2) = >>=-eq-ok (pick agent dependency (candidates dependency artifacts)) _ h in
    let (rest, e3, e4) = >>=-eq-ok (select_inputs agent inputs artifacts) _ e2 in
    let filled = pick-fails agent dependency (candidates dependency artifacts) e1 in
    both _ _ (ground (arith, filled, is_empty-candidates dependency artifacts))
      (select_inputs-supplied agent inputs artifacts e3)

-- The projection succeeds exactly when every dependency that the agent requires has an artifact of
-- its kind and producer, or of the fallback kind that it declares.
pub select_agent_artifacts-is_supplied :
    (spec : AgentSpec) (artifacts : List ContextArtifact)
    → ((selected : List ContextArtifact) × (select_agent_artifacts spec artifacts ≡ ok selected))
      ↔ (is_supplied spec.inputs artifacts ≡ true)
unfolding select_agent_artifacts
select_agent_artifacts-is_supplied spec artifacts = (
  λ h. select_inputs-supplied spec.name spec.inputs artifacts h.1,
  λ h. select_inputs-ok spec.name spec.inputs artifacts h,
)
