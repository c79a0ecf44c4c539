-- ===== src/Orchestration/Context/Contract.antt =====
-- What the projection of src/aidlc/orchestration/context.py gives an agent, and when it fails.
use mathlib.Core.Path.{subst}
use multi_agent_aidlc.Common.{
  String, ◌≡◌, Bool, true, false, ◌||◌, List, [], ◌∷◌, ◌++◌, ok, >>=-eq-ok, arith, select, any, All,
  All-append, All-mono, Bool-cases, inl, inr, codes, ◌==◌, string_eq, if◌then◌else◌,
}
use multi_agent_aidlc.Domain.{ContextArtifact}
use multi_agent_aidlc.Agents.{AgentSpec, ArtifactInput}
use multi_agent_aidlc.Orchestration.Context.{
  matches, is_kind, put_producer, put_each, before_or_same, latest_by_producer, or_fallback, last,
  pick, candidates, select_inputs, select_agent_artifacts,
}

-- The item fits the dependency, or the fallback that it declares.
abbrev pub fits : ArtifactInput → ContextArtifact → Bool
fits dependency item = matches item dependency || is_kind dependency.fallback_kind item

abbrev pub is_declared : List ArtifactInput → ContextArtifact → Bool
is_declared inputs item = any (λ dependency. fits dependency item) inputs

module _ {ℓ} (P : ContextArtifact → Type ℓ) where
  All-put_producer :
      (item : ContextArtifact) (kept : List ContextArtifact)
      → P item
      → All P kept
      → All P (put_producer item kept)
  All-put_producer item [] h hs = (h, tt)
  All-put_producer item (other ∷ others) h hs =
      step (All-put_producer item others h hs.1)
        (item.metadata.producing_agent == other.metadata.producing_agent)
        (before_or_same (codes item.metadata.producing_agent)
          (codes other.metadata.producing_agent))
    where
      step :
          All P (put_producer item others)
          → (a b : Bool)
          → All P (
              if a
              then item ∷ others
              else if b
              then item ∷ other ∷ others
              else other ∷ put_producer item others)
      step rest true b = (h, hs.1)
      step rest false true = (h, hs)
      step rest false false = (hs.0, rest)

  All-put_each :
      (items kept : List ContextArtifact) → All P items → All P kept → All P (put_each items kept)
  All-put_each [] kept h k = k
  All-put_each (item ∷ rest) kept h k =
      All-put_each rest (put_producer item kept) h.1 (All-put_producer item kept h.0 k)

  -- A selection satisfies its test too.
  All-select_test :
      (p : ContextArtifact → Bool) (items : List ContextArtifact)
      → All P items
      → All (λ item. P item × (p item ≡ true)) (select p items)
  All-select_test p [] h = tt
  All-select_test p (item ∷ items) h = elim (Bool-cases (p item)) [
    | inl kept ↦ rw kept ((h.0, kept), All-select_test p items h.1)
    | inr dropped ↦ rw dropped (All-select_test p items h.1)
  ]

  All-or_fallback :
      (items fallback : List ContextArtifact)
      → All P items
      → All P fallback
      → All P (or_fallback items fallback)
  All-or_fallback [] fallback h k = k
  All-or_fallback (item ∷ items) fallback h k = h

  All-last :
      (item : ContextArtifact) (items : List ContextArtifact)
      → P item
      → All P items
      → P (last item items)
  All-last item [] h hs = h
  All-last item (other ∷ others) h hs = All-last other others hs.0 hs.1

  All-pick :
      (agent : String) (dependency : ArtifactInput) (items : List ContextArtifact)
      {selected : List ContextArtifact}
      → All P items
      → pick agent dependency items ≡ ok selected
      → All P selected
  unfolding pick
  All-pick agent dependency [] h e = elim (Bool-cases dependency.required) [
    | inl required ↦ cc (rw required at e)
    | inr optional ↦ let same : [] ≡ _ = cc (rw optional at e) in subst (All P) same tt
  ]
  All-pick agent dependency (item ∷ items) h e =
      elim (Bool-cases (is_kind dependency.fallback_kind item)) [
        | inl fallback ↦ let same : item ∷ items ≡ _ = cc (rw fallback at e) in subst (All P) same h
        | inr direct ↦
            let same : last item items ∷ [] ≡ _ = cc (rw direct at e) in
            subst (All P) same (All-last item items h.0 h.1, tt)
      ]

-- An item of the artifacts with a test that it passed.
abbrev Both {ℓ} : (ContextArtifact → Type ℓ) → (ContextArtifact → Bool) → ContextArtifact → Type ℓ
Both P p item = P item × (p item ≡ true)

or_left : (a b : Bool) → a ≡ true → (a || b) ≡ true
or_left a b h = ground arith

or_right : (a b : Bool) → b ≡ true → (a || b) ≡ true
or_right a b h = ground arith

module _ {ℓ} (P : ContextArtifact → Type ℓ) where
  All-candidates :
      (dependency : ArtifactInput) (artifacts : List ContextArtifact)
      → All P artifacts
      → All (Both P (fits dependency)) (candidates dependency artifacts)
  unfolding candidates latest_by_producer
  All-candidates dependency artifacts h =
      All-or_fallback (Both P (fits dependency)) _ _
        (All-mono _ _ _ (λ item k. (k.0, ground (arith, k.1)))
          (All-select_test P (λ item. matches item dependency) artifacts h))
        (All-put_each (Both P (fits dependency)) _ []
          (All-mono _ _ _ (λ item k. (k.0, ground (arith, k.1)))
            (All-select_test P (is_kind dependency.fallback_kind) artifacts h))
          tt)

  select_inputs-Both :
      (agent : String) (inputs : List ArtifactInput) (artifacts : List ContextArtifact)
      {selected : List ContextArtifact}
      → All P artifacts
      → select_inputs agent inputs artifacts ≡ ok selected
      → All (Both P (is_declared inputs)) selected
  unfolding select_inputs
  select_inputs-Both agent [] artifacts {selected} h e =
      let same : [] ≡ selected = cc e in subst (All (Both P (is_declared []))) same tt
  select_inputs-Both agent (dependency ∷ inputs) artifacts {selected} h e =
      let (taken, e1, e2) =
        >>=-eq-ok (pick agent dependency (candidates dependency artifacts)) _ e in
      let (rest, e3, e4) = >>=-eq-ok (select_inputs agent inputs artifacts) _ e2 in
      let same : taken ++ rest ≡ selected = cc e4 in
      let declared = Both P (is_declared (dependency ∷ inputs)) in
      subst (All declared) same (
        All-append declared taken rest
          (All-mono (Both P (fits dependency)) declared taken (λ item k. (k.0, or_left _ _ k.1))
            (All-pick _ agent dependency _ (All-candidates dependency artifacts h) e1))
          (All-mono (Both P (is_declared inputs)) declared rest (λ item k. (k.0, or_right _ _ k.1))
            (select_inputs-Both agent inputs artifacts h e3)))

  -- An agent's projection holds only artifacts of the run's list, each of which matches a declared
  -- dependency of the agent or has the fallback kind that one declares: every property of all the
  -- given artifacts holds of all the selected ones.
  pub select_agent_artifacts-is_declared :
      (spec : AgentSpec) (artifacts : List ContextArtifact) {selected : List ContextArtifact}
      → All P artifacts
      → select_agent_artifacts spec artifacts ≡ ok selected
      → All (λ item. P item × (is_declared spec.inputs item ≡ true)) selected
  unfolding select_agent_artifacts
  select_agent_artifacts-is_declared spec artifacts h e =
      select_inputs-Both spec.name spec.inputs artifacts h e
