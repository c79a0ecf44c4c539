-- ===== src/Human/Buttons.antt =====
-- What a surface lets a person answer.
use multi_agent_aidlc.Common.{
  String, ◌≡◌, refl, Bool, ◌&&◌, Option, none, some, Json, get, is_str, any,
}
use multi_agent_aidlc.Domain.{
  PromptKind, clarification, approval, evaluation_decision, Decision, submit, approve, reject,
  accept, repair, decision_eq,
}
use multi_agent_aidlc.Storage.Database.Interactions.{allowed}
use multi_agent_aidlc.Human.{components, decision_text}

abbrev inner : Option Json → String → Option Json
inner none key = none
inner (some value) key = get value key

-- The component is a button whose event is named by the decision.
abbrev pub offers : Decision → Json → Bool
offers decision component =
    is_str (get component "component") "Button"
    && is_str (inner (inner (get component "action") "event") "name") (decision_text decision)

-- A surface has a button for a decision exactly when `accept_action` allows the decision for the
-- prompt's kind.
pub components-allowed :
    (question : String) (kind : PromptKind) (decision : Decision)
    → any (offers decision) (components question kind) ≡ allowed kind decision
unfolding components allowed
components-allowed question clarification = elim [
  | submit ↦ refl
  | approve ↦ refl
  | reject ↦ refl
  | accept ↦ refl
  | repair ↦ refl
]
components-allowed question approval = elim [
  | submit ↦ refl
  | approve ↦ refl
  | reject ↦ refl
  | accept ↦ refl
  | repair ↦ refl
]
components-allowed question evaluation_decision = elim [
  | submit ↦ refl
  | approve ↦ refl
  | reject ↦ refl
  | accept ↦ refl
  | repair ↦ refl
]
