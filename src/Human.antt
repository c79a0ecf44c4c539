-- ===== src/Human.antt =====
-- src/aidlc/human.py: the messages that draw a prompt's surface.
pub mod Buttons
use multi_agent_aidlc.Common.{
  String, Bool, List, [], ◌∷◌, map, Json, str, arr, obj, Items, nil, cons, Fields, field, end,
  concat,
}
use multi_agent_aidlc.Domain.{
  PromptKind, clarification, approval, evaluation_decision, Decision, submit, approve, reject,
  accept, repair,
}

abbrev pub catalog_id : String
catalog_id = "urn:aidlc:human-controls:v1"

-- The decisions that a prompt of the kind offers.
unfoldable pub decisions : PromptKind → List Decision
decisions clarification = submit ∷ []
decisions evaluation_decision = accept ∷ repair ∷ []
decisions approval = approve ∷ reject ∷ []

abbrev pub decision_text : Decision → String
decision_text submit = "submit"
decision_text approve = "approve"
decision_text reject = "reject"
decision_text accept = "accept"
decision_text repair = "repair"

-- `decision.title()`
abbrev pub decision_title : Decision → String
decision_title submit = "Submit"
decision_title approve = "Approve"
decision_title reject = "Reject"
decision_title accept = "Accept"
decision_title repair = "Repair"

abbrev pub items_of : List Json → Items
items_of [] = nil
items_of (x ∷ xs) = cons x (items_of xs)

abbrev pub button_id : Decision → String
button_id decision = concat "button-" (decision_text decision)

abbrev pub label_id : Decision → String
label_id decision = concat "label-" (decision_text decision)

abbrev pub answer_label : PromptKind → String
answer_label clarification = "Your answer"
answer_label _ = "Optional comment"

abbrev answer_path : Json
answer_path = obj (field "path" (str "/answer") end)

-- `{"event": {"name": decision, "context": ...}}`
abbrev pub action_of : Decision → Json
action_of decision = obj (
    field "event"
      (obj (
        field "name" (str (decision_text decision))
          (field "context" (obj (field "answer" answer_path end)) end)))
      end)

-- The label and the button of each decision.
unfoldable pub buttons : List Decision → List Json
buttons [] = []
buttons (decision ∷ rest) =
    obj (
      field "id" (str (label_id decision)) (
        field "component" (str "Text")
          (field "text" (str (decision_title decision)) (field "variant" (str "caption") end))))
    ∷ obj (
        field "id" (str (button_id decision)) (
          field "component" (str "Button")
            (field "child" (str (label_id decision)) (field "action" (action_of decision) end))))
    ∷ buttons rest

unfoldable pub components : String → PromptKind → List Json
unfolding decisions buttons
components question kind =
    obj (
      field "id" (str "root") (
        field "component" (str "Column") (
          field "children"
            (arr (
              cons (str "question")
                (cons (str "answer") (items_of (map (λ d. str (button_id d)) (decisions kind))))))
            end)))
    ∷ obj (
        field "id" (str "question") (
          field "component" (str "Text")
            (field "text" (str question) (field "variant" (str "caption") end))))
    ∷ obj (
        field "id" (str "answer") (
          field "component" (str "TextField")
            (field "label" (str (answer_label kind)) (field "value" answer_path end))))
    ∷ buttons (decisions kind)

abbrev message : String → Json → Json
message name value = obj (field "version" (str "v0.9.1") (field name value end))

unfoldable pub surface_messages : (surface_id question : String) → PromptKind → Json
unfolding components
surface_messages surface_id question kind = arr (items_of (create ∷ update ∷ model ∷ []))
  where
    create : Json
    create =
        message "createSurface"
          (obj (field "surfaceId" (str surface_id) (field "catalogId" (str catalog_id) end)))

    update : Json
    update = message "updateComponents" (
        obj (
          field "surfaceId" (str surface_id)
            (field "components" (arr (items_of (components question kind))) end)))

    model : Json
    model = message "updateDataModel" (
        obj (
          field "surfaceId" (str surface_id)
            (field "path" (str "/") (field "value" (obj (field "answer" (str "") end)) end))))
