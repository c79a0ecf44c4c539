-- ===== src/Examples/Surfaces.antt =====
-- The theorem on surfaces at a concrete input.
use multi_agent_aidlc.Common.{◌≡◌, any}
use multi_agent_aidlc.Domain.{PromptKind, Decision}
use multi_agent_aidlc.Storage.Database.Interactions.{allowed}
use multi_agent_aidlc.Human.{components}
use multi_agent_aidlc.Human.Buttons.{offers, components-allowed}

components-allowed_example :
    any (offers Decision.reject) (components "Agree?" PromptKind.approval)
    ≡ allowed PromptKind.approval Decision.reject
components-allowed_example = components-allowed "Agree?" PromptKind.approval Decision.reject
