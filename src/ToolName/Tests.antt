-- ===== src/ToolName/Tests.antt =====
-- The names of src/toolname.rs at concrete inputs.
use stavlos.Common.{◌≡◌, refl, some, [], ◌∷◌, codes, text_eq}
use stavlos.ToolName.{canonical, operation_raw, operation_action, action_of}

agent_status_operation :
    operation_raw (codes "agent") ((codes "action", some (codes "status")) ∷ [])
    ≡ codes "agent_status"
unfolding operation_raw operation_action canonical text_eq action_of
    stavlos.ToolName.eq_ignore_ascii_case
agent_status_operation = refl
