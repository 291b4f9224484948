-- ===== src/ToolName/Laws.antt =====
-- Operations of src/toolname.rs are canonical names.
use stavlos.Common.{◌≡◌, refl, ◌⊎◌, Text, List, [], Option, text_eq, arith}
use stavlos.ToolName.{
  canonical, operation_action, operation_raw, action_of, patch, fetch, search_tool, ask_tool,
  shell_kill, agent_create, agent_cancel, agent_status,
}

-- The current names are no aliases.
current_names :
    (canonical patch ≡ patch)
    × (canonical fetch ≡ fetch)
    × (canonical search_tool ≡ search_tool)
    × (canonical ask_tool ≡ ask_tool)
    × (canonical shell_kill ≡ shell_kill)
    × (canonical agent_create ≡ agent_create)
    × (canonical agent_cancel ≡ agent_cancel)
    × (canonical agent_status ≡ agent_status)
unfolding canonical text_eq
current_names = (refl, refl, refl, refl, refl, refl, refl, refl)

-- What `canonical` answers: one of four current names, or the name itself, which is no alias.
canonical_cases :
    (name : Text)
    → (canonical name ≡ patch)
      ⊎ (canonical name ≡ fetch)
      ⊎ (canonical name ≡ search_tool)
      ⊎ (canonical name ≡ ask_tool)
      ⊎ (canonical name ≡ name)
unfolding canonical
canonical_cases name = ground arith

-- An alias is resolved in one step.
pub canonical-canonical : (name : Text) → canonical (canonical name) ≡ canonical name
canonical-canonical name = ground (arith, canonical_cases name, current_names)

canonical-operation_action :
    (name action : Text) → canonical (operation_action name action) ≡ operation_action name action
unfolding operation_action
canonical-operation_action name action = ground (arith, canonical-canonical name, current_names)

-- The operation of a call is its own canonical name, so that a grant is stored under the name by
-- which it is looked up.
pub canonical-operation_raw :
    (name : Text) (fields : List (Text × Option Text))
    → canonical (operation_raw name fields) ≡ operation_raw name fields
unfolding operation_raw
canonical-operation_raw name fields =
    ground (arith, canonical-canonical name, canonical-operation_action name (action_of [] fields))
