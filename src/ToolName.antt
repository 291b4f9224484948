-- ===== src/ToolName.antt =====
-- src/toolname.rs: the names of tools, with their legacy aliases, and the operation of a call.
pub mod Laws
mod Tests
use stavlos.Common.{
  ℕ, ◌+◌, ◌==◌, leb, if◌then◌else◌, Bool, true, false, not, ◌&&◌, ◌||◌, Option, none, some, List,
  [], ◌∷◌, ◌++◌, Text, codes, is_empty, text_eq, contains,
}

abbrev pub shell : Text
shell = codes "shell"

abbrev pub shell_kill : Text
shell_kill = codes "shell_kill"

abbrev pub patch : Text
patch = codes "patch"

abbrev pub fetch : Text
fetch = codes "fetch"

abbrev pub search_tool : Text
search_tool = codes "search"

abbrev pub web : Text
web = codes "web"

abbrev pub ask_tool : Text
ask_tool = codes "ask"

abbrev pub sheet : Text
sheet = codes "sheet"

abbrev pub agent : Text
agent = codes "agent"

abbrev pub agent_create : Text
agent_create = codes "agent_create"

abbrev pub agent_cancel : Text
agent_cancel = codes "agent_cancel"

abbrev pub agent_status : Text
agent_status = codes "agent_status"

abbrev pub mcp_prefix : Text
mcp_prefix = codes "mcp__"

abbrev pub user : Text
user = codes "user"

unfoldable pub canonical : Text → Text
canonical name =
    if text_eq name (codes "apply_patch")
    then patch
    else if text_eq name (codes "web_fetch")
    then fetch
    else if text_eq name (codes "web_search")
    then search_tool
    else if text_eq name (codes "ask_user")
    then ask_tool
    else name

-- `expand`: the names without repetitions, in the order of their first places.
unfoldable pub expand_from : List Text → List Text → List Text
expand_from result [] = result
expand_from result (name ∷ names) =
    expand_from (if contains result name then result else result ++ (name ∷ [])) names

unfoldable pub expand : List Text → List Text
unfolding expand_from
expand names = expand_from [] names

-- The pairs of a `match (name, action)`
abbrev pub both : Text → Text → Text → Text → Bool
both name action n a = text_eq name n && text_eq action a

unfoldable pub operation_action : Text → Text → Text
operation_action name action =
    if both name action web (codes "fetch")
    then fetch
    else if both name action web (codes "search")
    then search_tool
    else if both name action shell (codes "kill")
    then shell_kill
    else if both name action agent (codes "create")
    then agent_create
    else if both name action agent (codes "cancel")
    then agent_cancel
    else if both name action agent (codes "status")
    then agent_status
    else canonical name

-- `char::to_ascii_lowercase`, for `eq_ignore_ascii_case`
unfoldable pub ascii_lower : ℕ → ℕ
ascii_lower c = if leb b'A' c && leb c b'Z' then c + 32 else c

unfoldable pub eq_ignore_ascii_case : Text → Text → Bool
unfolding ascii_lower
eq_ignore_ascii_case [] [] = true
eq_ignore_ascii_case (a ∷ s) (b ∷ t) = (ascii_lower a == ascii_lower b) && eq_ignore_ascii_case s t
eq_ignore_ascii_case _ _ = false

-- The fields of the call's input: each key, and its value where that is a string. The last field
-- that is spelled `action` in any case counts.
unfoldable pub action_of : Text → List (Text × Option Text) → Text
action_of action [] = action
action_of action ((key, none) ∷ fields) = action_of action fields
action_of action ((key, some value) ∷ fields) =
    action_of (if eq_ignore_ascii_case key (codes "action") then value else action) fields

-- `operation_raw`. The input is given as the fields that the JSON reader finds in it, and none if
-- there is no input or it is no object.
unfoldable pub operation_raw : Text → List (Text × Option Text) → Text
operation_raw name fields =
    if not (text_eq name agent || (text_eq name web || text_eq name shell))
    then canonical name
    else operation_action name (action_of [] fields)

-- `policy_rule`: the tool and the action that a rule's name stands for.
unfoldable pub rule_parts : Text → Text → Text × Text
rule_parts name pattern =
    if text_eq name shell && not (text_eq pattern (codes "*"))
    then (shell, codes "run")
    else if text_eq name agent_create
    then (agent, codes "create")
    else if text_eq name agent_cancel
    then (agent, codes "cancel")
    else if text_eq name agent_status
    then (agent, codes "status")
    else if text_eq name fetch
    then (web, codes "fetch")
    else if text_eq name search_tool
    then (web, codes "search")
    else if text_eq name shell_kill
    then (shell, codes "kill")
    else (name, [])

unfoldable pub policy_rule : Text → Text → Text × Text
policy_rule name pattern =
    let (tool, action) = rule_parts (canonical name) pattern in
    (tool, if is_empty action then pattern else action ++ (32 ∷ pattern))
