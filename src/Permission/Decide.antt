-- ===== src/Permission/Decide.antt =====
-- `decide` of src/agent/permission.rs, with `policy_subject` of src/tools/mod.rs.
use stavlos.Common.{
  if◌then◌else◌, Bool, false, not, ◌&&◌, ◌||◌, Option, none, some, [], ◌∷◌, ◌++◌, Text, codes,
  is_empty, text_eq,
}
use stavlos.Shell.Words.{simple}
use stavlos.Policy.{
  Verb, deny, text, is_command, Subject, primary, Regex, Set, with_overlay, decide_layered,
}
use stavlos.ToolName.{
  shell, shell_kill, patch, fetch, search_tool, web, sheet, agent, agent_create, agent_cancel,
  agent_status, operation_raw,
}
use stavlos.Security.{Web, is_allow, is_deny, is_url, judge, permits_cover, hosts_allow, egress}
use stavlos.Permission.Types.{
  Level, landlock, is_full, Call, Scope, Setting, Paths, Decision, or_empty, is_some,
}

-- The action that `policy_subject` of src/tools/mod.rs puts in front of the subject.
unfoldable pub policy_action : Text → Text → Option Text
policy_action name operation =
    if text_eq operation shell
    then some (codes "run")
    else if text_eq operation agent_create && text_eq name agent
    then some (codes "create")
    else if text_eq operation agent_cancel && text_eq name agent
    then some (codes "cancel")
    else if text_eq operation agent_status && text_eq name agent
    then some (codes "status")
    else if text_eq operation fetch && text_eq name web
    then some (codes "fetch")
    else if text_eq operation search_tool && text_eq name web
    then some (codes "search")
    else if text_eq operation shell_kill && text_eq name shell
    then some (codes "kill")
    else none

unfoldable pub policy_subject : Call → Subject
policy_subject call = elim (policy_action call.name (operation_raw call.name call.fields)) [
  | none ↦ call.subject
  | some action ↦ record {
    kind = text;
    values = (action ++ (codes " " ++ primary call.subject)) ∷ [];
  }
]

abbrev pub read_only_files : Text
read_only_files = codes "This role is read-only; file changes are refused."

abbrev pub read_only_shell : Text
read_only_shell = codes "Read-only shell execution requires the full OS sandbox."

abbrev pub outside_task : Text
outside_task =
    codes
      "This call is outside the agent's task directories. Delegate a new scoped task from the parent instead of widening a child."

unfoldable pub auto_outside : Text → Text
auto_outside directory =
    codes "Denied in auto mode: "
    ++ (directory
        ++ codes
            " is outside the channel's working directories, and auto mode does not allow calls outside them.")

unfoldable pub hidden_why : Text → Text
hidden_why hidden =
    hidden
    ++ codes
        " is hidden from agents in every mode: it holds credentials or stavlos's own state. Ask the human for what you need from it."

unfoldable pub bare_reason : Level → Text
bare_reason landlock =
    codes
      "the sandbox on this system hides nothing: the command can reach your session's services and stavlos's socket"
bare_reason _ = codes "no sandbox on this system: the command runs with your full access"

-- A refusal of a read-only role, before any path is looked at.
unfoldable pub read_only_refusal : Setting → Call → Option Text
read_only_refusal setting call =
    if setting.read_only && (text_eq call.name patch || text_eq call.name sheet)
    then some read_only_files
    else if setting.read_only
        && (text_eq call.name shell && (not setting.sandbox_enabled || not (is_full setting.level)))
    then some read_only_shell
    else none

-- A decision that is refused early.
unfoldable pub refused : Call → Text → Paths → Text → Decision
refused call argument paths why = record {
  subject = call.subject;
  argument = argument;
  verb = deny;
  boundary = or_empty paths.outside;
  control = or_empty paths.control;
  egress = false;
  bare = false;
  bare_why = [];
  why = why;
}

abbrev pub no_paths : Paths
no_paths = record { control = none; outside = none; hidden = none }

-- The argument that the prompt shows.
unfoldable pub shown_argument : Call → Text → Text
shown_argument call about =
    if text_eq call.name agent || (text_eq call.name web || text_eq call.name shell)
    then primary call.subject
    else about

unfoldable pub outside_scope : Scope → Paths → Bool
outside_scope scope paths =
    not (is_empty scope.parent)
    && (is_empty scope.directories || not (is_empty (or_empty paths.outside)))

module _ (w : Web) (r : Regex) where
  -- The verdict, once the rules and the paths have spoken.
  unfoldable pub verdict : Setting → Scope → Call → Paths → Verb → Text → Verb
  verdict setting scope call paths ruled argument =
      let operation = operation_raw call.name call.fields in
      judge (record {
        hidden = is_some paths.hidden;
        bare =
            is_command call.subject.kind
            && (setting.sandbox_enabled && not (is_full setting.level));
        ruled = ruled;
        compound = is_command call.subject.kind && not (simple argument);
        control = not (is_empty (or_empty paths.control));
        permitted =
            permits_cover w scope.permits operation call.subject
            || (is_url call.subject.kind && hosts_allow w setting.hosts call.subject.values);
        mode = scope.mode;
        egress = egress operation call.subject;
        outside = not (is_empty (or_empty paths.outside));
      })

  -- The end of `decide`: the verdict, and what the prompt or the refusal says of it.
  unfoldable pub concluded : Setting → Scope → Call → Paths → Verb → Text → Decision
  concluded setting scope call paths ruled argument =
      let verb = verdict setting scope call paths ruled argument in
      let control = or_empty paths.control in
      let outside = or_empty paths.outside in
      let bare =
        is_command call.subject.kind && (setting.sandbox_enabled && not (is_full setting.level)) in
      let hide = is_some paths.hidden in
      record {
        subject = call.subject;
        argument = if not (is_empty control) && is_allow ruled then control else argument;
        verb = verb;
        boundary = if hide || is_deny ruled then [] else outside;
        control = control;
        egress = egress (operation_raw call.name call.fields) call.subject;
        bare = bare;
        bare_why = if bare then bare_reason setting.level else [];
        why =
            if hide
            then hidden_why (or_empty paths.hidden)
            else if is_deny ruled
            then []
            else if is_deny verb
            then auto_outside outside
            else [];
      }

  -- The guards of `decide`, in their order.
  unfoldable pub guarded : Setting → Scope → Call → Paths → Verb → Text → Decision
  guarded setting scope call paths ruled argument = elim (read_only_refusal setting call) [
    | some why ↦ refused call argument no_paths why
    | none ↦
        if outside_scope scope paths
        then refused call argument paths outside_task
        else concluded setting scope call paths ruled argument
  ]

  -- What the rules say of the call under the role's overlay.
  unfoldable pub ruling : Setting → Call → Set → Verb × Text
  ruling setting call overlay =
      decide_layered r (with_overlay setting.policy overlay) call.name (policy_subject call)

  unfoldable pub decide_under : Setting → Scope → Call → Paths → Set → Decision
  decide_under setting scope call paths overlay =
      let (ruled, about) = ruling setting call overlay in
      guarded setting scope call paths ruled (shown_argument call about)

  -- `BoundaryEnvironment::decide`; none if the role's policy does not load.
  unfoldable pub decide : Setting → Scope → Call → Paths → Option Decision
  decide setting scope call paths = elim setting.overlay [
    | none ↦ none
    | some overlay ↦ some (decide_under setting scope call paths overlay)
  ]
