-- ===== src/Permission/Answers.antt =====
-- `Decision::answer` of src/agent/permission.rs: what a human's answer grants.
use stavlos.Common.{
  if◌then◌else◌, not, ◌&&◌, ◌||◌, Option, none, some, List, [], ◌∷◌, ◌++◌, Text, codes, is_empty,
  text_eq,
}
use stavlos.Common.Str.{trim}
use stavlos.ToolName.{operation_raw}
use stavlos.Security.{Web, PermitPayload, mode_auto, prefix_for}
use stavlos.Escalation.Prompts.{Answer}
use stavlos.Permission.Types.{Call, Scope, Decision, or_empty, is_some}
use stavlos.Permission.Decide.{auto_outside}

pub data Admission : Type 0 where
  allowed : List PermitPayload → Option Text → Admission
  denied : Text → Admission
  withdrawn : Admission

abbrev pub answer_allow : Text
answer_allow = codes "allow"

abbrev pub allow_always : Text
allow_always = codes "allow_always"

abbrev pub allow_prefix : Text
allow_prefix = codes "allow_prefix"

unfoldable pub denial_text : Answer → Decision → Text
denial_text answer decision =
    if answer.defaulted
    then codes "Permission denied: nobody answered the prompt and the headless default is deny."
    else if text_eq answer.client mode_auto && not (is_empty decision.boundary)
    then auto_outside decision.boundary
    else if not (is_empty (trim answer.reason))
    then codes "Permission denied by the user: " ++ trim answer.reason
    else codes "Permission denied by the user."

abbrev pub call_grants : Text → List Text → List PermitPayload
call_grants tool [] = []
call_grants tool (value ∷ values) =
    record { tool = tool; call = value; prefix = [] } ∷ call_grants tool values

module _ (w : Web) where
  -- The prefix that a grant may have; a command that runs without a sandbox has none.
  unfoldable pub grant_prefix : Decision → Text
  grant_prefix d = if d.bare then [] else prefix_for w d.subject.kind d.argument

  unfoldable pub grants : Decision → Call → Text → List PermitPayload
  grants d call value =
      if not (text_eq value allow_always || text_eq value allow_prefix)
      then []
      else if text_eq value allow_prefix && not (is_empty (grant_prefix d))
      then record { tool = operation_raw call.name call.fields; call = []; prefix = grant_prefix d }
        ∷ []
      else call_grants (operation_raw call.name call.fields) d.subject.values

  -- `scope::resolve_directory` is the argument `resolve`.
  unfoldable pub granted_directory : (Text → Text → Text) → Decision → Scope → Answer → Option Text
  granted_directory resolve d scope answer =
      if not (is_empty d.boundary) && not (text_eq answer.value answer_allow)
      then some
          (if is_empty (trim answer.dir) then d.boundary else resolve scope.directory answer.dir)
      else none

  -- `Decision::answer`; none is the error "a directory is required".
  unfoldable pub answered :
      (Text → Text → Text) → Decision → Call → Scope → Answer → Option Admission
  answered resolve d call scope answer =
      let directory = granted_directory resolve d scope answer in
      if answer.withdrawn
      then some withdrawn
      else if not (
          text_eq answer.value answer_allow
          || (text_eq answer.value allow_always || text_eq answer.value allow_prefix))
      then some (denied (denial_text answer d))
      else if is_some directory && is_empty (or_empty directory)
      then none
      else some (allowed (grants d call answer.value) directory)
