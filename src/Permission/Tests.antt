-- ===== src/Permission/Tests.antt =====
-- The admission of calls at concrete inputs.
use stavlos.Common.{
  ◌≡◌, ◌≢◌, ◌↔◌, refl, Bool, true, false, Option, none, some, List, [], ◌∷◌, Text, codes, is_empty,
  text_eq, all, inl, inr,
}
use stavlos.Policy.{
  Verb, allow, ask, deny, text, command, path, Subject, Regex, Set, Layered, decide_layered,
  with_overlay, judge, judge_texts, judge_from, texts, overlaid,
}
use stavlos.ToolName.{operation_raw, canonical}
use stavlos.Security.{Web, Permits, permits_cover, covers_value, mode_ask, mode_auto}
use stavlos.Security
use stavlos.Permission.Types.{Call, Scope, Setting, Paths, Decision, full}
use stavlos.Permission.Decide.{
  no_paths, decide, decide_under, ruling, guarded, concluded, verdict, policy_subject,
  policy_action, read_only_refusal, outside_scope,
}
use stavlos.Permission.Answers.{allow_always}
use stavlos.Permission.Admit.{Admitted, decide_allow, decide_deny}
use stavlos.Permission.Again.{granted, Reaches, grants_admit}

abbrev any_web : Web
any_web = record { parses = λ u. true; lower = λ c. c }

abbrev any_regex : Regex
any_regex = record { escape = λ c. c ∷ []; is_match = λ e t. true }

abbrev no_permits : Permits
no_permits = record { calls = []; prefixes = [] }

-- A channel in auto mode without rules, and a role that may write.
abbrev auto_scope : Scope
auto_scope = record {
  directory = codes "/work";
  directories = [];
  parent = [];
  mode = mode_auto;
  permits = no_permits;
}

abbrev free_setting : Setting
free_setting = record {
  read_only = false;
  overlay = some [];
  policy = record { base = []; overlays = [] };
  hosts = [];
  sandbox_enabled = true;
  level = full;
}

abbrev read_call : Call
read_call = record {
  name = codes "read";
  fields = [];
  subject = record { kind = path; values = codes "a.rs" ∷ [] };
}

abbrev allowed_read : Decision
allowed_read = decide_under any_web any_regex free_setting auto_scope read_call no_paths []

read_allowed : allowed_read.verb ≡ allow
unfolding decide_under guarded read_only_refusal outside_scope concluded verdict Security.judge
    ruling decide_layered judge policy_subject policy_action text_eq operation_raw canonical
    judge_texts texts judge_from with_overlay overlaid Security.egress permits_cover
    stavlos.Policy.lookup stavlos.Policy.select stavlos.Policy.max_by_key covers_value
    stavlos.Common.Map.get stavlos.Common.starts_with
read_allowed = refl

read_decided :
    decide any_web any_regex free_setting auto_scope read_call no_paths ≡ some allowed_read
unfolding decide
read_decided = refl

decide_allow_example :
    Admitted free_setting auto_scope read_call no_paths
    × ((ruling any_web any_regex free_setting read_call []).0 ≢ deny)
decide_allow_example =
    decide_allow any_web any_regex free_setting auto_scope read_call no_paths [] allowed_read refl
      read_decided read_allowed

abbrev home_paths : Paths
home_paths = record { control = none; outside = some (codes "/home"); hidden = none }

abbrev outside_read : Decision
outside_read = decide_under any_web any_regex free_setting auto_scope read_call home_paths []

outside_decided :
    decide any_web any_regex free_setting auto_scope read_call home_paths ≡ some outside_read
unfolding decide
outside_decided = refl

decide_deny_example : outside_read.verb ≡ deny
decide_deny_example =
    decide_deny any_web any_regex free_setting auto_scope read_call home_paths [] outside_read refl
      outside_decided (inr (inr (refl, refl)))

abbrev bare_decision : Decision
bare_decision = record {
  subject = record { kind = command; values = codes "git status" ∷ [] };
  argument = codes "git status";
  verb = ask;
  boundary = [];
  control = [];
  egress = false;
  bare = true;
  bare_why = codes "no sandbox";
  why = [];
}

abbrev shell_call : Call
shell_call = record {
  name = codes "shell";
  fields = [];
  subject = record { kind = command; values = codes "git status" ∷ [] };
}

-- The same read in a channel that asks, before and after "always".
abbrev ask_scope : Scope
ask_scope = record auto_scope { mode = mode_ask }

abbrev asked_read : Decision
asked_read = decide_under any_web any_regex free_setting ask_scope read_call no_paths []

asked_decided : decide any_web any_regex free_setting ask_scope read_call no_paths ≡ some asked_read
unfolding decide
asked_decided = refl

read_asked : asked_read.verb ≡ ask
unfolding decide_under guarded read_only_refusal outside_scope concluded verdict Security.judge
    ruling decide_layered judge policy_subject policy_action text_eq operation_raw canonical
    judge_texts texts judge_from with_overlay overlaid Security.egress permits_cover
    stavlos.Policy.lookup stavlos.Policy.select stavlos.Policy.max_by_key covers_value
    stavlos.Common.Map.get stavlos.Common.starts_with
read_asked = refl

abbrev after_always : Scope
after_always = granted any_web ask_scope asked_read read_call allow_always

abbrev second_read : Decision
second_read = decide_under any_web any_regex free_setting after_always read_call no_paths []

second_decided :
    decide any_web any_regex free_setting after_always read_call no_paths ≡ some second_read
unfolding decide
second_decided = refl

grants_admit_example :
    (permits_cover any_web after_always.permits (operation_raw (codes "read") []) read_call.subject
      ≡ true)
    × ((second_read.verb ≡ allow) ↔ (
        Admitted free_setting after_always read_call no_paths
        × ((ruling any_web any_regex free_setting read_call []).0 ≢ deny)
        × Reaches after_always no_paths))
grants_admit_example =
    grants_admit any_web any_regex free_setting ask_scope read_call no_paths no_paths [] asked_read
      second_read allow_always refl asked_decided refl refl (inl refl) second_decided
