-- ===== src/Permission/Admit.antt =====
-- What `decide` of src/agent/permission.rs lets through without asking.

use stavlos.Common.{
  ◌≡◌, ◌≢◌, ◌⊎◌, ◌∙◌, ap, refl, sym, true, false, not, ◌&&◌, ◌||◌, none, some, Text, is_empty,
  text_eq, arith, Bool-cases, Option-cases, inl, inr,
}
use stavlos.Policy.{Verb, allow, deny, Regex, Set, is_command}
use stavlos.ToolName.{patch, sheet, shell}
use stavlos.Security.{Web, mode_auto}
use stavlos.Security.Verdict.{judge_allow, judge_deny}
use stavlos.Permission.Types.{Call, Scope, Setting, Paths, Decision, or_empty, is_some, is_full}
use stavlos.Permission.Decide.{
  read_only_refusal, verdict, concluded, refused, shown_argument, outside_scope, guarded, ruling,
  decide_under, decide,
}

-- What the facts about a call must be for it to run without a prompt.
pub record Admitted (setting : Setting) (scope : Scope) (call : Call) (paths : Paths) : Type 0 where
  pub writes : (setting.read_only && (text_eq call.name patch || text_eq call.name sheet)) ≡ false
  pub shells :
      (setting.read_only
        && (text_eq call.name shell
            && (not setting.sandbox_enabled || not (is_full setting.level))))
      ≡ false
  pub inside : outside_scope scope paths ≡ false
  pub visible : is_some paths.hidden ≡ false
  pub sandboxed :
      (is_command call.subject.kind && (setting.sandbox_enabled && not (is_full setting.level)))
      ≡ false
  pub plain : is_empty (or_empty paths.control) ≡ true

not_read_only :
    (setting : Setting) (call : Call)
    → read_only_refusal setting call ≡ none
    → ((setting.read_only && (text_eq call.name patch || text_eq call.name sheet)) ≡ false)
      × ((setting.read_only
            && (text_eq call.name shell
                && (not setting.sandbox_enabled || not (is_full setting.level))))
          ≡ false)
unfolding read_only_refusal
not_read_only setting call h = ground arith

module _ (w : Web) (r : Regex) (setting : Setting) (scope : Scope) (call : Call)
    (paths : Paths) where
  verdict_allow :
      (ruled : Verb) (argument : Text)
      → verdict w r setting scope call paths ruled argument ≡ allow
      → (is_some paths.hidden ≡ false)
        × ((is_command call.subject.kind
              && (setting.sandbox_enabled && not (is_full setting.level)))
            ≡ false)
        × (is_empty (or_empty paths.control) ≡ true)
        × (ruled ≢ deny)
  unfolding verdict
  verdict_allow ruled argument h =
      let (visible, sandboxed, plain, ruling, way) = (judge_allow _).0 h in
      (visible, sandboxed, ground arith, ruling)

  pub guarded_cases :
      (ruled : Verb) (argument : Text)
      → ((read_only_refusal setting call ≡ none)
          × (outside_scope scope paths ≡ false)
          × (guarded w r setting scope call paths ruled argument
              ≡ concluded w r setting scope call paths ruled argument))
        ⊎ ((guarded w r setting scope call paths ruled argument).verb ≡ deny)
  unfolding guarded
  guarded_cases ruled argument = elim (Option-cases (read_only_refusal setting call)) [
    | inr (why, early) ↦ inr (rw (early, guarded) (unfold refused in refl))
    | inl writable ↦ elim (Bool-cases (outside_scope scope paths)) [
      | inl out ↦ inr (rw (writable, guarded) (rw out (unfold refused in refl)))
      | inr within ↦ inl (writable, within, rw (writable, guarded) (rw within))
    ]
  ]

  pub guarded_allow :
      (ruled : Verb) (argument : Text)
      → (guarded w r setting scope call paths ruled argument).verb ≡ allow
      → Admitted setting scope call paths × (ruled ≢ deny)
  guarded_allow ruled argument h = elim (guarded_cases ruled argument) [
    | inr no_way ↦ cc
    | inl (writable, within, e) ↦
        let agreed : verdict w r setting scope call paths ruled argument ≡ allow =
          unfold concluded in (rw e at h) in
        let (visible, sandboxed, plain, ruling) = verdict_allow ruled argument agreed in
        (
          record {
            writes = (not_read_only setting call writable).0;
            shells = (not_read_only setting call writable).1;
            inside = within;
            visible = visible;
            sandboxed = sandboxed;
            plain = plain;
          },
          ruling,
        )
  ]

  pub decide-some :
      (overlay : Set) (d : Decision)
      → setting.overlay ≡ some overlay
      → decide w r setting scope call paths ≡ some d
      → d ≡ decide_under w r setting scope call paths overlay
  unfolding decide
  decide-some overlay d loaded h = ground arith

  -- Where the role's rules load, a call that runs without a prompt is, for a read-only role, neither
  -- the patch tool nor the sheet tool, and the shell tool only with sandboxing on at its full level. It
  -- stays inside the scope of a child agent, touches nothing hidden and no control file, runs no
  -- command outside the full sandbox where sandboxing is on, and is denied by no rule of the
  -- configuration and the role.
  pub decide_allow :
      (overlay : Set) (d : Decision)
      → setting.overlay ≡ some overlay
      → decide w r setting scope call paths ≡ some d
      → d.verb ≡ allow
      → Admitted setting scope call paths × ((ruling w r setting call overlay).0 ≢ deny)
  unfolding decide_under
  decide_allow overlay d loaded h v =
      guarded_allow (ruling w r setting call overlay).0
        (shown_argument call (ruling w r setting call overlay).1)
        (sym (ap (λ x. x.verb) (decide-some overlay d loaded h)) ∙ v)

  verdict_deny :
      (ruled : Verb) (argument : Text)
      → (is_some paths.hidden ≡ true)
        ⊎ (ruled ≡ deny)
        ⊎ ((scope.mode ≡ mode_auto) × (is_empty (or_empty paths.outside) ≡ false))
      → verdict w r setting scope call paths ruled argument ≡ deny
  unfolding verdict
  verdict_deny ruled argument h = (judge_deny _).1 (ground arith)

  guarded_deny :
      (ruled : Verb) (argument : Text)
      → (is_some paths.hidden ≡ true)
        ⊎ (ruled ≡ deny)
        ⊎ ((scope.mode ≡ mode_auto) × (is_empty (or_empty paths.outside) ≡ false))
      → (guarded w r setting scope call paths ruled argument).verb ≡ deny
  guarded_deny ruled argument why = elim (guarded_cases ruled argument) [
    | inr no_way ↦ no_way
    | inl (writable, within, same) ↦
        ap (λ x. x.verb) same ∙ unfold concluded in verdict_deny ruled argument why
  ]

  -- Where the role's rules load, a call that touches a hidden path, that a rule denies, or that leaves
  -- the channel's directories in auto mode is denied, whatever was granted.
  pub decide_deny :
      (overlay : Set) (d : Decision)
      → setting.overlay ≡ some overlay
      → decide w r setting scope call paths ≡ some d
      → (is_some paths.hidden ≡ true)
        ⊎ ((ruling w r setting call overlay).0 ≡ deny)
        ⊎ ((scope.mode ≡ mode_auto) × (is_empty (or_empty paths.outside) ≡ false))
      → d.verb ≡ deny
  unfolding decide_under
  decide_deny overlay d loaded h why =
      ap (λ x. x.verb) (decide-some overlay d loaded h)
      ∙ guarded_deny (ruling w r setting call overlay).0
          (shown_argument call (ruling w r setting call overlay).1) why
