-- ===== src/Permission/Again.antt =====
-- A call that comes again after a human granted it (src/agent/permission.rs).
use mathlib.Core.Path.{subst}
use stavlos.Common.{
  ◌≡◌, ◌≢◌, ◌⊎◌, ◌↔◌, ◌∙◌, ap, refl, sym, true, false, not, none, some, Text, [], ◌∷◌, all,
  is_empty, arith, Bool-cases, Option-cases, inl, inr,
}
use stavlos.Policy.{Verb, allow, deny, Regex, Set}
use stavlos.ToolName.{operation_raw}
use stavlos.Security.{Web, mode_yolo, permits_cover}
use stavlos.Security.Verdict.{judge_allow}
use stavlos.Permission.Types.{Call, Scope, Setting, Paths, Decision, or_empty}
use stavlos.Permission.Decide.{
  read_only_refusal, verdict, concluded, refused, shown_argument, outside_scope, guarded, ruling,
  decide_under, decide,
}
use stavlos.Permission.Answers.{allow_always, allow_prefix, grants}
use stavlos.Permission.Grant.{apply_all, grants_cover}
use stavlos.Permission.Admit.{Admitted, guarded_cases, guarded_allow, decide-some}

-- The call leaves no directory of the channel, or the mode is `yolo`.
abbrev pub Reaches : Scope → Paths → Type 0
Reaches scope paths = (is_empty (or_empty paths.outside) ≡ true) ⊎ (scope.mode ≡ mode_yolo)

module _ (w : Web) (r : Regex) (setting : Setting) (scope : Scope) (call : Call)
    (paths : Paths) where
  permitted_way :
      (ruled : Verb) (argument : Text)
      → verdict w r setting scope call paths ruled argument ≡ allow
      → Reaches scope paths
  unfolding verdict
  permitted_way ruled argument h =
      let (visible, sandboxed, plain, ruling, way) = (judge_allow _).0 h in ground arith

  permitted_allow :
      (ruled : Verb) (argument : Text)
      → permits_cover w scope.permits (operation_raw call.name call.fields) call.subject ≡ true
      → Admitted setting scope call paths
      → ruled ≢ deny
      → Reaches scope paths
      → verdict w r setting scope call paths ruled argument ≡ allow
  unfolding verdict
  permitted_allow ruled argument covered a n (inl within) = (judge_allow _).1 (
    a.visible,
    a.sandboxed,
    ground (arith, a.plain),
    n,
    inl (ground (arith, within), inl (ground (arith, covered))),
  )
  permitted_allow ruled argument covered a n (inr yolo) =
      (judge_allow _).1 (a.visible, a.sandboxed, ground (arith, a.plain), n, inr (inl yolo))

  writable : Admitted setting scope call paths → read_only_refusal setting call ≡ none
  unfolding read_only_refusal
  writable a = rw (a.writes, a.shells) refl

  guarded_subject :
      (ruled : Verb) (argument : Text)
      → (guarded w r setting scope call paths ruled argument).subject ≡ call.subject
  unfolding guarded refused concluded
  guarded_subject ruled argument = elim (Option-cases (read_only_refusal setting call)) [
    | inr (why, early) ↦ rw (guarded, early) (unfold refused in refl)
    | inl free ↦ elim (Bool-cases (outside_scope scope paths)) [
      | inl out ↦ rw (guarded, free, out) (unfold refused in refl)
      | inr within ↦ rw (guarded, free, within) (unfold concluded in refl)
    ]
  ]

  decided_subject :
      (overlay : Set) (d : Decision)
      → setting.overlay ≡ some overlay
      → decide w r setting scope call paths ≡ some d
      → d.subject ≡ call.subject
  unfolding decide_under
  decided_subject overlay d loaded h =
      ap (λ x. x.subject) (decide-some w r setting scope call paths overlay d loaded h)
      ∙ guarded_subject (ruling w r setting call overlay).0
          (shown_argument call (ruling w r setting call overlay).1)

  guarded_open :
      (ruled : Verb) (argument : Text)
      → read_only_refusal setting call ≡ none
      → outside_scope scope paths ≡ false
      → guarded w r setting scope call paths ruled argument
        ≡ concluded w r setting scope call paths ruled argument
  unfolding guarded
  guarded_open ruled argument free within = rw (free, guarded) (rw within refl)

  guarded_granted :
      (ruled : Verb) (argument : Text)
      → permits_cover w scope.permits (operation_raw call.name call.fields) call.subject ≡ true
      → Admitted setting scope call paths × (ruled ≢ deny) × Reaches scope paths
      → (guarded w r setting scope call paths ruled argument).verb ≡ allow
  guarded_granted ruled argument covered (a, n, way) =
      ap (λ x. x.verb) (guarded_open ruled argument (writable a) a.inside)
      ∙ unfold concluded in permitted_allow ruled argument covered a n way

  guarded-Reaches :
      (ruled : Verb) (argument : Text)
      → (guarded w r setting scope call paths ruled argument).verb ≡ allow
      → Admitted setting scope call paths × (ruled ≢ deny) × Reaches scope paths
  guarded-Reaches ruled argument h =
      elim (guarded_cases w r setting scope call paths ruled argument) [
        | inr no_way ↦ cc
        | inl (free, within, e) ↦
            let agreed : verdict w r setting scope call paths ruled argument ≡ allow =
              unfold concluded in (rw e at h) in
            let (admitted, n) = guarded_allow w r setting scope call paths ruled argument h in
            (admitted, n, permitted_way ruled argument agreed)
      ]

  permitted_decide :
      (overlay : Set) (d : Decision)
      → setting.overlay ≡ some overlay
      → decide w r setting scope call paths ≡ some d
      → permits_cover w scope.permits (operation_raw call.name call.fields) call.subject ≡ true
      → (d.verb ≡ allow) ↔ (
          Admitted setting scope call paths
          × ((ruling w r setting call overlay).0 ≢ deny)
          × Reaches scope paths)
  unfolding decide_under
  permitted_decide overlay d loaded h covered =
      let same = ap (λ x. x.verb) (decide-some w r setting scope call paths overlay d loaded h) in
      let ruled = (ruling w r setting call overlay).0 in
      let argument = shown_argument call (ruling w r setting call overlay).1 in
      (
        λ v. guarded-Reaches ruled argument (sym same ∙ v),
        λ a. same ∙ guarded_granted ruled argument covered a,
      )

abbrev pub granted : Web → Scope → Decision → Call → Text → Scope
granted w scope d call value = record scope {
  permits = apply_all scope.permits (grants w d call value);
}

-- The role's rules load, and `decide` made a decision on a call that has a value at least and whose
-- values are not empty. After "always", and after "this prefix" where the decision's argument is the
-- only value, the permits with the answer's grants cover the call. A decision on the same call under
-- these permits is then to allow it exactly if what the facts demand in any case holds (the conditions
-- of `Admitted`), the rules of the configuration and the role do not deny it, and it does not leave the
-- channel's directories, or the mode is `yolo`.
pub grants_admit :
    (w : Web) (r : Regex) (setting : Setting) (scope : Scope) (call : Call) (paths later : Paths)
    (overlay : Set) (d e : Decision) (value : Text)
    → setting.overlay ≡ some overlay
    → decide w r setting scope call paths ≡ some d
    → is_empty call.subject.values ≡ false
    → all (λ v. not (is_empty v)) call.subject.values ≡ true
    → (value ≡ allow_always) ⊎ ((value ≡ allow_prefix) × (call.subject.values ≡ d.argument ∷ []))
    → decide w r setting (granted w scope d call value) call later ≡ some e
    → (permits_cover w
          (granted w scope d call value).permits
          (operation_raw call.name call.fields)
          call.subject
        ≡ true)
      × ((e.verb ≡ allow) ↔ (
          Admitted setting (granted w scope d call value) call later
          × ((ruling w r setting call overlay).0 ≢ deny)
          × Reaches (granted w scope d call value) later))
grants_admit w r setting scope call paths later overlay d e value loaded first n full way again =
    let own = decided_subject w r setting scope call paths overlay d loaded first in
    let covered : permits_cover w (granted w scope d call value).permits
          (operation_raw call.name call.fields) call.subject
        ≡ true =
      subst
        (λ s.
          permits_cover w (granted w scope d call value).permits
            (operation_raw call.name call.fields) s
          ≡ true)
        own (grants_cover w scope.permits d call value (rw own n) (rw own full) (rw own way)) in
    (
      covered,
      permitted_decide w r setting (granted w scope d call value) call later overlay e loaded again
          covered,
    )
