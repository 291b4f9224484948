-- ===== src/Permission/Grant.antt =====
-- What an answer grants in src/agent/permission.rs, and that the grants cover the call.

use stavlos.Common.{
  ◌≡◌, ◌⊎◌, refl, true, false, not, List, [], ◌∷◌, Text, is_empty, text_eq, text_eq_refl, all,
  arith, inl, inr,
}
use stavlos.Shell.Prefix.{prefix}
use stavlos.Shell.Grants.{covers-prefix}
use stavlos.Policy.{Kind, text, command, path, url, id, Subject}
use stavlos.ToolName.{canonical, operation_raw}
use stavlos.ToolName.Laws.{canonical-operation_raw}
use stavlos.Security.{
  Web, Permits, PermitPayload, apply, covers_value, permits_cover, prefix_for, prefix_covers,
  url_host,
}
use stavlos.Security.Grants.{covers_value-apply, covers_value-apply_call, covers_value-apply_prefix}
use stavlos.Permission.Types.{Call, Decision}
use stavlos.Permission.Answers.{allow_always, allow_prefix, call_grants, grant_prefix, grants}

-- The permits after the events of some grants.
unfoldable pub apply_all : Permits → List PermitPayload → Permits
apply_all p [] = p
apply_all p (g ∷ gs) = apply_all (apply p g) gs

-- A granted prefix covers the argument that it was taken from.
prefix_covers_own :
    (w : Web) (k : Kind) (argument : Text)
    → is_empty (prefix_for w k argument) ≡ false
    → prefix_covers w k (prefix_for w k argument) argument ≡ true
unfolding prefix_for prefix_covers
prefix_covers_own w text argument h = cc
prefix_covers_own w path argument h = cc
prefix_covers_own w id argument h = cc
prefix_covers_own w url argument h = ground (arith, text_eq_refl (url_host w argument))
prefix_covers_own w command argument h =
    covers-prefix argument (λ e. nonempty (prefix argument) h e)
  where
    nonempty : (s : Text) → is_empty s ≡ false → s ≡ [] → ⊥
    nonempty s n e = ground arith

module _ (w : Web) where
  covers_value-apply_all :
      (p : Permits) (gs : List PermitPayload) (tool : Text) (k : Kind) (value : Text)
      → covers_value w p tool k value ≡ true
      → covers_value w (apply_all p gs) tool k value ≡ true
  unfolding apply_all
  covers_value-apply_all p [] tool k value h = h
  covers_value-apply_all p (g ∷ gs) tool k value h =
      covers_value-apply_all (apply p g) gs tool k value (covers_value-apply w p g tool k value h)

  call_grants_cover :
      (tool : Text) (k : Kind) (values : List Text) (p : Permits)
      → canonical tool ≡ tool
      → all (λ v. not (is_empty v)) values ≡ true
      → all (covers_value w (apply_all p (call_grants tool values)) tool k) values ≡ true
  unfolding apply_all
  call_grants_cover tool k [] p c h = refl
  call_grants_cover tool k (v ∷ vs) p c h =
      let g : PermitPayload = record { tool = tool; call = v; prefix = [] } in
      let first =
        covers_value-apply_all (apply p g) (call_grants tool vs) tool k v
          (covers_value-apply_call w p g k c refl (ground arith)) in
      let others = call_grants_cover tool k vs (apply p g) c (ground arith) in
      ground (arith, first, others)

  prefix_grant_covers :
      (p : Permits) (tool : Text) (k : Kind) (argument : Text)
      → canonical tool ≡ tool
      → is_empty (prefix_for w k argument) ≡ false
      → covers_value w
          (apply_all p (record { tool = tool; call = []; prefix = prefix_for w k argument } ∷ []))
          tool
          k
          argument
        ≡ true
  unfolding apply_all
  prefix_grant_covers p tool k argument c n =
      covers_value-apply_prefix w p
        (record { tool = tool; call = []; prefix = prefix_for w k argument }) k argument c n
        (prefix_covers_own w k argument n)

  calls_cover :
      (p : Permits) (tool : Text) (s : Subject)
      → canonical tool ≡ tool
      → is_empty s.values ≡ false
      → all (λ v. not (is_empty v)) s.values ≡ true
      → permits_cover w (apply_all p (call_grants tool s.values)) tool s ≡ true
  unfolding permits_cover
  calls_cover p tool s c n full = ground (arith, call_grants_cover tool s.kind s.values p c full)

  grants_always :
      (d : Decision) (call : Call)
      → grants w d call allow_always
        ≡ call_grants (operation_raw call.name call.fields) d.subject.values
  unfolding grants text_eq
  grants_always d call = refl

  -- "This prefix" records the prefix, or else the calls.
  grants_prefix :
      (d : Decision) (call : Call)
      → let tool = operation_raw call.name call.fields in
        (grants w d call allow_prefix ≡ call_grants tool d.subject.values)
        ⊎ ((is_empty (prefix_for w d.subject.kind d.argument) ≡ false)
            × (grants w d call allow_prefix
                ≡ record { tool = tool; call = []; prefix = prefix_for w d.subject.kind d.argument }
                  ∷ []))
  unfolding grants grant_prefix
  grants_prefix d call = ground (arith, text_eq_refl allow_prefix)

  -- After "always", and after "this prefix" to a call with one argument, the grants that the answer
  -- records cover the call. The
  -- call has a value at least, and none of its values is empty.
  pub grants_cover :
      (p : Permits) (d : Decision) (call : Call) (value : Text)
      → is_empty d.subject.values ≡ false
      → all (λ v. not (is_empty v)) d.subject.values ≡ true
      → (value ≡ allow_always) ⊎ ((value ≡ allow_prefix) × (d.subject.values ≡ d.argument ∷ []))
      → permits_cover w
          (apply_all p (grants w d call value))
          (operation_raw call.name call.fields)
          d.subject
        ≡ true
  grants_cover p d call value n full (inl always) =
      rw (always, grants_always d call)
        (calls_cover p (operation_raw call.name call.fields) d.subject
          (canonical-operation_raw call.name call.fields) n full)
  grants_cover p d call value n full (inr (narrow, one)) =
      let tool = operation_raw call.name call.fields in
      let c : canonical tool ≡ tool = canonical-operation_raw call.name call.fields in
      rw narrow (elim (grants_prefix d call) [
        | inl calls ↦ rw calls (calls_cover p tool d.subject c n full)
        | inr (found, recorded) ↦ rw recorded (
            unfold permits_cover in
            rw one (ground (arith, prefix_grant_covers p tool d.subject.kind d.argument c found)))
      ])
