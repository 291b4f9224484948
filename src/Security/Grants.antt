-- ===== src/Security/Grants.antt =====
-- The permits of src/agent/state.rs and src/agent/security.rs: a grant only widens what is covered,
-- and covers what it was given for.

use stavlos.Common.{
  ◌≡◌, refl, Bool, true, false, ◌||◌, List, [], ◌∷◌, ◌++◌, Text, is_empty, contains, any, all,
  text_eq, text_eq_refl, text_eq_iff, arith,
}
use stavlos.Common.Map.{get, get-insert}
use stavlos.Policy.{Kind, Subject}
use stavlos.ToolName.{canonical}
use stavlos.Security.{
  Web, prefix_covers, Permits, PermitPayload, call_key, or_no_prefixes, push_new, apply,
  covers_value, permits_cover,
}

any-append {ℓ} :
    {A : Type ℓ} (p : A → Bool) (xs ys : List A) → any p (xs ++ ys) ≡ (any p xs || any p ys)
any-append p [] ys = refl
any-append p (x ∷ xs) ys = ground (arith, any-append p xs ys)

-- A list that gains an element keeps what held of one of its elements, and holds the new one.
any-push_new :
    (p : Text → Bool) (xs : List Text) (x : Text) → any p xs ≡ true → any p (push_new xs x) ≡ true
any-push_new p xs x h = ground (arith, any-append p xs (x ∷ []))

any_of_contains :
    (p : Text → Bool) (xs : List Text) (x : Text)
    → contains xs x ≡ true
    → p x ≡ true
    → any p xs ≡ true
any_of_contains p [] x h k = cc
any_of_contains p (y ∷ xs) x h k = ground (arith, text_eq_iff y x, any_of_contains p xs x)

any-push_new_self :
    (p : Text → Bool) (xs : List Text) (x : Text) → p x ≡ true → any p (push_new xs x) ≡ true
any-push_new_self p xs x h = ground (arith, any-append p xs (x ∷ []), any_of_contains p xs x)

module _ (w : Web) where
  pub covers_value-apply :
      (p : Permits) (g : PermitPayload) (tool : Text) (k : Kind) (value : Text)
      → covers_value w p tool k value ≡ true
      → covers_value w (apply p g) tool k value ≡ true
  unfolding covers_value apply
  covers_value-apply p g tool k value h = ground (
    arith,
    get-insert p.prefixes (canonical g.tool) tool
        (push_new (or_no_prefixes (get p.prefixes (canonical g.tool))) g.prefix),
    text_eq_iff (canonical g.tool) tool,
    any-push_new (λ granted. prefix_covers w k granted value)
        (or_no_prefixes (get p.prefixes (canonical g.tool))) g.prefix,
    any-push_new (λ c. text_eq c (call_key tool value)) p.calls
        (call_key (canonical g.tool) g.call),
  )

  -- The granted call is covered.
  pub covers_value-apply_call :
      (p : Permits) (g : PermitPayload) (k : Kind)
      → canonical g.tool ≡ g.tool
      → g.prefix ≡ []
      → is_empty g.call ≡ false
      → covers_value w (apply p g) g.tool k g.call ≡ true
  unfolding covers_value apply
  covers_value-apply_call p g k c e n = ground (
    arith,
    any-push_new_self (λ d. text_eq d (call_key g.tool g.call)) p.calls (call_key g.tool g.call),
    text_eq_refl (call_key g.tool g.call),
  )

  -- So is each call that the granted prefix covers.
  pub covers_value-apply_prefix :
      (p : Permits) (g : PermitPayload) (k : Kind) (value : Text)
      → canonical g.tool ≡ g.tool
      → is_empty g.prefix ≡ false
      → prefix_covers w k g.prefix value ≡ true
      → covers_value w (apply p g) g.tool k value ≡ true
  unfolding covers_value apply
  covers_value-apply_prefix p g k value c n h = ground (
    arith,
    get-insert p.prefixes g.tool g.tool
        (push_new (or_no_prefixes (get p.prefixes g.tool)) g.prefix),
    text_eq_refl g.tool,
    any-push_new_self (λ granted. prefix_covers w k granted value)
        (or_no_prefixes (get p.prefixes g.tool)) g.prefix,
  )

  all_covers-apply :
      (p : Permits) (g : PermitPayload) (tool : Text) (k : Kind) (values : List Text)
      → all (covers_value w p tool k) values ≡ true
      → all (covers_value w (apply p g) tool k) values ≡ true
  all_covers-apply p g tool k [] h = refl
  all_covers-apply p g tool k (v ∷ vs) h =
      ground (arith, covers_value-apply p g tool k v, all_covers-apply p g tool k vs)

  -- One more grant never uncovers a call.
  pub permits_cover-apply :
      (p : Permits) (g : PermitPayload) (tool : Text) (s : Subject)
      → permits_cover w p tool s ≡ true
      → permits_cover w (apply p g) tool s ≡ true
  unfolding permits_cover
  permits_cover-apply p g tool s h = ground (arith, all_covers-apply p g tool s.kind s.values)
