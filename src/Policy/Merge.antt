-- ===== src/Policy/Merge.antt =====
-- `merge` of src/policy.rs: the rules of the second set win.

use stavlos.Common.{
  ◌≡◌, ◌∙◌, refl, ap, ◌&&◌, Option, none, some, [], ◌∷◌, Text, text_eq, text_eq_iff, arith,
  if◌then◌else◌, ◌↔◌, sym, text_eq_refl, Bool-cases, inl, inr,
}
use stavlos.Policy.Select.{In}
use stavlos.Policy.{Compiled, Set, merge_rule, merge}

-- The first rule for a tool and a pattern.
unfoldable pub find_rule : Set → Text → Text → Option Compiled
find_rule [] tool pattern = none
find_rule (c ∷ cs) tool pattern =
    let rest = find_rule cs tool pattern in
    if text_eq c.rule.tool tool && text_eq c.rule.pattern pattern then some c else rest

-- The last one, or a given answer if there is none.
unfoldable pub find_last : Option Compiled → Set → Text → Text → Option Compiled
find_last found [] tool pattern = found
find_last found (c ∷ cs) tool pattern =
    find_last (if text_eq c.rule.tool tool && text_eq c.rule.pattern pattern then some c else found)
      cs tool pattern

find_rule-merge_rule :
    (s : Set) (c : Compiled) (tool pattern : Text)
    → find_rule (merge_rule s c) tool pattern ≡ (
        if text_eq c.rule.tool tool && text_eq c.rule.pattern pattern
        then some c
        else find_rule s tool pattern)
unfolding find_rule merge_rule
find_rule-merge_rule [] c tool pattern = refl
find_rule-merge_rule (d ∷ s) c tool pattern = ground (
  arith,
  find_rule-merge_rule s c tool pattern,
  text_eq_iff d.rule.tool c.rule.tool,
  text_eq_iff d.rule.pattern c.rule.pattern,
  text_eq_iff c.rule.tool tool,
  text_eq_iff c.rule.pattern pattern,
  text_eq_iff d.rule.tool tool,
  text_eq_iff d.rule.pattern pattern,
)

-- No tool and pattern has two rules.
unfoldable pub HasOneEach : Set → Type 0
HasOneEach [] = Unit
HasOneEach (c ∷ cs) = (find_rule cs c.rule.tool c.rule.pattern ≡ none) × HasOneEach cs

merge_rule-HasOneEach : (s : Set) (c : Compiled) → HasOneEach s → HasOneEach (merge_rule s c)
unfolding merge_rule HasOneEach find_rule
merge_rule-HasOneEach [] c h = (refl, tt)
merge_rule-HasOneEach (d ∷ s) c h = ground (
  arith,
  h.0,
  h.1,
  merge_rule-HasOneEach s c h.1,
  find_rule-merge_rule s c d.rule.tool d.rule.pattern,
  text_eq_iff d.rule.tool c.rule.tool,
  text_eq_iff d.rule.pattern c.rule.pattern,
  text_eq_iff c.rule.tool d.rule.tool,
  text_eq_iff c.rule.pattern d.rule.pattern,
)

find_rule-merge :
    (self other : Set) (tool pattern : Text)
    → find_rule (merge self other) tool pattern
      ≡ find_last (find_rule self tool pattern) other tool pattern
unfolding merge find_last
find_rule-merge self [] tool pattern = refl
find_rule-merge self (c ∷ other) tool pattern =
    find_rule-merge (merge_rule self c) other tool pattern
    ∙ ap (λ o. find_last o other tool pattern) (find_rule-merge_rule self c tool pattern)

merge-HasOneEach : (self other : Set) → HasOneEach self → HasOneEach (merge self other)
unfolding merge
merge-HasOneEach self [] h = h
merge-HasOneEach self (c ∷ other) h =
    merge-HasOneEach (merge_rule self c) other (merge_rule-HasOneEach self c h)

find_rule-In :
    (s : Set) (c : Compiled) (tool pattern : Text) → find_rule s tool pattern ≡ some c → In c s
unfolding find_rule
find_rule-In [] c tool pattern h = cc
find_rule-In (d ∷ s) c tool pattern h =
    elim (Bool-cases (text_eq d.rule.tool tool && text_eq d.rule.pattern pattern)) [
      | inl e ↦ inl (ground (arith, h, e))
      | inr e ↦ inr (find_rule-In s c tool pattern (ground (arith, h, e)))
    ]

In-find_rule :
    (s : Set) (c : Compiled)
    → HasOneEach s
    → In c s
    → find_rule s c.rule.tool c.rule.pattern ≡ some c
unfolding find_rule HasOneEach
In-find_rule [] c h m = absurd m
In-find_rule (d ∷ s) c h (inl e) =
    rw e (ground (arith, text_eq_refl d.rule.tool, text_eq_refl d.rule.pattern))
In-find_rule (d ∷ s) c h (inr m) = ground (
  arith,
  h.0,
  In-find_rule s c h.1 m,
  text_eq_iff d.rule.tool c.rule.tool,
  text_eq_iff d.rule.pattern c.rule.pattern,
)

-- Where no tool and pattern has two rules in the first set, a rule is in the merged set exactly if it
-- is the last one that the second set has for its tool and pattern, or the second set has none and it
-- is the first set's. A rule that the second set replaces is therefore gone.
pub merge_rules :
    (self other : Set) (c : Compiled)
    → HasOneEach self
    → In c (merge self other) ↔ (
        find_last (find_rule self c.rule.tool c.rule.pattern) other c.rule.tool c.rule.pattern
        ≡ some c)
merge_rules self other c h =
    let found = find_rule-merge self other c.rule.tool c.rule.pattern in
    (
      λ m. sym found ∙ In-find_rule (merge self other) c (merge-HasOneEach self other h) m,
      λ e. find_rule-In (merge self other) c c.rule.tool c.rule.pattern (found ∙ e),
    )
