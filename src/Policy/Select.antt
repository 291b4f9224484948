-- ===== src/Policy/Select.antt =====
-- `lookup` of src/policy.rs picks the matching rule with the greatest key.
use mathlib.Core.Path.{subst}
use mathlib.Core.Option.{some-injective}
use stavlos.Common.{
  ◌≡◌, ◌⊎◌, ◌↔◌, Option-cases, ◌∙◌, ap, refl, Bool, true, false, Option, none, some, List, [], ◌∷◌,
  Text, arith, Bool-cases, inl, inr, if◌then◌else◌, filter, All, any,
}
use stavlos.Policy.{
  Verb, Kind, Compiled, Regex, Set, matches, key_lt, max_from, max_by_key, select, lookup,
}

-- Neither key is less than itself, and the order is that of the three numbers in turn.
key_lt_trans : (a b c : Compiled) → key_lt b a ≡ false → key_lt c b ≡ false → key_lt c a ≡ false
unfolding key_lt
key_lt_trans a b c h k = ground arith

key_lt_irrefl : (a : Compiled) → key_lt a a ≡ false
unfolding key_lt
key_lt_irrefl a = ground arith

max_from_above : (best : Compiled) (cs : List Compiled) → key_lt (max_from best cs) best ≡ false
unfolding max_from
max_from_above best [] = key_lt_irrefl best
max_from_above best (c ∷ cs) = elim (Bool-cases (key_lt c best)) [
  | inl less ↦ rw less (max_from_above best cs)
  | inr more ↦ rw more (key_lt_trans best c (max_from c cs) more (max_from_above c cs))
]

key_lt_asym : (a b : Compiled) → key_lt a b ≡ true → key_lt b a ≡ false
unfolding key_lt
key_lt_asym a b h = ground arith

head_above :
    (best c : Compiled) (cs : List Compiled)
    → key_lt (max_from (if key_lt c best then best else c) cs) c ≡ false
head_above best c cs = elim (Bool-cases (key_lt c best)) [
  | inl less ↦
      rw less
        (key_lt_trans c best (max_from best cs) (key_lt_asym c best less) (max_from_above best cs))
  | inr more ↦ rw more (max_from_above c cs)
]

max_from_bounds :
    (best : Compiled) (cs : List Compiled) → All (λ d. key_lt (max_from best cs) d ≡ false) cs
unfolding max_from
max_from_bounds best [] = tt
max_from_bounds best (c ∷ cs) =
    (head_above best c cs, max_from_bounds (if key_lt c best then best else c) cs)

-- `a` is one of a list's elements.
abbrev pub In : Compiled → List Compiled → Type 0
In a [] = ⊥
In a (x ∷ xs) = (a ≡ x) ⊎ In a xs

pick : (b : Bool) (m best c : Compiled) → m ≡ (if b then best else c) → (m ≡ best) ⊎ (m ≡ c)
pick true m best c e = inl e
pick false m best c e = inr e

max_from-In : (best : Compiled) (cs : List Compiled) → In (max_from best cs) (best ∷ cs)
unfolding max_from
max_from-In best [] = inl refl
max_from-In best (c ∷ cs) = elim (max_from-In (if key_lt c best then best else c) cs) [
  | inr i ↦ inr (inr i)
  | inl e ↦ elim (pick (key_lt c best) _ best c e) [ inl f ↦ inl f | inr f ↦ inr (inl f) ]
]

hit_cases :
    (p : Compiled → Bool) (x : Compiled) (xs : List Compiled) (a : Compiled)
    → p x ≡ true
    → In a (filter p (x ∷ xs))
    → (a ≡ x) ⊎ In a (filter p xs)
hit_cases p x xs a hit i = rw hit at i

In-filter :
    (p : Compiled → Bool) (xs : List Compiled) (a : Compiled)
    → In a (filter p xs)
    → In a xs × (p a ≡ true)
In-filter p [] a i = absurd i
In-filter p (x ∷ xs) a i = elim (Bool-cases (p x)) [
  | inl hit ↦ elim (hit_cases p x xs a hit i) [
    | inl e ↦ (inl e, ap p e ∙ hit)
    | inr j ↦ (inr (In-filter p xs a j).0, (In-filter p xs a j).1)
  ]
  | inr miss ↦ let j = In-filter p xs a (rw miss at i) in (inr j.0, j.1)
]

-- The greatest of some rules, as `max_by_key` finds it.
max_by_key-some :
    (ms : List Compiled) (c : Compiled)
    → max_by_key ms ≡ some c
    → In c ms × All (λ d. key_lt c d ≡ false) ms
unfolding max_by_key
max_by_key-some [] c h = cc
max_by_key-some (m ∷ ms) c h =
    subst (λ d. In d (m ∷ ms) × All (λ e. key_lt d e ≡ false) (m ∷ ms))
      (some-injective (max_from m ms) c h)
      (max_from-In m ms, (max_from_above m ms, max_from_bounds m ms))

any-filter : (p : Compiled → Bool) (xs : List Compiled) → any p xs ≡ any (λ x. true) (filter p xs)
any-filter p [] = refl
any-filter p (x ∷ xs) = ground (arith, any-filter p xs)

max_by_key-none : (ms : List Compiled) → (max_by_key ms ≡ none) ↔ (any (λ x. true) ms ≡ false)
unfolding max_by_key
max_by_key-none [] = (λ _. refl, λ _. refl)
max_by_key-none (m ∷ ms) = (λ h. cc, λ h. cc)

module _ (r : Regex) (set : Set) (tool : Text) (k : Kind) (t : Text) where
  lookup-select :
      (v : Verb)
      → lookup r set tool k t ≡ some v
      → (c : Compiled) × (select r set tool k t ≡ some c) × (c.rule.verb ≡ v)
  unfolding lookup
  lookup-select v h = elim (Option-cases (select r set tool k t)) [
    | inl e ↦ let silent : ◌≡◌ {A = Option Verb} none (some v) = rw (e, lookup) at h in cc
    | inr (c, e) ↦ (c, e, some-injective c.rule.verb v (rw (e, lookup) at h))
  ]

  -- A verdict of `lookup` is the verb of a rule of the set that matches, and no rule that matches
  -- has a greater key.
  pub lookup-some :
      (v : Verb)
      → lookup r set tool k t ≡ some v
      → (c : Compiled) × In c set
        × (matches r tool k t c ≡ true)
        × (c.rule.verb ≡ v)
        × All (λ d. key_lt c d ≡ false) (filter (matches r tool k t) set)
  unfolding select
  lookup-some v h =
      let (c, e, verb) = lookup-select v h in
      let (i, greatest) = max_by_key-some (filter (matches r tool k t) set) c e in
      let (j, hit) = In-filter (matches r tool k t) set c i in (c, j, hit, verb, greatest)

  -- `lookup` is silent exactly where no rule of the set matches.
  pub lookup-none : (lookup r set tool k t ≡ none) ↔ (any (matches r tool k t) set ≡ false)
  unfolding lookup select
  lookup-none =
      let (to, from) = max_by_key-none (filter (matches r tool k t) set) in
      rw (any-filter (matches r tool k t) set) (ground arith)
