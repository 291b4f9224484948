-- ===== src/Policy/Tests.antt =====
-- The rules at concrete inputs.
use stavlos.Common.{
  ◌≡◌, ◌≤◌, ◌↔◌, ◌||◌, refl, true, false, some, [], ◌∷◌, ◌++◌, codes, text_eq, All, filter,
  contains, inr,
}
use stavlos.Policy.{
  allow, ask, deny, rank, Kind, command, Compiled, Set, Regex, new_set, compile, glob, matches,
  key_lt, max_from, max_by_key, select, lookup, decide, decide_layered, Layered, with_overlay,
  merge, texts, judge, judge_texts, judge_from,
}
use stavlos.Policy.Judge.{with_overlay_tightens, decide_layered_bounds}
use stavlos.Policy.Select.{In, lookup-some}
use stavlos.Policy.Merge.{find_rule, find_last, HasOneEach, merge_rules}

-- Expressions that match the texts equal to them, and the expression of `*`.
abbrev plain_regex : Regex
plain_regex = record {
  escape = λ c. c ∷ [];
  is_match =
      λ e t. text_eq e (codes "(?s)\\A.*\\z") || text_eq e (codes "(?s)\\A" ++ (t ++ codes "\\z"));
}

abbrev base_rules : Set
base_rules = new_set plain_regex (
    record { tool = codes "shell"; pattern = codes "*"; verb = allow }
    ∷ record { tool = codes "*"; pattern = codes "rm x"; verb = ask }
    ∷ [])

abbrev strict_rules : Set
strict_rules =
    new_set plain_regex (record { tool = codes "shell"; pattern = codes "rm x"; verb = deny } ∷ [])

abbrev base_layer : Layered
base_layer = record { base = base_rules; overlays = [] }

glob_path : glob plain_regex (codes "src/**/a?*") true ≡ codes "(?s)\\Asrc/.*/a[^/][^/]*\\z"
unfolding glob
glob_path = refl

decide_narrow :
    decide plain_regex base_rules
      (codes "shell")
      (record { kind = Kind.text; values = codes "rm x" ∷ [] })
    ≡ ask
unfolding decide judge judge_texts judge_from texts lookup select max_by_key max_from key_lt matches
    text_eq new_set
decide_narrow = refl

with_overlay_tightens_example :
    rank
      (decide_layered plain_regex base_layer
        (codes "shell")
        (record { kind = command; values = codes "rm x" ∷ [] })).0
    ≤ rank
        (decide_layered plain_regex
          (with_overlay base_layer strict_rules)
          (codes "shell")
          (record { kind = command; values = codes "rm x" ∷ [] })).0
with_overlay_tightens_example =
    with_overlay_tightens plain_regex base_layer strict_rules (codes "shell")
      (record { kind = command; values = codes "rm x" ∷ [] })

abbrev patch_rules : Set
patch_rules =
    new_set plain_regex (record { tool = codes "patch"; pattern = codes "a"; verb = deny } ∷ [])

patch_denied : lookup plain_regex patch_rules (codes "patch") Kind.path (codes "a") ≡ some deny
unfolding lookup select max_by_key new_set matches max_from
patch_denied = refl

patch_texts :
    contains (texts (record { kind = Kind.path; values = codes "b" ∷ codes "a" ∷ [] })) (codes "a")
    ≡ true
unfolding texts text_eq
patch_texts = refl

decide_layered_bounds_example :
    rank deny
    ≤ rank
        (decide_layered plain_regex
          (record { base = base_rules; overlays = [] ++ (patch_rules ∷ []) })
          (codes "patch")
          (record { kind = Kind.path; values = codes "b" ∷ codes "a" ∷ [] })).0
decide_layered_bounds_example =
    decide_layered_bounds plain_regex base_rules [] [] patch_rules (codes "patch") (codes "a")
      (record { kind = Kind.path; values = codes "b" ∷ codes "a" ∷ [] }) deny patch_texts
      (inr patch_denied)

narrow_answer : lookup plain_regex base_rules (codes "shell") command (codes "rm x") ≡ some ask
unfolding lookup select max_by_key new_set matches max_from key_lt
narrow_answer = refl

lookup-some_example :
    (c : Compiled) × In c base_rules
    × (matches plain_regex (codes "shell") command (codes "rm x") c ≡ true)
    × (c.rule.verb ≡ ask)
    × All
        (λ d. key_lt c d ≡ false)
        (filter (matches plain_regex (codes "shell") command (codes "rm x")) base_rules)
lookup-some_example =
    lookup-some plain_regex base_rules (codes "shell") command (codes "rm x") ask narrow_answer

abbrev strict_rule : Compiled
strict_rule =
    compile plain_regex (record { tool = codes "shell"; pattern = codes "rm x"; verb = deny })

-- A set that replaces the strict rule.
abbrev mild_rules : Set
mild_rules =
    new_set plain_regex (record { tool = codes "shell"; pattern = codes "rm x"; verb = ask } ∷ [])

strict_rules-HasOneEach : HasOneEach strict_rules
unfolding HasOneEach find_rule new_set
strict_rules-HasOneEach = (refl, tt)

merge_rules_example : In strict_rule (merge strict_rules mild_rules) ↔ (
    find_last
      (find_rule strict_rules strict_rule.rule.tool strict_rule.rule.pattern)
      mild_rules
      strict_rule.rule.tool
      strict_rule.rule.pattern
    ≡ some strict_rule)
merge_rules_example = merge_rules strict_rules mild_rules strict_rule strict_rules-HasOneEach
