-- ===== src/Policy.antt =====
-- src/policy.rs: rules with globs, and their project and role overlays.
-- The `regex` crate is a parameter: a compiled expression is its text.
pub mod Select
pub mod Judge
pub mod Merge
mod Tests
use mathlib.Core.List.{foldl}
use mathlib.Core.Option
use stavlos.Common.{
  ℕ, zero, suc, ◌+◌, ◌==◌, ltb, if◌then◌else◌, Bool, true, false, not, ◌&&◌, ◌||◌, Option, none,
  some, List, [], ◌∷◌, ◌++◌, map, Text, codes, is_empty, text_eq, filter,
}
use stavlos.Common.Str.{byte_len}
use stavlos.Shell.Commands.{commands}

pub data Verb : Type 0 where
  allow ask deny : Verb

-- The derived order of `Verb`.
abbrev pub rank : Verb → ℕ
rank allow = 0
rank ask = 1
rank deny = 2

-- `std::cmp::max`
unfoldable pub max_verb : Verb → Verb → Verb
max_verb v w = if ltb (rank w) (rank v) then v else w

pub data Kind : Type 0 where
  text command path url id : Kind

abbrev pub is_command : Kind → Bool
is_command command = true
is_command _ = false

abbrev pub is_path : Kind → Bool
is_path path = true
is_path _ = false

pub record Subject : Type 0 where
  pub kind : Kind
  pub values : List Text

abbrev pub first_or_empty : List Text → Text
first_or_empty [] = []
first_or_empty (v ∷ vs) = v

unfoldable pub primary : Subject → Text
primary s = first_or_empty s.values

-- The embedded commands of each value, but for the value itself.
unfoldable pub embedded : List Text → List Text
embedded [] = []
embedded (value ∷ values) = filter (λ c. not (text_eq c value)) (commands value) ++ embedded values

unfoldable pub or_empty_text : List Text → List Text
or_empty_text [] = [] ∷ []
or_empty_text (t ∷ ts) = t ∷ ts

unfoldable pub texts : Subject → List Text
unfolding embedded or_empty_text
texts s = or_empty_text (if is_command s.kind then s.values ++ embedded s.values else s.values)

pub record Rule : Type 0 where
  pub tool : Text
  pub pattern : Text
  pub verb : Verb

pub record Compiled : Type 0 where
  pub rule : Rule
  pub tool : Text
  pub flat : Text
  pub path : Text
  pub literal : ℕ
  pub tool_literal : ℕ

abbrev pub Set : Type 0
Set = List Compiled

-- `regex::escape` of one character, and `Regex::new(expression).is_match(text)`.
pub record Regex : Type 0 where
  pub escape : ℕ → Text
  pub is_match : Text → Text → Bool

-- `pattern.find(['*', '?']).unwrap_or(pattern.len())`
unfoldable pub literal_prefix : Text → ℕ
unfolding byte_len
literal_prefix [] = 0
literal_prefix (c ∷ s) = if c == b'*' || c == b'?' then 0 else byte_len (c ∷ []) + literal_prefix s

-- The order of the keys `(literal, tool_literal, verb)`.
unfoldable pub key_lt : Compiled → Compiled → Bool
key_lt a b =
    ltb a.literal b.literal
    || (a.literal == b.literal
        && (ltb a.tool_literal b.tool_literal
            || (a.tool_literal == b.tool_literal && ltb (rank a.rule.verb) (rank b.rule.verb))))

-- `max_by_key`: of equal keys the last one counts.
unfoldable pub max_from : Compiled → List Compiled → Compiled
max_from best [] = best
max_from best (c ∷ cs) = max_from (if key_lt c best then best else c) cs

unfoldable pub max_by_key : List Compiled → Option Compiled
max_by_key [] = none
max_by_key (c ∷ cs) = some (max_from c cs)

-- `unwrap_or_default`
abbrev pub or_ask : Option Verb → Verb
or_ask none = ask
or_ask (some v) = v

pub record Layered : Type 0 where
  pub base : Set
  pub overlays : List Set

unfoldable pub layered : Set → List Set → Layered
layered base overlays = record { base = base; overlays = filter (λ s. not (is_empty s)) overlays }

-- `Layered::with`
unfoldable pub with_overlay : Layered → Set → Layered
with_overlay l overlay =
    if is_empty overlay then l else record l { overlays = l.overlays ++ (overlay ∷ []) }

-- One round of the fold over the overlays; an overlay that says nothing is filtered out.
abbrev pub tighten : Verb → Option Verb → Verb
tighten v none = v
tighten v (some w) = max_verb v w

-- The loop of `judge` over the texts behind the first.
unfoldable pub judge_from : (Text → Verb) → Verb → Text → List Text → Verb × Text
judge_from one verb about [] = (verb, about)
judge_from one verb about (t ∷ ts) =
    let tighter = judge_from one (one t) t ts in
    let kept = judge_from one verb about ts in
    if ltb (rank verb) (rank (one t)) then tighter else kept

-- `texts` is never empty, so the first clause stands for no call.
unfoldable pub judge_texts : (Text → Verb) → List Text → Verb × Text
judge_texts one [] = (ask, [])
judge_texts one (t ∷ ts) = judge_from one (one t) t ts

unfoldable pub judge : Subject → (Text → Verb) → Verb × Text
judge s one =
    let (verb, about) = judge_texts one (texts s) in
    if is_command s.kind && (ltb 0 (rank verb) && not (text_eq about (primary s)))
    then (verb, primary s)
    else (verb, about)

module _ (r : Regex) where
  open r use {escape, is_match}

  -- The characters of a pattern; a second star that belongs to `**` is passed over.
  unfoldable pub glob_from : Bool → Text → Text
  glob_from segment [] = []
  glob_from segment (c ∷ []) =
      if c == b'*'
      then (if segment then codes "[^/]*" else codes ".*")
      else if c == b'?'
      then (if segment then codes "[^/]" else codes ".")
      else escape c
  glob_from segment (c ∷ d ∷ rest) =
      let both = codes ".*" ++ glob_from segment rest in
      let star = (if segment then codes "[^/]*" else codes ".*") ++ glob_from segment (d ∷ rest) in
      let mark = (if segment then codes "[^/]" else codes ".") ++ glob_from segment (d ∷ rest) in
      let plain = escape c ++ glob_from segment (d ∷ rest) in
      if c == b'*' && d == b'*'
      then both
      else if c == b'*'
      then star
      else if c == b'?'
      then mark
      else plain

  unfoldable pub glob : Text → Bool → Text
  unfolding glob_from
  glob pattern segment = codes "(?s)\\A" ++ (glob_from segment pattern ++ codes "\\z")

  unfoldable pub compile : Rule → Compiled
  unfolding glob literal_prefix text_eq
  compile rule = record {
    rule = rule;
    tool = glob rule.tool false;
    flat = glob rule.pattern false;
    path = glob rule.pattern (not (text_eq rule.pattern (codes "*")));
    literal = literal_prefix rule.pattern;
    tool_literal = literal_prefix rule.tool;
  }

  -- `Set::new`
  unfoldable pub new_set : List Rule → Set
  unfolding compile
  new_set rules = map compile rules

  unfoldable pub matches : Text → Kind → Text → Compiled → Bool
  matches tool kind subject c =
      is_match c.tool tool && is_match (if is_path kind then c.path else c.flat) subject

  unfoldable pub select : Set → Text → Kind → Text → Option Compiled
  select set tool kind subject = max_by_key (filter (matches tool kind subject) set)

  unfoldable pub lookup : Set → Text → Kind → Text → Option Verb
  lookup set tool kind subject = elim (select set tool kind subject) [
    | none ↦ none
    | some c ↦ some c.rule.verb
  ]

  unfoldable pub overlaid : List Set → Text → Kind → Text → Verb → Verb
  overlaid [] tool kind subject v = v
  overlaid (s ∷ ss) tool kind subject v =
      overlaid ss tool kind subject (tighten v (lookup s tool kind subject))

  -- `Set::decide`
  unfoldable pub decide : Set → Text → Subject → Verb
  decide set tool s = (judge s (λ t. or_ask (lookup set tool s.kind t))).0

  -- `Layered::decide`
  unfoldable pub decide_layered : Layered → Text → Subject → Verb × Text
  decide_layered l tool s =
      judge s (λ t. overlaid l.overlays tool s.kind t (or_ask (lookup l.base tool s.kind t)))

abbrev pub same_key : Compiled → Compiled → Bool
same_key a b = text_eq a.rule.tool b.rule.tool && text_eq a.rule.pattern b.rule.pattern

-- The body of the loop of `merge`: a rule with the same tool and pattern is replaced in place.
unfoldable pub merge_rule : Set → Compiled → Set
merge_rule [] rule = rule ∷ []
merge_rule (c ∷ cs) rule =
    let later = c ∷ merge_rule cs rule in if same_key c rule then rule ∷ cs else later

unfoldable pub merge : Set → Set → Set
unfolding merge_rule
merge self other = foldl merge_rule self other

-- `Set::rules`
unfoldable pub rules : Set → List Rule
rules set = map (λ c. c.rule) set
