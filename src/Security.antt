-- ===== src/Security.antt =====
-- src/agent/security.rs and the permits of src/agent/state.rs: the verdict on a call, and what a
-- human's grants cover. `reqwest::Url::parse` and `char::to_lowercase` are parameters.
pub mod Verdict
pub mod Grants
pub mod Repeat
mod Tests
use stavlos.Common.{
  ℕ, ◌==◌, if◌then◌else◌, Bool, true, false, not, ◌&&◌, ◌||◌, Option, none, some, List, [], ◌∷◌,
  ◌++◌, map, Text, codes, is_empty, text_eq, contains, any, all, starts_with, drop,
}
use mathlib.Core.List.{reverse}
use stavlos.Common.Map.{Map, get, insert}
use stavlos.Common.Str.{has_char, contains_str, trim, split_once}
use stavlos.Policy.{Verb, allow, ask, deny, Kind, text, command, path, url, id, Subject}
use stavlos.Shell.Prefix.{prefix, covers}
use stavlos.ToolName.{canonical, search_tool, mcp_prefix}

pub record Facts : Type 0 where
  pub bare : Bool
  pub hidden : Bool
  pub ruled : Verb
  pub compound : Bool
  pub control : Bool
  pub permitted : Bool
  pub mode : Text
  pub egress : Bool
  pub outside : Bool

abbrev pub mode_ask : Text
mode_ask = codes "ask"

abbrev pub mode_auto : Text
mode_auto = codes "auto"

abbrev pub mode_yolo : Text
mode_yolo = codes "yolo"

unfoldable pub mode_verdict : Text → Bool → Bool → Bool → Verb
mode_verdict mode sticky egress outside =
    if text_eq mode mode_yolo && not sticky
    then allow
    else if text_eq mode mode_auto && outside
    then deny
    else if text_eq mode mode_auto && (not sticky && not egress)
    then allow
    else ask

abbrev pub is_allow : Verb → Bool
is_allow allow = true
is_allow _ = false

abbrev pub is_ask : Verb → Bool
is_ask ask = true
is_ask _ = false

abbrev pub is_deny : Verb → Bool
is_deny deny = true
is_deny _ = false

-- The first reassignment of `verdict`
unfoldable pub downgraded : Facts → Verb
downgraded f = if is_allow f.ruled && (f.compound || (f.control || f.bare)) then ask else f.ruled

-- The second one
unfoldable pub upgraded : Facts → Verb → Verb
upgraded f verdict = if is_ask verdict && (not f.control && f.permitted) then allow else verdict

-- The third one
unfoldable pub by_mode : Facts → Verb → Verb
unfolding mode_verdict
by_mode f verdict =
    if not (is_deny verdict) && (is_ask verdict || f.outside)
    then mode_verdict f.mode f.control f.egress f.outside
    else verdict

unfoldable pub judge : Facts → Verb
unfolding downgraded upgraded by_mode
judge f =
    if f.hidden
    then deny
    else if is_ask (downgraded f) && f.bare
    then (if f.outside && text_eq f.mode mode_auto then deny else ask)
    else by_mode f (upgraded f (downgraded f))

-- `Url::parse(raw).is_ok()`, and the first character of a character's lower case.
pub record Web : Type 0 where
  pub parses : Text → Bool
  pub lower : ℕ → ℕ

-- `split_once("://")`
unfoldable pub after_scheme : Text → Option Text
unfolding starts_with
after_scheme [] = none
after_scheme (c ∷ s) =
    let rest = after_scheme s in if starts_with (c ∷ s) (codes "://") then some (drop 2 s) else rest

-- The part of a text in front of the first character of a set.
unfoldable pub before_any : Text → Text → Text
before_any set [] = []
before_any set (c ∷ s) = let rest = c ∷ before_any set s in if has_char set c then [] else rest

-- `rsplit_once('@').map_or(authority, |(_, host)| host)`
unfoldable pub after_last : ℕ → Text → Text
unfolding before_any
after_last d s = reverse (before_any (d ∷ []) (reverse s))

-- The host and port without the port, or none for a `[` that is not closed.
unfoldable pub without_port : Text → Option Text
unfolding split_once before_any
without_port [] = some []
without_port (c ∷ s) =
    if c == b'['
    then elim (split_once b']' s) [ none ↦ none | some (host, rest) ↦ some host ]
    else some (before_any (codes ":") (c ∷ s))

abbrev pub or_empty : Option Text → Text
or_empty none = []
or_empty (some s) = s

module _ (w : Web) where
  open w use {parses, lower}

  unfoldable pub host_of : Text → Text
  unfolding after_scheme before_any after_last without_port
  host_of raw =
      let authority = before_any (codes "/?#") (or_empty (after_scheme raw)) in
      if not (parses raw)
      then []
      else if has_char authority b'\\'
      then []
      else map lower (or_empty (without_port (after_last b'@' authority)))

  unfoldable pub url_host : Text → Text
  unfolding host_of trim contains_str
  url_host raw =
      let trimmed = trim raw in
      if is_empty trimmed
      then []
      else host_of
          (if contains_str trimmed (codes "://") then trimmed else codes "https://" ++ trimmed)

  unfoldable pub prefix_for : Kind → Text → Text
  prefix_for command argument = prefix argument
  prefix_for url argument = url_host argument
  prefix_for text argument = []
  prefix_for path argument = []
  prefix_for id argument = []

  unfoldable pub prefix_covers : Kind → Text → Text → Bool
  prefix_covers command p argument = covers p argument
  prefix_covers url p argument = not (is_empty p) && text_eq (url_host argument) p
  prefix_covers text p argument = false
  prefix_covers path p argument = false
  prefix_covers id p argument = false

-- `Permits`: the set of granted calls, each as the tool, a zero and the call, and the granted
-- prefixes of each tool.
pub record Permits : Type 0 where
  pub calls : List Text
  pub prefixes : Map (List Text)

pub record PermitPayload : Type 0 where
  pub tool : Text
  pub call : Text
  pub prefix : Text

abbrev pub call_key : Text → Text → Text
call_key tool call = tool ++ (0 ∷ call)

abbrev pub or_no_prefixes : Option (List Text) → List Text
or_no_prefixes none = []
or_no_prefixes (some ps) = ps

abbrev pub push_new : List Text → Text → List Text
push_new ps p = if contains ps p then ps else ps ++ (p ∷ [])

-- `Permits::apply`
unfoldable pub apply : Permits → PermitPayload → Permits
apply p permit =
    let tool = canonical permit.tool in
    if not (is_empty permit.prefix)
    then record p {
      prefixes =
          insert p.prefixes tool (push_new (or_no_prefixes (get p.prefixes tool)) permit.prefix);
    }
    else if not (is_empty permit.call)
    then record p { calls = push_new p.calls (call_key tool permit.call) }
    else p

module _ (w : Web) where
  unfoldable pub covers_value : Permits → Text → Kind → Text → Bool
  covers_value p tool kind value =
      contains p.calls (call_key tool value)
      || any (λ granted. prefix_covers w kind granted value) (or_no_prefixes (get p.prefixes tool))

  -- `Permits::covers`
  unfoldable pub permits_cover : Permits → Text → Subject → Bool
  permits_cover p tool s = not (is_empty s.values) && all (covers_value p tool s.kind) s.values

  -- One entry of the configured hosts: `*`, `*.domain`, or a host.
  unfoldable pub host_allowed : Text → Text → Bool
  unfolding starts_with
  host_allowed host allowed =
      text_eq allowed (codes "*")
      || (if starts_with allowed (codes "*.")
          then starts_with (reverse host) (reverse (drop 1 allowed))
          else text_eq host allowed)

  unfoldable pub url_allowed : List Text → Text → Bool
  unfolding host_allowed
  url_allowed hosts u = not (is_empty (url_host w u)) && any (host_allowed (url_host w u)) hosts

  unfoldable pub hosts_allow : List Text → List Text → Bool
  hosts_allow hosts urls =
      not (is_empty hosts) && (not (is_empty urls) && all (url_allowed hosts) urls)

abbrev pub is_url : Kind → Bool
is_url url = true
is_url _ = false

unfoldable pub egress : Text → Subject → Bool
egress tool s = is_url s.kind || (text_eq tool search_tool || starts_with tool mcp_prefix)
