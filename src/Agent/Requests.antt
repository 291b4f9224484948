-- ===== src/Agent/Requests.antt =====
-- The ledger of requests of src/agent/state.rs: who owes whom a reply.
use stavlos.Common.{
  ℕ, ◌+◌, ltb, if◌then◌else◌, Bool, true, false, not, ◌&&◌, ◌||◌, Option, none, some, List, [], ◌∷◌,
  ◌++◌, map, Text, codes, is_empty, text_eq, contains, any, filter, length, take,
}
use stavlos.Common.Map.{get, insert, remove, modify, has, values}
use stavlos.Common.Sets.{set_insert, set_remove}
use stavlos.Common.Str.{split_whitespace, join_words}
use stavlos.ToolName.{user}
use stavlos.Agent.Types.{ReplyRequest, Reply, Input, AgentState, ChannelState}

-- `owed_by`: whom an input obliges to be answered, or the empty name.
unfoldable pub owed_by : Input → Text
owed_by i =
    if i.expect_response
    then i.from
    else if text_eq i.kind (codes "request")
    then i.from
    else if text_eq i.kind (codes "steer")
        && (is_empty i.from && (not (is_empty i.post) || not (is_empty i.request_id)))
    then user
    else if text_eq i.kind (codes "prompt") && (is_empty i.from && not (is_empty i.request_id))
    then user
    else []

unfoldable pub request_id : Input → Text
request_id i = if is_empty i.request_id then i.id else i.request_id

-- The text of a request, cut to 200 characters with an ellipsis.
unfoldable pub excerpt : Text → Text
unfolding split_whitespace join_words
excerpt text =
    let words = join_words (split_whitespace text) in
    if ltb 200 (length words) then take 199 words ++ (0x2026 ∷ []) else words

unfoldable pub reply_request : Input → Text → ReplyRequest
reply_request i party = record {
  channel = i.channel;
  channel_name = i.channel_name;
  id = request_id i;
  from = party;
  from_name = if text_eq party user then user else i.from_name;
  to = i.to;
  text = excerpt i.text;
  post = i.post;
}

-- A new entry of the ledger.
unfoldable pub fresh_reply : Input → Text → ℕ → Reply
fresh_reply i party seq = record {
  request = reply_request i party;
  seq = seq;
  legacy = is_empty i.request_id;
  open_ = [];
  held = [];
}

abbrev pub open_for : Text → Reply → Reply
open_for target r = record r { open_ = set_insert r.open_ target }

-- The two writes of `asked`, once somebody is owed a reply.
unfoldable pub ask_for : ChannelState → Input → Text → Text → ChannelState
ask_for s i party target =
    let id = request_id i in
    if has s.requests id
    then record s { requests = modify s.requests id (open_for target) }
    else record s {
      request_seq = s.request_seq + 1;
      requests = insert s.requests id (open_for target (fresh_reply i party (s.request_seq + 1)));
    }

unfoldable pub asked : ChannelState → Input → Text → ChannelState × Option Text
asked s i target =
    if is_empty (owed_by i)
    then (s, none)
    else (ask_for s i (owed_by i) target, some (request_id i))

abbrev pub without : Text → Reply → Reply
without responder r = record r {
  open_ = set_remove r.open_ responder;
  held = set_remove r.held responder;
}

unfoldable pub settle : ChannelState → Text → Text → ChannelState
settle s id responder = elim (get s.requests id) [
  | none ↦ s
  | some r ↦
      if is_empty (without responder r).open_
      then record s { requests = remove s.requests id }
      else record s { requests = modify s.requests id (without responder) }
]

-- What a reply does to its author: no nudges, and a settled turn.
abbrev pub answered_agent : AgentState → AgentState
answered_agent a = record a { nudges = 0; turn_settled = true }

unfoldable pub settle_by : ChannelState → Text → Text → ChannelState
settle_by s id responder =
    let t = settle s id responder in record t { agents = modify t.agents responder answered_agent }

abbrev pub is_from : Text → Option Reply → Bool
is_from party none = false
is_from party (some r) = text_eq r.request.from party

unfoldable pub settle_replies : ChannelState → Text → Text → List Text → ChannelState
settle_replies s responder recipient [] = s
settle_replies s responder recipient (id ∷ ids) =
    settle_replies (if is_from recipient (get s.requests id) then settle_by s id responder else s)
      responder recipient ids

-- `sort_by_key(|r| r.seq)`
unfoldable pub place : Reply → List Reply → List Reply
place a [] = a ∷ []
place a (b ∷ bs) = let later = b ∷ place a bs in if ltb b.seq a.seq then later else a ∷ b ∷ bs

unfoldable pub sort_by_seq : List Reply → List Reply
unfolding place
sort_by_seq [] = []
sort_by_seq (a ∷ rest) = place a (sort_by_seq rest)

unfoldable pub open_requests : ChannelState → List Reply
unfolding sort_by_seq values
open_requests s = sort_by_seq (values s.requests)

unfoldable pub settle_each : ChannelState → Text → List Text → ChannelState
settle_each s responder [] = s
settle_each s responder (id ∷ ids) = settle_each (settle_by s id responder) responder ids

abbrev pub legacy_open : Text → Text → Reply → Bool
legacy_open responder recipient r =
    r.legacy && (text_eq r.request.from recipient && contains r.open_ responder)

unfoldable pub settle_legacy : ChannelState → Text → Text → ChannelState
settle_legacy s responder recipient =
    settle_each s responder
      (map (λ r. r.request.id) (filter (legacy_open responder recipient) (open_requests s)))

-- The loop of `forget_party`
unfoldable pub forget_each : ChannelState → Text → List Text → ChannelState
forget_each s party [] = s
forget_each s party (id ∷ ids) =
    forget_each
      (if is_from party (get s.requests id)
        then record s { requests = remove s.requests id }
        else settle s id party)
      party ids

unfoldable pub forget_party : ChannelState → Text → ChannelState
forget_party s party = forget_each s party (map (λ r. r.request.id) (open_requests s))

-- The inbox without the first input of an id, and that input.
unfoldable pub pull : Text → List Input → Option (Input × List Input)
pull id [] = none
pull id (i ∷ is) =
    let rest = pull id is in
    if text_eq i.id id
    then some (i, is)
    else elim rest [ none ↦ none | some (j, js) ↦ some (j, i ∷ js) ]

-- What taking an input does to the agent.
unfoldable pub took : Input → List Input → AgentState → AgentState
took i rest a = record a {
  inbox = rest;
  turn_reminder_only = text_eq i.kind (codes "reminder") && a.turn_reminder_only;
  last_post =
      if is_empty i.from && (text_eq i.kind (codes "prompt") || text_eq i.kind (codes "steer"))
      then i.post
      else a.last_post;
}

abbrev pub hold_for : Text → Reply → Reply
hold_for target r = record r { held = set_insert r.held target }

-- `if let Some(request) = self.asked(&input, target)`
unfoldable pub hold : ChannelState × Option Text → Text → ChannelState
hold (s, none) target = s
hold (s, some id) target = record s {
  requests = modify s.requests id (hold_for target);
  agents = modify s.agents target (λ a. record a { nudges = 0 });
}

unfoldable pub take_one : ChannelState → Text → Text → AgentState → ChannelState
take_one s target id a = elim (pull id a.inbox) [
  | none ↦ s
  | some (i, rest) ↦
      hold (asked (record s { agents = modify s.agents target (took i rest) }) i target) target
]

-- The loop of `taken`; it stops where the agent is not known.
unfoldable pub taken : ChannelState → Text → List Text → ChannelState
taken s target [] = s
taken s target (id ∷ ids) = elim (get s.agents target) [
  | none ↦ s
  | some a ↦ taken (take_one s target id a) target ids
]

unfoldable pub pending_replies : ChannelState → Text → List ReplyRequest
pending_replies s agent =
    map (λ r. r.request) (filter (λ r. contains r.held agent) (open_requests s))

unfoldable pub awaiting_any : ChannelState → Text → Bool
unfolding values
awaiting_any s agent =
    any (λ r. text_eq r.request.from agent && not (is_empty r.open_)) (values s.requests)

unfoldable pub owed_request : ChannelState → Text → Text → Option ReplyRequest
owed_request s agent id = elim (get s.requests id) [
  | none ↦ none
  | some r ↦ if contains r.held agent then some r.request else none
]

abbrev pub has_jobs : Option AgentState → Bool
has_jobs none = false
has_jobs (some a) = not (is_empty a.jobs)

unfoldable pub waiting : ChannelState → Text → Bool
waiting s agent = awaiting_any s agent || has_jobs (get s.agents agent)

unfoldable pub status : ChannelState → Text → Text
status s id = elim (get s.agents id) [
  | none ↦ codes "idle"
  | some a ↦
      if a.killed
      then codes "killed"
      else if a.in_turn && not (is_empty a.asks)
      then codes "blocked"
      else if a.in_turn
      then codes "running"
      else if waiting s id
      then codes "waiting"
      else codes "idle"
]
