-- ===== src/Agent/Narrow.antt =====
-- What the events of a journal do to the permits: only a grant adds to them, and a move clears them.
use stavlos.Common.{
  ℕ, if◌then◌else◌, Bool, true, false, ◌&&◌, Option, none, some, List, [], ◌∷◌, Text, codes,
  is_empty, text_eq, arith, ◌≡◌, refl, Bool-cases, Option-cases, inl, inr,
}
use stavlos.Common.Map.{get, has, remove, modify}
use stavlos.ToolName.{user}
use stavlos.Security.{Permits}
use stavlos.Agent.Types.{Input, AgentState, ChannelState, no_permits}
use stavlos.Agent.Payloads.{
  Chat, ChannelUpdated, AgentUpdated, Event, Body, channel_created, channel_updated,
  channel_archived, channel_dir_added, channel_dir_removed, chat_message, agent_spawned,
  agent_updated, agent_killed, agent_cancelled, input_queued, input_taken, model_call_started,
  model_call_completed, permit_granted, sheet_written, sheet_deleted,
}
use stavlos.Agent.Requests.{
  owed_by, request_id, ask_for, asked, without, settle, settle_by, is_from, settle_replies,
  settle_each, settle_legacy, forget_each, forget_party, take_one, taken, pull, took, hold,
}
use stavlos.Agent.Fold.{
  create, update, move_to, add_dir, remove_dir, write_sheet, delete_sheet, spawn, update_agent,
  kill, killed_agent, cancel, note_recap, respond, queue, hear, count_call, is_work, apply_body,
  apply,
}

abbrev Keeps : Permits → ChannelState → Type 0
Keeps p s = s.permits ≡ p

if-Keeps :
    (p : Permits) (b : Bool) (t s : ChannelState)
    → Keeps p t
    → Keeps p s
    → Keeps p (if b then t else s)
if-Keeps p true t s h g = h
if-Keeps p false t s h g = g

asked-Keeps :
    (p : Permits) (s : ChannelState) (i : Input) (target : Text)
    → Keeps p s
    → Keeps p (asked s i target).0
unfolding asked ask_for
asked-Keeps p s i target h = elim (Bool-cases (is_empty (owed_by i))) [
  | inl e ↦ rw (e, asked) h
  | inr e ↦ rw (e, asked) (if-Keeps p (has s.requests (request_id i)) _ _ h h)
]

settle-Keeps :
    (p : Permits) (s : ChannelState) (id responder : Text)
    → Keeps p s
    → Keeps p (settle s id responder)
unfolding settle
settle-Keeps p s id responder h = elim (Option-cases (get s.requests id)) [
  | inl e ↦ rw (e, settle) h
  | inr (r, e) ↦ rw (e, settle) (if-Keeps p (is_empty (without responder r).open_) _ _ h h)
]

settle_replies-Keeps :
    (p : Permits) (s : ChannelState) (responder recipient : Text) (ids : List Text)
    → Keeps p s
    → Keeps p (settle_replies s responder recipient ids)
unfolding settle_replies settle_by
settle_replies-Keeps p s responder recipient [] h = h
settle_replies-Keeps p s responder recipient (id ∷ ids) h =
    settle_replies-Keeps p
      (if is_from recipient (get s.requests id) then settle_by s id responder else s) responder
      recipient ids
      (if-Keeps p (is_from recipient (get s.requests id)) (settle_by s id responder) s
        (settle-Keeps p s id responder h) h)

settle_each-Keeps :
    (p : Permits) (s : ChannelState) (responder : Text) (ids : List Text)
    → Keeps p s
    → Keeps p (settle_each s responder ids)
unfolding settle_each settle_by
settle_each-Keeps p s responder [] h = h
settle_each-Keeps p s responder (id ∷ ids) h =
    settle_each-Keeps p (settle_by s id responder) responder ids (settle-Keeps p s id responder h)

settle_legacy-Keeps :
    (p : Permits) (s : ChannelState) (responder recipient : Text)
    → Keeps p s
    → Keeps p (settle_legacy s responder recipient)
unfolding settle_legacy
settle_legacy-Keeps p s responder recipient h = settle_each-Keeps p s responder _ h

forget_each-Keeps :
    (p : Permits) (s : ChannelState) (party : Text) (ids : List Text)
    → Keeps p s
    → Keeps p (forget_each s party ids)
unfolding forget_each
forget_each-Keeps p s party [] h = h
forget_each-Keeps p s party (id ∷ ids) h =
    forget_each-Keeps p
      (if is_from party (get s.requests id)
        then record s { requests = remove s.requests id }
        else settle s id party)
      party ids
      (if-Keeps p (is_from party (get s.requests id)) (record s { requests = remove s.requests id })
        (settle s id party) h (settle-Keeps p s id party h))

forget_party-Keeps :
    (p : Permits) (s : ChannelState) (party : Text) → Keeps p s → Keeps p (forget_party s party)
unfolding forget_party
forget_party-Keeps p s party h = forget_each-Keeps p s party _ h

hold-Keeps :
    (p : Permits) (s : ChannelState) (o : Option Text) (target : Text)
    → Keeps p s
    → Keeps p (hold (s, o) target)
unfolding hold
hold-Keeps p s none target h = h
hold-Keeps p s (some id) target h = h

take_one-Keeps :
    (p : Permits) (s : ChannelState) (target id : Text) (a : AgentState)
    → Keeps p s
    → Keeps p (take_one s target id a)
unfolding take_one
take_one-Keeps p s target id a h = elim (Option-cases (pull id a.inbox)) [
  | inl e ↦ rw (e, take_one) h
  | inr ((i, rest), e) ↦
      let t : ChannelState = record s { agents = modify s.agents target (took i rest) } in
      rw (e, take_one)
        (hold-Keeps p (asked t i target).0 (asked t i target).1 target (asked-Keeps p t i target h))
]

taken-Keeps :
    (p : Permits) (s : ChannelState) (target : Text) (ids : List Text)
    → Keeps p s
    → Keeps p (taken s target ids)
unfolding taken
taken-Keeps p s target [] h = h
taken-Keeps p s target (id ∷ ids) h =
    elim (get s.agents target)
      as (λ o. Keeps p (elim o [ none ↦ s | some a ↦ taken (take_one s target id a) target ids ])) [
        | none ↦ h
        | some a ↦
            taken-Keeps p (take_one s target id a) target ids (take_one-Keeps p s target id a h)
      ]

respond-Keeps :
    (p : Permits) (s : ChannelState) (i : Input) (agent : Text)
    → Keeps p s
    → Keeps p (respond s i agent)
unfolding respond
respond-Keeps p s i agent h =
    if-Keeps p (text_eq i.kind (codes "response") && has s.agents i.from)
      (if is_empty i.reply_to
        then settle_legacy s i.from agent
        else settle_replies s i.from agent i.reply_to)
      s
      (if-Keeps p (is_empty i.reply_to) (settle_legacy s i.from agent)
        (settle_replies s i.from agent i.reply_to) (settle_legacy-Keeps p s i.from agent h)
        (settle_replies-Keeps p s i.from agent i.reply_to h))
      h

queue-Keeps :
    (p : Permits) (s : ChannelState) (agent : Text) (i : Input) (time : ℕ)
    → Keeps p s
    → Keeps p (queue s agent i time).0
unfolding queue
queue-Keeps p s agent i time h = elim (Bool-cases (has s.agents agent)) [
  | inl e ↦
      rw (e, queue)
        (respond-Keeps p (note_recap (asked s i agent).0 i time) i agent (
          if-Keeps p i.recap (record (asked s i agent).0 { last_recap = time; recap_open = true })
            (asked s i agent).0 (asked-Keeps p s i agent h) (asked-Keeps p s i agent h)))
  | inr e ↦ rw (e, queue) h
]

hear-Keeps :
    (p : Permits) (s : ChannelState) (agent : Text) (chat : Option Chat) (time : ℕ)
    → Keeps p s
    → Keeps p (hear s agent chat time)
unfolding hear
hear-Keeps p s agent none time h = h
hear-Keeps p s agent (some chat) time h =
    let t : ChannelState = record s { last_heard = time; recap_open = false } in
    if-Keeps p (has t.agents agent)
      (if is_empty chat.kind
        then settle_legacy t agent user
        else if text_eq chat.kind (codes "response")
        then settle_replies t agent user chat.reply_to
        else t)
      t
      (if-Keeps p (is_empty chat.kind) (settle_legacy t agent user)
        (if text_eq chat.kind (codes "response")
          then settle_replies t agent user chat.reply_to
          else t)
        (settle_legacy-Keeps p t agent user h)
        (if-Keeps p (text_eq chat.kind (codes "response"))
          (settle_replies t agent user chat.reply_to) t
          (settle_replies-Keeps p t agent user chat.reply_to h) h))
      h

kill-Keeps : (p : Permits) (s : ChannelState) (agent : Text) → Keeps p s → Keeps p (kill s agent)
unfolding kill
kill-Keeps p s agent h =
    let t : ChannelState = record s { agents = modify s.agents agent killed_agent } in
    if-Keeps p (has s.agents agent) (forget_party t agent) s (forget_party-Keeps p t agent h) h

update_agent-Keeps :
    (p : Permits) (s : ChannelState) (agent : Text) (u : AgentUpdated)
    → Keeps p s
    → Keeps p (update_agent s agent u)
unfolding update_agent
update_agent-Keeps p s agent u h = elim (Option-cases (get s.agents agent)) [
  | inl e ↦ rw (e, update_agent) h
  | inr (a, e) ↦ elim (Option-cases u.name) [
    | inl n ↦ rw (e, n, update_agent) h
    | inr (m, n) ↦ rw (e, n, update_agent) h
  ]
]

-- The bodies that may change the permits
abbrev pub is_grant : Body → Bool
is_grant (permit_granted p) = true
is_grant _ = false

abbrev pub is_move : Body → Bool
is_move (channel_updated (some u)) = elim u.dir [ none ↦ false | some d ↦ true ]
is_move _ = false

update-permits :
    (s : ChannelState) (agent : Text) (time : ℕ) (u : ChannelUpdated)
    → (update s u).permits ≡ (if is_move (channel_updated (some u)) then no_permits else s.permits)
unfolding update move_to
update-permits s agent time u = elim (Option-cases u.dir) [
  | inl e ↦ rw (e, update) refl
  | inr (d, e) ↦ rw (e, update) refl
]

apply_body-permits :
    (s : ChannelState) (agent : Text) (time : ℕ) (b : Body)
    → is_grant b ≡ false
    → (apply_body s agent time b).0.permits ≡ (if is_move b then no_permits else s.permits)
unfolding apply_body create count_call remove_dir write_sheet delete_sheet add_dir spawn
apply_body-permits s agent time model_call_started h = refl
apply_body-permits s agent time (model_call_completed (some p)) h = refl
apply_body-permits s agent time (model_call_completed none) h = refl
apply_body-permits s agent time (channel_created (some c)) h = refl
apply_body-permits s agent time (channel_created none) h = refl
apply_body-permits s agent time (channel_updated (some u)) h = update-permits s agent time u
apply_body-permits s agent time (channel_updated none) h = refl
apply_body-permits s agent time channel_archived h = refl
apply_body-permits s agent time (channel_dir_added (some d)) h = if-Keeps s.permits _ s _ refl refl
apply_body-permits s agent time (channel_dir_added none) h = refl
apply_body-permits s agent time (channel_dir_removed (some d)) h = refl
apply_body-permits s agent time (channel_dir_removed none) h = refl
apply_body-permits s agent time (permit_granted p) h = ground arith
apply_body-permits s agent time (sheet_written (some p)) h = if-Keeps s.permits _ s _ refl refl
apply_body-permits s agent time (sheet_written none) h = refl
apply_body-permits s agent time (sheet_deleted (some p)) h = if-Keeps s.permits _ s _ refl refl
apply_body-permits s agent time (sheet_deleted none) h = refl
apply_body-permits s agent time (agent_spawned (some p)) h = if-Keeps s.permits _ s _ refl refl
apply_body-permits s agent time (agent_spawned none) h = refl
apply_body-permits s agent time (agent_updated (some u)) h =
    update_agent-Keeps s.permits s agent u refl
apply_body-permits s agent time (agent_updated none) h = refl
apply_body-permits s agent time agent_killed h = kill-Keeps s.permits s agent refl
apply_body-permits s agent time agent_cancelled h =
    unfold cancel in forget_party-Keeps s.permits s agent refl
apply_body-permits s agent time (input_queued (some i)) h =
    queue-Keeps s.permits s agent i time refl
apply_body-permits s agent time (input_queued none) h = refl
apply_body-permits s agent time (chat_message chat) h = hear-Keeps s.permits s agent chat time refl
apply_body-permits s agent time (input_taken (some ids)) h = taken-Keeps s.permits s agent ids refl
apply_body-permits s agent time (input_taken none) h = refl
apply_body-permits s agent time _ h = refl

-- An event that is no grant leaves the channel's permits as they are; if it moves the channel to
-- another directory, it takes all of them away.
pub apply-permits :
    (s : ChannelState) (e : Event)
    → is_grant e.body ≡ false
    → (apply s e).0.permits ≡ (if is_move e.body then no_permits else s.permits)
unfolding apply
apply-permits s e h = elim (Bool-cases (is_work e.body)) [
  | inl w ↦
      rw (w, apply) (apply_body-permits (record s { last_work = e.time }) e.agent e.time e.body h)
  | inr w ↦ rw (w, apply) (apply_body-permits s e.agent e.time e.body h)
]
