-- ===== src/Agent/Events.antt =====
-- Every event keeps the ledger's invariant, and no event but a grant widens what is permitted.
use stavlos.Common.{
  ℕ, if◌then◌else◌, true, false, ◌&&◌, Option, none, some, List, [], ◌∷◌, Text, codes, is_empty,
  text_eq, ◌≡◌, refl, Bool-cases, Option-cases, inl, inr,
}
use stavlos.Common.Map.{get, has, modify}
use stavlos.ToolName.{user}
use stavlos.Agent.Types.{Input, AgentState, ChannelState, Directory, new}
use stavlos.Agent.Payloads.{
  Chat, Spawned, AgentUpdated, ChannelUpdated, SheetPayload, Event, Body, channel_created,
  channel_updated, channel_archived, channel_dir_added, channel_dir_removed, chat_message,
  agent_spawned, agent_updated, agent_killed, agent_cancelled, input_queued, input_taken,
  model_call_started, model_call_completed, permit_granted, sheet_written, sheet_deleted,
}
use stavlos.Agent.Requests.{
  asked, settle_replies, settle_legacy, forget_party, take_one, taken, pull, took,
}
use stavlos.Agent.Fold.{
  create, update, move_to, add_dir, remove_dir, write_sheet, delete_sheet, spawn, update_agent,
  kill, killed_agent, cancel, note_recap, respond, queue, hear, count_call, is_work, apply_body,
  apply, replay,
}
use stavlos.Agent.Ledger.{
  IsLedger, if-IsLedger, asked-IsLedger, settle_replies-IsLedger, settle_each-IsLedger,
  forget_each-IsLedger, hold-IsLedger,
}

settle_legacy-IsLedger :
    (s : ChannelState) (responder recipient : Text)
    → IsLedger s
    → IsLedger (settle_legacy s responder recipient)
unfolding settle_legacy
settle_legacy-IsLedger s responder recipient h = settle_each-IsLedger s responder _ h

forget_party-IsLedger :
    (s : ChannelState) (party : Text) → IsLedger s → IsLedger (forget_party s party)
unfolding forget_party
forget_party-IsLedger s party h = forget_each-IsLedger s party _ h

take_one-IsLedger :
    (s : ChannelState) (target id : Text) (a : AgentState)
    → IsLedger s
    → IsLedger (take_one s target id a)
unfolding take_one
take_one-IsLedger s target id a h = elim (Option-cases (pull id a.inbox)) [
  | inl e ↦ λ k. rw (e, take_one) (h k)
  | inr ((i, rest), e) ↦ λ k.
      rw (e, take_one)
        (hold-IsLedger (record s { agents = modify s.agents target (took i rest) }) i target h k)
]

taken-IsLedger :
    (s : ChannelState) (target : Text) (ids : List Text)
    → IsLedger s
    → IsLedger (taken s target ids)
unfolding taken
taken-IsLedger s target [] h = h
taken-IsLedger s target (id ∷ ids) h =
    elim (get s.agents target)
      as (λ o.
        IsLedger (elim o [ none ↦ s | some a ↦ taken (take_one s target id a) target ids ])) [
          | none ↦ h
          | some a ↦
              taken-IsLedger (take_one s target id a) target ids (take_one-IsLedger s target id a h)
        ]

respond-IsLedger :
    (s : ChannelState) (i : Input) (agent : Text) → IsLedger s → IsLedger (respond s i agent)
unfolding respond
respond-IsLedger s i agent h =
    if-IsLedger (text_eq i.kind (codes "response") && has s.agents i.from)
      (if is_empty i.reply_to
        then settle_legacy s i.from agent
        else settle_replies s i.from agent i.reply_to)
      s
      (if-IsLedger (is_empty i.reply_to) (settle_legacy s i.from agent)
        (settle_replies s i.from agent i.reply_to) (settle_legacy-IsLedger s i.from agent h)
        (settle_replies-IsLedger s i.from agent i.reply_to h))
      h

note_recap-IsLedger :
    (s : ChannelState) (i : Input) (time : ℕ) → IsLedger s → IsLedger (note_recap s i time)
note_recap-IsLedger s i time h =
    if-IsLedger i.recap (record s { last_recap = time; recap_open = true }) s h h

queue-IsLedger :
    (s : ChannelState) (agent : Text) (i : Input) (time : ℕ)
    → IsLedger s
    → IsLedger (queue s agent i time).0
unfolding queue
queue-IsLedger s agent i time h = elim (Bool-cases (has s.agents agent)) [
  | inl e ↦ λ k.
      rw (e, queue)
        (respond-IsLedger (note_recap (asked s i agent).0 i time) i agent
          (note_recap-IsLedger (asked s i agent).0 i time (asked-IsLedger s i agent h)) k)
  | inr e ↦ λ k. rw (e, queue) (h k)
]

hear-IsLedger :
    (s : ChannelState) (agent : Text) (chat : Option Chat) (time : ℕ)
    → IsLedger s
    → IsLedger (hear s agent chat time)
unfolding hear
hear-IsLedger s agent none time h = h
hear-IsLedger s agent (some chat) time h =
    let t : ChannelState = record s { last_heard = time; recap_open = false } in
    if-IsLedger (has s.agents agent)
      (if is_empty chat.kind
        then settle_legacy t agent user
        else if text_eq chat.kind (codes "response")
        then settle_replies t agent user chat.reply_to
        else t)
      t
      (if-IsLedger (is_empty chat.kind) (settle_legacy t agent user)
        (if text_eq chat.kind (codes "response")
          then settle_replies t agent user chat.reply_to
          else t)
        (settle_legacy-IsLedger t agent user h)
        (if-IsLedger (text_eq chat.kind (codes "response"))
          (settle_replies t agent user chat.reply_to) t
          (settle_replies-IsLedger t agent user chat.reply_to h) h))
      h

kill-IsLedger : (s : ChannelState) (agent : Text) → IsLedger s → IsLedger (kill s agent)
unfolding kill
kill-IsLedger s agent h =
    let t : ChannelState = record s { agents = modify s.agents agent killed_agent } in
    if-IsLedger (has s.agents agent) (forget_party t agent) s (forget_party-IsLedger t agent h) h

update-requests :
    (s : ChannelState) (u : ChannelUpdated)
    → ((update s u).requests ≡ s.requests) × ((update s u).request_seq ≡ s.request_seq)
unfolding update move_to
update-requests s u = elim (Option-cases u.dir) [
  | inl e ↦ (rw (e, update) refl, rw (e, update) refl)
  | inr (d, e) ↦ (rw (e, update) refl, rw (e, update) refl)
]

update-IsLedger : (s : ChannelState) (u : ChannelUpdated) → IsLedger s → IsLedger (update s u)
update-IsLedger s u h k = rw ((update-requests s u).0, (update-requests s u).1) (h k)

write_sheet-IsLedger :
    (s : ChannelState) (p : SheetPayload) (time : ℕ) → IsLedger s → IsLedger (write_sheet s p time)
unfolding write_sheet
write_sheet-IsLedger s p time h = if-IsLedger (is_empty p.id) s _ h h

delete_sheet-IsLedger :
    (s : ChannelState) (p : SheetPayload) → IsLedger s → IsLedger (delete_sheet s p)
unfolding delete_sheet
delete_sheet-IsLedger s p h = if-IsLedger (is_empty p.id) s _ h h

add_dir-IsLedger : (s : ChannelState) (d : Directory) → IsLedger s → IsLedger (add_dir s d)
unfolding add_dir
add_dir-IsLedger s d h = if-IsLedger _ s _ h h

spawn-IsLedger : (s : ChannelState) (p : Spawned) → IsLedger s → IsLedger (spawn s p)
unfolding spawn
spawn-IsLedger s p h = if-IsLedger (is_empty p.id) s _ h h

update_agent-IsLedger :
    (s : ChannelState) (agent : Text) (u : AgentUpdated)
    → IsLedger s
    → IsLedger (update_agent s agent u)
unfolding update_agent
update_agent-IsLedger s agent u h = elim (Option-cases (get s.agents agent)) [
  | inl e ↦ λ k. rw (e, update_agent) (h k)
  | inr (a, e) ↦ elim (Option-cases u.name) [
    | inl n ↦ λ k. rw (e, n, update_agent) (h k)
    | inr (m, n) ↦ λ k. rw (e, n, update_agent) (h k)
  ]
]

apply_body-IsLedger :
    (s : ChannelState) (agent : Text) (time : ℕ) (b : Body)
    → IsLedger s
    → IsLedger (apply_body s agent time b).0
unfolding apply_body create count_call remove_dir
apply_body-IsLedger s agent time model_call_started h = h
apply_body-IsLedger s agent time (model_call_completed (some p)) h = h
apply_body-IsLedger s agent time (model_call_completed none) h = h
apply_body-IsLedger s agent time (channel_created (some c)) h = h
apply_body-IsLedger s agent time (channel_created none) h = h
apply_body-IsLedger s agent time (channel_updated (some u)) h = update-IsLedger s u h
apply_body-IsLedger s agent time (channel_updated none) h = h
apply_body-IsLedger s agent time channel_archived h = h
apply_body-IsLedger s agent time (channel_dir_added (some d)) h = add_dir-IsLedger s d h
apply_body-IsLedger s agent time (channel_dir_added none) h = h
apply_body-IsLedger s agent time (channel_dir_removed (some d)) h = h
apply_body-IsLedger s agent time (channel_dir_removed none) h = h
apply_body-IsLedger s agent time (permit_granted (some p)) h = h
apply_body-IsLedger s agent time (permit_granted none) h = h
apply_body-IsLedger s agent time (sheet_written (some p)) h = write_sheet-IsLedger s p time h
apply_body-IsLedger s agent time (sheet_written none) h = h
apply_body-IsLedger s agent time (sheet_deleted (some p)) h = delete_sheet-IsLedger s p h
apply_body-IsLedger s agent time (sheet_deleted none) h = h
apply_body-IsLedger s agent time (agent_spawned (some p)) h = spawn-IsLedger s p h
apply_body-IsLedger s agent time (agent_spawned none) h = h
apply_body-IsLedger s agent time (agent_updated (some u)) h = update_agent-IsLedger s agent u h
apply_body-IsLedger s agent time (agent_updated none) h = h
apply_body-IsLedger s agent time agent_killed h = kill-IsLedger s agent h
apply_body-IsLedger s agent time agent_cancelled h =
    unfold cancel in forget_party-IsLedger s agent h
apply_body-IsLedger s agent time (input_queued (some i)) h = queue-IsLedger s agent i time h
apply_body-IsLedger s agent time (input_queued none) h = h
apply_body-IsLedger s agent time (chat_message chat) h = hear-IsLedger s agent chat time h
apply_body-IsLedger s agent time (input_taken (some ids)) h = taken-IsLedger s agent ids h
apply_body-IsLedger s agent time (input_taken none) h = h
apply_body-IsLedger s agent time _ h = h

-- The ledger's invariant survives every event of the journal, whatever the agent, the time and the payload: each entry
-- stands under its own id, somebody owes it, who holds it owes it, and its number was given.
pub apply-IsLedger : (s : ChannelState) (e : Event) → IsLedger s → IsLedger (apply s e).0
unfolding apply
apply-IsLedger s e h =
    apply_body-IsLedger (if is_work e.body then record s { last_work = e.time } else s) e.agent
      e.time e.body (if-IsLedger (is_work e.body) (record s { last_work = e.time }) s h h)

replay_from-IsLedger : (s : ChannelState) (es : List Event) → IsLedger s → IsLedger (replay s es)
unfolding replay
replay_from-IsLedger s [] h = h
replay_from-IsLedger s (e ∷ es) h = replay_from-IsLedger (apply s e).0 es (apply-IsLedger s e h)

-- The state that any journal makes of a new channel has the ledger's invariant.
pub replay-IsLedger : (model role : Text) (es : List Event) → IsLedger (replay (new model role) es)
replay-IsLedger model role es =
    replay_from-IsLedger (new model role) es (unfold new get in λ k. refl)
