-- ===== src/Agent/Fold.antt =====
-- `apply` of src/agent/state.rs: the fold of a channel's events. It returns the new state and the
-- agents to wake.

use stavlos.Common.{
  ℕ, ◌+◌, if◌then◌else◌, Bool, true, false, not, ◌&&◌, Option, none, some, List, [], ◌∷◌, ◌++◌,
  Text, codes, is_empty, text_eq, any, filter,
}
use stavlos.Common.Map.{Map, get, insert, remove, modify, has}
use stavlos.ToolName.{user}
use stavlos.Security.{Permits, PermitPayload}
use stavlos.Security
use stavlos.Agent.Types.{
  Directory, Sheet, Input, AgentState, default_agent, ChannelState, no_permits, input_rule,
}
use stavlos.Agent.Payloads.{
  UsagePayload, ChannelCreated, ChannelUpdated, Chat, Spawned, AgentUpdated, SheetPayload, Event,
  Body, channel_created, channel_updated, channel_archived, channel_dir_added, channel_dir_removed,
  chat_message, agent_spawned, agent_updated, agent_killed, agent_cancelled, input_queued,
  input_taken, model_call_started, model_call_completed, assistant_message, tool_finished,
  permit_granted, sheet_written, sheet_deleted,
}
use stavlos.Agent.Requests.{asked, settle_replies, settle_legacy, forget_party, taken}
use stavlos.Agent.Turn.{apply_turn, parse_id, max_some}

abbrev pub or_old {ℓ} : {A : Type ℓ} → Option A → A → A
or_old none old = old
or_old (some new) old = new

unfoldable pub count_call : ChannelState → UsagePayload → ChannelState
count_call s p = record s {
  budget_tokens =
      s.budget_tokens
      + (p.usage.input_tokens + p.usage.output_tokens + p.usage.cache_read_tokens
          + p.usage.cache_write_tokens);
  budget_cost = s.budget_cost ++ (p.cost_usd ∷ []);
}

unfoldable pub create : ChannelState → ChannelCreated → ChannelState
create s c = record s {
  name = c.name;
  model = c.model;
  role = c.role;
  board = c.board;
  dir = c.dir;
  mode = if is_empty c.mode then s.mode else c.mode;
}

abbrev pub clear_instructed : Map AgentState → Map AgentState
clear_instructed [] = []
clear_instructed ((id, a) ∷ m) = (id, record a { instructed = [] }) ∷ clear_instructed m

-- A channel that moves loses its permits, and its agents read their instructions again.
unfoldable pub move_to : ChannelState → Text → ChannelState
move_to s dir = record s {
  dir = dir;
  mode = codes "ask";
  permits = no_permits;
  agents = clear_instructed s.agents;
}

abbrev pub moved : ChannelState → Option Text → ChannelState
moved s none = s
moved s (some dir) = move_to s dir

unfoldable pub update : ChannelState → ChannelUpdated → ChannelState
update s u =
    let t = record s {
      name = or_old u.name s.name;
      model = or_old u.model s.model;
      mode = or_old u.mode s.mode;
    } in
    let m = moved t u.dir in record m { recap = or_old u.recap m.recap }

unfoldable pub add_dir : ChannelState → Directory → ChannelState
add_dir s d =
    if any (λ e. text_eq e.path d.path) s.dirs then s else record s { dirs = s.dirs ++ (d ∷ []) }

unfoldable pub remove_dir : ChannelState → Directory → ChannelState
remove_dir s d = record s { dirs = filter (λ e. not (text_eq e.path d.path)) s.dirs }

abbrev pub new_sheet : Text → Sheet
new_sheet id = record { id = id; title = []; author = []; hash = []; size = 0; updated = 0 }

abbrev pub old_sheet : Text → Option Sheet → Sheet
old_sheet id none = new_sheet id
old_sheet id (some t) = t

unfoldable pub write_sheet : ChannelState → SheetPayload → ℕ → ChannelState
write_sheet s p time =
    if is_empty p.id
    then s
    else let old = old_sheet p.id (get s.sheets p.id) in
      record s {
        sheet_seq =
            if has s.sheets p.id then s.sheet_seq else max_some s.sheet_seq (parse_id b's' p.id);
        sheets = insert s.sheets p.id (record old {
          title = if is_empty p.title then old.title else p.title;
          author = p.author;
          hash = p.hash;
          size = p.size;
          updated = time;
        });
      }

unfoldable pub delete_sheet : ChannelState → SheetPayload → ChannelState
delete_sheet s p = if is_empty p.id then s else record s { sheets = remove s.sheets p.id }

abbrev pub spawned_agent : Spawned → AgentState
spawned_agent p = record default_agent {
  id = p.id;
  parent = p.parent;
  role = p.role;
  name = p.name;
  model = p.model;
  variant = p.variant;
  depth = p.depth;
  directories = p.directories;
}

unfoldable pub spawn : ChannelState → Spawned → ChannelState
spawn s p = if is_empty p.id then s else record s {
  names = insert s.names p.name p.id;
  agents =
      modify (insert s.agents p.id (spawned_agent p)) p.parent
        (λ a. record a { children = a.children ++ (p.id ∷ []) });
  order = s.order ++ (p.id ∷ []);
}

abbrev pub named : ChannelState → AgentState → Option Text → ChannelState
named s a none = s
named s a (some name) = record s { names = insert s.names name a.id }

unfoldable pub update_agent : ChannelState → Text → AgentUpdated → ChannelState
update_agent s agent u = elim (get s.agents agent) [
  | none ↦ s
  | some a ↦
      let t = named s a u.name in
      record t {
        agents = modify t.agents agent (λ b. record b {
          role = or_old u.role b.role;
          name = or_old u.name b.name;
          model = or_old u.model b.model;
          variant = or_old u.variant b.variant;
        });
      }
]

abbrev pub killed_agent : AgentState → AgentState
killed_agent a = record a { killed = true; in_turn = false; jobs = []; asks = [] }

unfoldable pub kill : ChannelState → Text → ChannelState
kill s agent =
    if has s.agents agent
    then forget_party (record s { agents = modify s.agents agent killed_agent }) agent
    else s

unfoldable pub cancel : ChannelState → Text → ChannelState
cancel s agent =
    let t = forget_party s agent in
    record t { agents = modify t.agents agent (λ a. record a { resume_at = 0 }) }

abbrev pub note_recap : ChannelState → Input → ℕ → ChannelState
note_recap s i time = if i.recap then record s { last_recap = time; recap_open = true } else s

-- A response settles what its author owed to the agent that gets it.
unfoldable pub respond : ChannelState → Input → Text → ChannelState
respond s i agent =
    if text_eq i.kind (codes "response") && has s.agents i.from
    then (if is_empty i.reply_to
        then settle_legacy s i.from agent
        else settle_replies s i.from agent i.reply_to)
    else s

abbrev pub delivered : Input → AgentState → AgentState
delivered i a = record a {
  resumes = if text_eq i.kind (codes "resume") then a.resumes + 1 else a.resumes;
  inbox = a.inbox ++ (i ∷ []);
}

abbrev pub wakes_agent : Input → Option AgentState → List Text
wakes_agent i none = []
wakes_agent i (some a) = if (input_rule i.kind).wakes && not a.killed then a.id ∷ [] else []

unfoldable pub queue : ChannelState → Text → Input → ℕ → ChannelState × List Text
queue s agent i time =
    if has s.agents agent
    then (let t = respond (note_recap (asked s i agent).0 i time) i agent in
        (
          record t { agents = modify t.agents agent (delivered i) },
          wakes_agent i (get t.agents agent),
        ))
    else (s, [])

unfoldable pub hear : ChannelState → Text → Option Chat → ℕ → ChannelState
hear s agent none time = record s { last_heard = time; recap_open = false }
hear s agent (some chat) time =
    let t = record s { last_heard = time; recap_open = false } in
    if has t.agents agent
    then (if is_empty chat.kind
        then settle_legacy t agent user
        else if text_eq chat.kind (codes "response")
        then settle_replies t agent user chat.reply_to
        else t)
    else t

-- The last arm of the match, an event of the agent's turn
abbrev pub turn_event : ChannelState → Text → Body → ChannelState
turn_event s agent b = record s { agents = modify s.agents agent (λ a. apply_turn a b) }

unfoldable pub apply_body : ChannelState → Text → ℕ → Body → ChannelState × List Text
apply_body s agent time model_call_started = (record s { model_calls = s.model_calls + 1 }, [])
apply_body s agent time (model_call_completed (some p)) = (count_call s p, [])
apply_body s agent time (model_call_completed none) = (s, [])
apply_body s agent time (channel_created (some c)) = (create s c, [])
apply_body s agent time (channel_created none) = (s, [])
apply_body s agent time (channel_updated (some u)) = (update s u, [])
apply_body s agent time (channel_updated none) = (s, [])
apply_body s agent time channel_archived = (record s { archived = true }, [])
apply_body s agent time (channel_dir_added (some d)) = (add_dir s d, [])
apply_body s agent time (channel_dir_added none) = (s, [])
apply_body s agent time (channel_dir_removed (some d)) = (remove_dir s d, [])
apply_body s agent time (channel_dir_removed none) = (s, [])
apply_body s agent time (permit_granted (some p)) =
    (record s { permits = Security.apply s.permits p }, [])
apply_body s agent time (permit_granted none) = (s, [])
apply_body s agent time (sheet_written (some p)) = (write_sheet s p time, [])
apply_body s agent time (sheet_written none) = (s, [])
apply_body s agent time (sheet_deleted (some p)) = (delete_sheet s p, [])
apply_body s agent time (sheet_deleted none) = (s, [])
apply_body s agent time (agent_spawned (some p)) = (spawn s p, [])
apply_body s agent time (agent_spawned none) = (s, [])
apply_body s agent time (agent_updated (some u)) = (update_agent s agent u, [])
apply_body s agent time (agent_updated none) = (s, [])
apply_body s agent time agent_killed = (kill s agent, [])
apply_body s agent time agent_cancelled = (cancel s agent, [])
apply_body s agent time (input_queued (some i)) = queue s agent i time
apply_body s agent time (input_queued none) = (s, [])
apply_body s agent time (chat_message chat) = (hear s agent chat time, [])
apply_body s agent time (input_taken (some ids)) = (taken s agent ids, [])
apply_body s agent time (input_taken none) = (s, [])
apply_body s agent time b = (turn_event s agent b, [])

abbrev pub is_work : Body → Bool
is_work (assistant_message p) = true
is_work (tool_finished p) = true
is_work _ = false

-- `last_work` is set before the match.
unfoldable pub apply : ChannelState → Event → ChannelState × List Text
apply s e =
    apply_body (if is_work e.body then record s { last_work = e.time } else s) e.agent e.time e.body

-- The state that a journal's events make.
unfoldable pub replay : ChannelState → List Event → ChannelState
replay s [] = s
replay s (e ∷ es) = replay (apply s e).0 es
