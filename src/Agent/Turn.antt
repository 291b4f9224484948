-- ===== src/Agent/Turn.antt =====
-- `apply_turn` of src/agent/state.rs: what an event of an agent's turn does to the agent.
use stavlos.Common.{
  ℕ, ◌+◌, ◌-◌, ◌*◌, ◌^◌, max, ltb, ◌==◌, if◌then◌else◌, Bool, true, false, not, ◌&&◌, Option, none,
  some, List, [], ◌∷◌, ◌++◌, Text, codes, text_eq,
}
use stavlos.Common.Map.{insert, remove}
use stavlos.Common.Sets.{set_insert, set_remove}
use stavlos.Common.Str.{is_digit}
use stavlos.Agent.Types.{TodoItem, AgentState, one_of}
use stavlos.Agent.Payloads.{
  UsagePayload, TurnEnded, Body, turn_started, assistant_message, tool_started, tool_finished,
  turn_ended, turn_aborted, ask_requested, ask_resolved, job_started, job_finished, job_stopped,
  todo_changed, compaction_started, compaction_done, compaction_failed,
}

unfoldable pub digits_from : ℕ → Text → Option ℕ
digits_from n [] = some n
digits_from n (c ∷ s) =
    let rest = digits_from (n * 10 + (c - 48)) s in if is_digit c then rest else none

unfoldable pub digits : Text → Option ℕ
unfolding digits_from
digits [] = none
digits (c ∷ s) = digits_from 0 (c ∷ s)

-- `parse::<i64>` of a number that is not negative. A negative one has no effect where this is used,
-- under `max` with a number that is none, and is none here.
unfoldable pub parse_number : Text → Option ℕ
unfolding digits
parse_number [] = none
parse_number (c ∷ s) = elim (digits (if c == b'+' then s else c ∷ s)) [
  | none ↦ none
  | some n ↦ if ltb n (2 ^ 63) then some n else none
]

-- `id.strip_prefix(letter).unwrap_or(id).parse()`
unfoldable pub parse_id : ℕ → Text → Option ℕ
unfolding parse_number
parse_id letter [] = parse_number []
parse_id letter (c ∷ s) = parse_number (if c == letter then s else c ∷ s)

abbrev pub max_some : ℕ → Option ℕ → ℕ
max_some n none = n
max_some n (some m) = max n m

unfoldable pub todo_seq_after : ℕ → List TodoItem → ℕ
todo_seq_after n [] = n
todo_seq_after n (i ∷ is) = todo_seq_after (max_some n (parse_id b't' i.id)) is

unfoldable pub start_turn : AgentState → ℕ → AgentState
start_turn a turn = record a {
  turn = turn;
  in_turn = true;
  last_error = [];
  resume_at = 0;
  turn_reminder_only = true;
  turn_had_tools = false;
  turn_settled = false;
}

unfoldable pub count_message : AgentState → UsagePayload → AgentState
count_message a p = record a {
  tokens = a.tokens + (p.usage.input_tokens + p.usage.output_tokens);
  last_context =
      p.usage.input_tokens + p.usage.cache_read_tokens + p.usage.cache_write_tokens
      + p.usage.output_tokens;
  cost = a.cost ++ (p.cost_usd ∷ []);
  resumes = 0;
}

-- A turn that only a reminder woke, and that did nothing, counts as a nudge.
abbrev pub idle_turn : AgentState → TurnEnded → Bool
idle_turn a e =
    one_of e.reason (codes "end_turn" ∷ codes "max_tokens" ∷ [])
    && (a.turn_reminder_only && (not a.turn_had_tools && not a.turn_settled))

unfoldable pub end_turn : AgentState → TurnEnded → AgentState
end_turn a e = record a {
  last_error = if text_eq e.reason (codes "error") then e.error else a.last_error;
  resume_at = e.resume_at;
  resume_why = e.resume;
  nudges = if idle_turn a e then a.nudges + 1 else a.nudges;
  in_turn = false;
}

unfoldable pub insert_all : List Text → List Text → List Text
insert_all set [] = set
insert_all set (x ∷ xs) = insert_all (set_insert set x) xs

-- Both matches of `apply_turn`
unfoldable pub apply_turn : AgentState → Body → AgentState
apply_turn a (turn_started (some turn)) = start_turn a turn
apply_turn a (assistant_message (some p)) = count_message a p
apply_turn a (turn_ended (some e)) = end_turn a e
apply_turn a (turn_ended none) = record a { in_turn = false }
apply_turn a turn_aborted = record a { in_turn = false }
apply_turn a tool_started = record a { turn_had_tools = true; nudges = 0 }
apply_turn a (ask_requested (some id)) = record a { asks = set_insert a.asks id }
apply_turn a (ask_resolved (some id)) = record a { asks = set_remove a.asks id }
apply_turn a (job_started (some j)) = record a { jobs = insert a.jobs j.id j.command }
apply_turn a (job_finished (some id)) = record a { jobs = remove a.jobs id }
apply_turn a (job_stopped (some id)) = record a { jobs = remove a.jobs id }
apply_turn a (todo_changed (some items)) = record a {
  todos = items;
  todo_seq = todo_seq_after a.todo_seq items;
}
apply_turn a compaction_started = record a { compacting = true }
apply_turn a compaction_done = record a { compacting = false; instructed = [] }
apply_turn a compaction_failed = record a { compacting = false }
apply_turn a (tool_finished (some instructions)) = record a {
  instructed = insert_all a.instructed instructions;
}
apply_turn a _ = a
