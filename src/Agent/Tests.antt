-- ===== src/Agent/Tests.antt =====
-- A journal at work, and the theorems at concrete inputs.
use stavlos.Common.{
  contains, ◌&&◌, ℕ, ◌≡◌, refl, Bool, true, false, if◌then◌else◌, Option, none, some, List, [], ◌∷◌,
  Text, codes, text_eq, is_empty, text_lt,
}
use stavlos.Common.Map.{get, insert, remove, modify, has}
use stavlos.Common.Sets.{set_insert, set_remove}
use stavlos.Agent.Types.{Input, ChannelState, no_permits, new}
use stavlos.Agent.Payloads.{
  Event, agent_spawned, agent_killed, agent_cancelled, input_queued, channel_updated,
}
use stavlos.Agent.Requests.{
  fresh_reply, reply_request, asked, ask_for, owed_by, request_id, settle, settle_by,
  settle_replies, is_from,
}
use stavlos.Agent.Fold.{apply, apply_body, replay, spawn, queue, respond}
use stavlos.Agent.Ledger.{IsLedger}
use stavlos.Agent.Events.{apply-IsLedger, replay-IsLedger}
use stavlos.Agent.Forget.{clear_of, forgets}
use stavlos.Agent.Replies.{free_of, settles_replies, get-settle_replies}
use stavlos.Agent.Narrow.{apply-permits, is_move}

abbrev spawns : Text → Event
spawns name = record {
  agent = [];
  time = 1;
  body = agent_spawned (
      some (record {
        directories = none;
        id = name;
        parent = [];
        role = codes "worker";
        name = name;
        model = [];
        variant = [];
        depth = 0;
      }));
}

abbrev message : Text → Text → Text → Text → List Text → Input
message id kind from request answers = record {
  channel = codes "c";
  channel_name = [];
  expect_response = false;
  request_id = request;
  reply_to = answers;
  to = [];
  id = id;
  kind = kind;
  text = codes "please";
  from = from;
  from_name = from;
  post = [];
  recap = false;
}

abbrev request_event : Event
request_event = record {
  agent = codes "b";
  time = 2;
  body = input_queued (some (message (codes "i1") (codes "request") (codes "a") (codes "r1") []));
}

abbrev response_event : Event
response_event = record {
  agent = codes "a";
  time = 3;
  body =
      input_queued
        (some (message (codes "i2") (codes "response") (codes "b") [] (codes "r1" ∷ [])));
}

abbrev asks : List Event
asks = spawns (codes "a") ∷ spawns (codes "b") ∷ request_event ∷ []

abbrev asked_state : ChannelState
asked_state = replay (new (codes "m") (codes "lead")) asks

asked_waits : has asked_state.requests (codes "r1") ≡ true
unfolding replay get apply apply_body queue spawn modify insert new text_eq stavlos.Common.text_lt
    respond asked owed_by ask_for request_id
asked_waits = refl

response_settles : has (apply asked_state response_event).0.requests (codes "r1") ≡ false
unfolding replay get apply apply_body queue spawn modify insert new text_eq text_lt respond asked
    owed_by ask_for settle_replies request_id fresh_reply reply_request settle_by settle set_insert
    set_remove remove
response_settles = refl

replay-IsLedger_example : IsLedger (replay (new (codes "m") (codes "lead")) asks)
replay-IsLedger_example = replay-IsLedger (codes "m") (codes "lead") asks

asked_state-IsLedger : IsLedger asked_state
asked_state-IsLedger = replay-IsLedger (codes "m") (codes "lead") asks

apply-IsLedger_example : IsLedger (apply asked_state response_event).0
apply-IsLedger_example = apply-IsLedger asked_state response_event asked_state-IsLedger

known_agent : has asked_state.agents (codes "a") ≡ true
unfolding replay get apply apply_body queue spawn modify insert new text_eq stavlos.Common.text_lt
    respond asked owed_by ask_for
known_agent = refl

forgets_example :
    (clear_of (codes "a") (
        get
          (apply asked_state
            (record { agent = codes "a"; time = 4; body = agent_killed })).0.requests
          (codes "r1"))
      ≡ true)
    × (clear_of (codes "a") (
          get
            (apply asked_state
              (record { agent = codes "a"; time = 4; body = agent_cancelled })).0.requests
            (codes "r1"))
        ≡ true)
forgets_example = forgets asked_state (codes "a") 4 (codes "r1") asked_state-IsLedger known_agent

abbrev moves : Event
moves = record {
  agent = [];
  time = 5;
  body = channel_updated (
      some (record {
        dir = some (codes "/tmp");
        name = none;
        model = none;
        mode = none;
        recap = none;
      }));
}

apply-permits_example :
    (apply asked_state moves).0.permits
    ≡ (if is_move moves.body then no_permits else asked_state.permits)
apply-permits_example = apply-permits asked_state moves refl

request_answered : contains (codes "r1" ∷ []) (codes "r1") ≡ true
unfolding text_eq
request_answered = refl

request_of_a : is_from (codes "a") (get asked_state.requests (codes "r1")) ≡ true
unfolding replay get apply apply_body queue spawn modify insert new text_eq text_lt respond asked
    owed_by ask_for request_id fresh_reply reply_request
request_of_a = refl

settles_replies_example :
    free_of (codes "b") (
      get
        (settle_replies asked_state (codes "b") (codes "a") (codes "r1" ∷ [])).requests
        (codes "r1"))
    ≡ true
settles_replies_example =
    settles_replies asked_state (codes "b") (codes "a") (codes "r1") (codes "r1" ∷ [])
      request_answered request_of_a

request_not_answered :
    (contains (codes "r2" ∷ []) (codes "r1")
      && is_from (codes "a") (get asked_state.requests (codes "r1")))
    ≡ false
unfolding text_eq
request_not_answered = refl

get-settle_replies_example :
    get (settle_replies asked_state (codes "b") (codes "a") (codes "r2" ∷ [])).requests (codes "r1")
    ≡ get asked_state.requests (codes "r1")
get-settle_replies_example =
    get-settle_replies asked_state (codes "b") (codes "a") (codes "r1") (codes "r2" ∷ [])
      request_not_answered
