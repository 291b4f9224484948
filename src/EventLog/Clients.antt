-- ===== src/EventLog/Clients.antt =====
-- A client of the daemon and what it is sent (src/daemon/hub.rs): live delivery by the log's writer,
-- and the history that a subscription replays. Frames go through the queue of src/daemon/queue.rs
-- in the order in which they are handed to it here; a frame is kept as its event.
use stavlos.Common.{
  ℕ, suc, ◌-◌, max, Text, codes, text_eq, contains, is_empty, Bool, true, false, not, ◌&&◌, ◌||◌,
  Option, none, some, List, [], ◌∷◌, ◌++◌, leb, if◌then◌else◌,
}
use stavlos.Common.Map.{Map, get, insert, remove, has}
use stavlos.EventLog.Store.{Event, read}

-- What a client keeps under its mutex, with the events handed to its queue so far.
pub record Client : Type 0 where
  pub name : Text
  pub tier : Text
  pub subscriptions : Map ℕ
  pub sent : List Event

-- The constants of src/protocol.rs
abbrev pub tier_interactive : Text
tier_interactive = codes "interactive"

abbrev pub tier_fallback : Text
tier_fallback = codes "fallback"

-- `Client::new`
unfoldable pub new : Client
new = record { name = codes "anonymous"; tier = tier_interactive; subscriptions = []; sent = [] }

-- `Client::attach`
unfoldable pub attach : Client → Text → Text → Bool → Client
attach c name tier web = record c {
  tier = if text_eq tier tier_fallback then tier else c.tier;
  name = if web then codes "web" else if is_empty name then c.name else name;
}

unfoldable pub unsubscribe : Client → Text → Client
unsubscribe c channel = record c { subscriptions = remove c.subscriptions channel }

unfoldable pub subscribed : Client → Text → Bool
subscribed c channel = has c.subscriptions channel

-- `deliver`: an event of a subscribed channel that is newer than the last one
unfoldable pub deliver : Client → Event → Client
deliver c e = elim (get c.subscriptions e.channel) [
  | none ↦ c
  | some last ↦ if leb e.seq last then c else record c {
    subscriptions = insert c.subscriptions e.channel e.seq;
    sent = c.sent ++ (e ∷ []);
  }
]

-- `Hub::committed`, for one of the clients
unfoldable pub committed_to : Client → List Event → Client
committed_to c [] = c
committed_to c (e ∷ es) = committed_to (deliver c e) es

-- A subscription that is being set up: the channel and the last event that it has replayed.
pub record Replay : Type 0 where
  pub channel : Text
  pub last : ℕ

-- The start of `subscribe`
unfoldable pub start_replay : Client → Text → ℕ → Client × Replay
start_replay c channel from =
    (unsubscribe c channel, record { channel = channel; last = max from 1 - 1 })

-- The loop over the events that were read
unfoldable pub replay_events : Client → Replay → List Event → Client × Replay
replay_events c r [] = (c, r)
replay_events c r (e ∷ es) =
    replay_events (record c { sent = c.sent ++ (e ∷ []) }) (record r { last = e.seq }) es

-- One turn of the loop of `subscribe`, whose reads see the table `rows`. The read of an empty turn
-- is repeated by the log's writer in a barrier, on `later`, the table of that moment, and the
-- subscription begins there. `true` says that the loop has ended.
unfoldable pub replay_turn : List Event → List Event → Client → Replay → (Client × Replay) × Bool
replay_turn rows later c r =
    let events = read rows r.channel (suc r.last) 512 in
    let again = read later r.channel (suc r.last) 512 in
    if not (is_empty events)
    then (replay_events c r events, false)
    else if not (is_empty again)
    then (replay_events c r again, false)
    else ((record c { subscriptions = insert c.subscriptions r.channel r.last }, r), true)

-- Which clients a notification reaches (`Hub::notify`)
unfoldable pub reaches : Option Text → List Text → Client → Bool
reaches channel tiers c =
    not (elim channel [ none ↦ false | some ch ↦ not (subscribed c ch) ])
    && (is_empty tiers || contains tiers c.tier)
