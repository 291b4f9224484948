-- ===== src/Daemon/Queue.antt =====
-- src/daemon/queue.rs: the bounded queue between the producers of frames and a socket writer.
-- Each operation runs under the state's mutex, so it is one function on the state. The loops of
-- `replay` and `recv` wait outside the lock: a function models one round and says `wait` when the
-- round goes back to sleep. The token `closed` is the field `cancelled`.
pub mod Bounds
pub mod Order
mod Tests
use stavlos.Common.{
  ℕ, ◌+◌, ◌-◌, ◌/◌, ◌≤◌, max, Bool, true, false, ◌&&◌, ◌||◌, List, [], ◌∷◌, ◌++◌, ltb, leb,
  if◌then◌else◌, length, is_empty,
}

-- An encoded frame, `Arc<[u8]>`.
abbrev pub Frame : Type 0
Frame = List ℕ

pub record State : Type 0 where
  pub messages : List Frame
  pub bytes : ℕ
  pub closed : Bool
  pub cancelled : Bool

-- The bounds that `Queue::new` fixes.
pub record Limits : Type 0 where
  pub messages : ℕ
  pub bytes : ℕ

pub data Enqueued : Type 0 where
  queued dropped closed : Enqueued

-- One round of `replay`: `Ok(())`, one of the errors, or another turn of the loop.
pub data Replayed : Type 0 where
  sent exceeds connection_closed context_canceled wait : Replayed

-- One round of `recv`: `None`, a line, or another turn of the loop.
pub data Received : Type 0 where
  stopped : Received
  line : Frame → Received
  wait : Received

-- `MAX_MESSAGES` and `MAX_BYTES`
abbrev pub max_messages : ℕ
max_messages = 16384

abbrev pub max_bytes : ℕ
max_bytes = 67108864

-- `Queue::new`: a bound of 0 counts as 1.
unfoldable pub limits : ℕ → ℕ → Limits
limits messages bytes = record { messages = max messages 1; bytes = max bytes 1 }

unfoldable pub new : State
new = record { messages = []; bytes = 0; closed = false; cancelled = false }

unfoldable pub close : State → State
close s = record { messages = []; bytes = 0; closed = true; cancelled = true }

-- `state.bytes += line.len(); state.messages.push_back(line)`
unfoldable pub push_back : State → Frame → State
push_back s l = record s { messages = s.messages ++ (l ∷ []); bytes = s.bytes + length l }

unfoldable pub enqueue : Limits → State → Frame → Bool → State × Enqueued
unfolding close push_back
enqueue q s l droppable =
    if s.closed
    then (s, closed)
    else if droppable && (ltb (q.messages / 2) (length s.messages) || ltb (q.bytes / 2) s.bytes)
    then (s, dropped)
    else if leb q.messages (length s.messages) || ltb (q.bytes - s.bytes) (length l)
    then (close s, closed)
    else (push_back s l, queued)

unfoldable pub replay : Limits → State → Frame → Bool → State × Replayed
unfolding push_back
replay q s l canceled =
    if ltb q.bytes (length l)
    then (s, exceeds)
    else if s.closed
    then (s, connection_closed)
    else if canceled
    then (s, context_canceled)
    else if ltb (length s.messages) (max (q.messages / 4) 1)
        && (ltb s.bytes (max (q.bytes / 4) 1) && leb (length l) (q.bytes - s.bytes))
    then (push_back s l, sent)
    else (s, wait)

-- `pop_front` and the bytes that it releases
unfoldable pub pop_front : List Frame → State → State × Received
pop_front [] s = (s, wait)
pop_front (l ∷ ls) s = (record s { messages = ls; bytes = s.bytes - length l }, line l)

unfoldable pub recv : State → Bool → State × Received
unfolding pop_front
recv s canceled = if s.closed || canceled then (s, stopped) else pop_front s.messages s

unfoldable pub usage : State → ℕ × ℕ
usage s = (length s.messages, s.bytes)

-- What the threads that share a queue can do with it, one locked section at a time.
pub data Op : Type 0 where
  shut : Op
  send : Frame → Bool → Op
  history : Frame → Bool → Op
  take : Bool → Op

-- A queue with what went in and what came out of it so far.
pub record Trace : Type 0 where
  pub state : State
  pub accepted : List Frame
  pub delivered : List Frame

unfoldable pub after_send : Trace → Frame → State × Enqueued → Trace
after_send t l (s, queued) = record t { state = s; accepted = t.accepted ++ (l ∷ []) }
after_send t l (s, dropped) = record t { state = s }
after_send t l (s, closed) = record t { state = s }

unfoldable pub after_history : Trace → Frame → State × Replayed → Trace
after_history t l (s, sent) = record t { state = s; accepted = t.accepted ++ (l ∷ []) }
after_history t l (s, _) = record t { state = s }

unfoldable pub after_take : Trace → State × Received → Trace
after_take t (s, line l) = record t { state = s; delivered = t.delivered ++ (l ∷ []) }
after_take t (s, stopped) = record t { state = s }
after_take t (s, wait) = record t { state = s }

unfoldable pub step : Limits → Trace → Op → Trace
unfolding after_send after_history after_take
step q t shut = record t { state = close t.state }
step q t (send l droppable) = after_send t l (enqueue q t.state l droppable)
step q t (history l canceled) = after_history t l (replay q t.state l canceled)
step q t (take canceled) = after_take t (recv t.state canceled)

unfoldable pub run : Limits → Trace → List Op → Trace
run q t [] = t
run q t (op ∷ ops) = run q (step q t op) ops

unfoldable pub start : Trace
unfolding new
start = record { state = new; accepted = []; delivered = [] }
