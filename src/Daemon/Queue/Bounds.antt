-- ===== src/Daemon/Queue/Bounds.antt =====
-- The bounds of the queue of src/daemon/queue.rs, and what each operation answers.
use stavlos.Common.{
  ℕ, ◌+◌, ◌-◌, ◌/◌, ◌≤◌, ◌<◌, ◌≡◌, ◌↔◌, ◌⊎◌, refl, Bool, true, false, List, [], ◌∷◌, ◌++◌, length,
  length-append, arith,
}
use stavlos.Daemon.Queue.{
  Frame, State, Limits, limits, closed, Op, Trace, shut, send, history, take, queued, new, close,
  enqueue, replay, recv, pop_front, step, run, start,
}

-- The bytes of all waiting frames.
unfoldable pub total : List Frame → ℕ
total [] = 0
total (l ∷ ls) = length l + total ls

pub total-append : (xs ys : List Frame) → total (xs ++ ys) ≡ total xs + total ys
unfolding total
total-append [] ys = omega arith
total-append (x ∷ xs) ys = omega (arith, total-append xs ys)

total_snoc : (xs : List Frame) (l : Frame) → total (xs ++ (l ∷ [])) ≡ total xs + length l
unfolding total
total_snoc xs l = omega (arith, total-append xs (l ∷ []))

-- Between two operations: the byte counter is exact, both bounds hold, and a closed queue is empty
-- and has its token cancelled.
pub record Inv (q : Limits) (s : State) : Type 0 where
  pub counted : s.bytes ≡ total s.messages
  pub few : length s.messages ≤ q.messages
  pub small : s.bytes ≤ q.bytes
  pub emptied : (s.closed ≡ false) ⊎ (s.messages ≡ [])
  pub token : s.cancelled ≡ s.closed
  pub positive : (0 < q.messages) × (0 < q.bytes)

pub new-Inv : (m b : ℕ) → Inv (limits m b) new
unfolding new total limits
new-Inv m b = ground arith

close-Inv : (q : Limits) (s : State) → Inv q s → Inv q (close s)
unfolding close total
close-Inv q s h = ground arith

enqueue-Inv : (q : Limits) (s : State) (l : Frame) (b : Bool) → Inv q s → Inv q (enqueue q s l b).0
unfolding enqueue
enqueue-Inv q s l b h =
    ground (arith, total_snoc s.messages l, length-append s.messages (l ∷ []), close-Inv q s)

replay-Inv : (q : Limits) (s : State) (l : Frame) (b : Bool) → Inv q s → Inv q (replay q s l b).0
unfolding replay
replay-Inv q s l b h = ground (arith, total_snoc s.messages l, length-append s.messages (l ∷ []))

pop_front-Inv :
    (q : Limits) (ms : List Frame) (s : State)
    → s.messages ≡ ms
    → s.closed ≡ false
    → Inv q s
    → Inv q (pop_front ms s).0
unfolding pop_front total
pop_front-Inv q [] s e o h = h
pop_front-Inv q (l ∷ ls) s e o h = ground (arith, h.counted)

recv-Inv : (q : Limits) (s : State) (b : Bool) → Inv q s → Inv q (recv s b).0
unfolding recv
recv-Inv q s b h = ground (arith, pop_front-Inv q s.messages s refl)

step-Inv : (q : Limits) (t : Trace) (op : Op) → Inv q t.state → Inv q (step q t op).state
unfolding step
step-Inv q t shut h = close-Inv q t.state h
step-Inv q t (send l b) h = ground (arith, enqueue-Inv q t.state l b h)
step-Inv q t (history l b) h = ground (arith, replay-Inv q t.state l b h)
step-Inv q t (take b) h = ground (arith, recv-Inv q t.state b h)

pub run-Inv : (q : Limits) (t : Trace) (ops : List Op) → Inv q t.state → Inv q (run q t ops).state
unfolding run
run-Inv q t [] h = h
run-Inv q t (op ∷ ops) h = run-Inv q (step q t op) ops (step-Inv q t op h)

-- Whatever the threads do with a queue made by `Queue::new`, in any order, its counter is the sum
-- of the waiting frames' lengths, it holds at most its numbers of frames and bytes, and a closed
-- queue is empty with its token cancelled.
pub run_bounded : (m b : ℕ) (ops : List Op) → Inv (limits m b) (run (limits m b) start ops).state
unfolding start
run_bounded m b ops = run-Inv (limits m b) start ops (new-Inv m b)

-- In a state with the queue's invariant, a droppable frame of at most half the byte bound never closes
-- an open queue.
pub droppable_keeps_open :
    (q : Limits) (s : State) (l : Frame)
    → Inv q s
    → s.closed ≡ false
    → length l ≤ q.bytes / 2
    → (enqueue q s l true).0.closed ≡ false
unfolding enqueue
droppable_keeps_open q s l h o k = ground arith

-- In a state with the queue's invariant, a frame that must not be dropped is put behind the waiting
-- ones of an open queue and counted, and everything else stays as it was; or the answer is that the
-- queue is closed, and then the queue is closed and empty, its counter is 0 and its token is cancelled.
-- The first is the case exactly when the queue is open and has room for the frame.
pub enqueue_required :
    (q : Limits) (s : State) (l : Frame)
    → Inv q s
    → (((enqueue q s l false).1 ≡ queued)
        ↔ ((s.closed ≡ false) × (length s.messages < q.messages) × (length l ≤ q.bytes - s.bytes)))
      × ((enqueue q s l false ≡ (
        record {
          messages = s.messages ++ (l ∷ []);
          bytes = s.bytes + length l;
          closed = false;
          cancelled = false;
        },
        queued,
      ))
          ⊎ (enqueue q s l false
              ≡ (record { messages = []; bytes = 0; closed = true; cancelled = true }, closed)))
unfolding enqueue total
enqueue_required q s l h = ground (arith, h.counted, h.emptied, h.token)
