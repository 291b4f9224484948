-- ===== src/Daemon/Queue/Order.antt =====
-- First in, first out, for the queue of src/daemon/queue.rs.
use mathlib.Core.List.{append_assoc}
use stavlos.Common.{
  ℕ, zero, suc, ◌-◌, ◌≤◌, ◌≡◌, ◌⊎◌, ◌||◌, ◌∙◌, sym, refl, Bool, true, false, List, [], ◌∷◌, ◌++◌,
  length, arith, Bool-cases, inl, inr,
}
use stavlos.Daemon.Queue.{
  Frame, State, Limits, Op, Trace, shut, send, history, take, sent, new, close, enqueue, replay,
  recv, pop_front, step, run, start, after_take,
}
use stavlos.Daemon.Queue.Bounds.{total, Inv}

-- `xs` stands at the front of `ys`.
abbrev pub IsPrefix : List Frame → List Frame → Type 0
IsPrefix [] ys = Unit
IsPrefix (x ∷ xs) [] = ⊥
IsPrefix (x ∷ xs) (y ∷ ys) = (x ≡ y) × IsPrefix xs ys

IsPrefix-append : (xs ys : List Frame) → IsPrefix xs (xs ++ ys)
IsPrefix-append [] ys = tt
IsPrefix-append (x ∷ xs) ys = (refl, IsPrefix-append xs ys)

IsPrefix-longer : (xs ys zs : List Frame) → IsPrefix xs ys → IsPrefix xs (ys ++ zs)
IsPrefix-longer [] ys zs h = tt
IsPrefix-longer (x ∷ xs) [] zs h = absurd h
IsPrefix-longer (x ∷ xs) (y ∷ ys) zs h = (h.0, IsPrefix-longer xs ys zs h.1)

-- While the queue is open, what was accepted is what was delivered and then what waits. What was
-- delivered always stands at the front of what was accepted.
pub record Fifo (t : Trace) : Type 0 where
  pub split : (t.state.closed ≡ true) ⊎ (t.accepted ≡ t.delivered ++ t.state.messages)
  pub front : IsPrefix t.delivered t.accepted

-- `line` moves from the waiting frames to the delivered ones.
take_Fifo :
    (d : List Frame) (l : Frame) (ls a : List Frame)
    → a ≡ d ++ (l ∷ ls)
    → (a ≡ (d ++ (l ∷ [])) ++ ls) × IsPrefix (d ++ (l ∷ [])) a
take_Fifo d l ls a e =
    let moved : a ≡ (d ++ (l ∷ [])) ++ ls = e ∙ sym (append_assoc d (l ∷ []) ls) in
    (moved, rw moved (IsPrefix-append (d ++ (l ∷ [])) ls))

send-Fifo : (q : Limits) (t : Trace) (l : Frame) (b : Bool) → Fifo t → Fifo (step q t (send l b))
unfolding step enqueue
send-Fifo q t l b h = ground (
  arith,
  append_assoc t.delivered t.state.messages (l ∷ []),
  IsPrefix-longer t.delivered t.accepted (l ∷ []) h.front,
)

history-Fifo :
    (q : Limits) (t : Trace) (l : Frame) (b : Bool) → Fifo t → Fifo (step q t (history l b))
unfolding step replay
history-Fifo q t l b h = ground (
  arith,
  append_assoc t.delivered t.state.messages (l ∷ []),
  IsPrefix-longer t.delivered t.accepted (l ∷ []) h.front,
)

pop_front-Fifo :
    (t : Trace) (ms : List Frame)
    → t.state.messages ≡ ms
    → t.state.closed ≡ false
    → Fifo t
    → Fifo (after_take t (pop_front ms t.state))
unfolding after_take pop_front
pop_front-Fifo t [] e o h = h
pop_front-Fifo t (l ∷ ls) e o h =
    let whole : t.accepted ≡ t.delivered ++ (l ∷ ls) = ground (arith, h.split, o, e) in
    let moved = take_Fifo t.delivered l ls t.accepted whole in
    record { split = inr moved.0; front = moved.1 }

step-Fifo : (q : Limits) (t : Trace) (op : Op) → Fifo t → Fifo (step q t op)
unfolding step close recv after_take
step-Fifo q t shut h = ground arith
step-Fifo q t (send l b) h = send-Fifo q t l b h
step-Fifo q t (history l b) h = history-Fifo q t l b h
step-Fifo q t (take b) h = elim (Bool-cases (t.state.closed || b)) [
  | inl stop ↦ rw stop h
  | inr go ↦ rw go (pop_front-Fifo t t.state.messages refl (ground arith) h)
]

run_from-Fifo : (q : Limits) (t : Trace) (ops : List Op) → Fifo t → Fifo (run q t ops)
unfolding run
run_from-Fifo q t [] h = h
run_from-Fifo q t (op ∷ ops) h = run_from-Fifo q (step q t op) ops (step-Fifo q t op h)

-- Whatever the threads do with a new queue, frames leave it in the order in which they were
-- accepted: none is lost or repeated while it is open, and closing it only cuts off the rest.
pub run-Fifo : (q : Limits) (ops : List Op) → Fifo (run q start ops)
unfolding start new
run-Fifo q ops = run_from-Fifo q start ops (ground arith)

-- The writer's rounds that empty a queue.
pub drain : ℕ → State → State
drain zero s = s
drain (suc n) s = drain n (recv s false).0

drain_empties :
    (ms : List Frame) (s : State)
    → s.messages ≡ ms
    → s.closed ≡ false
    → s.bytes ≡ total s.messages
    → ((drain (length ms) s).messages ≡ [])
      × ((drain (length ms) s).closed ≡ false)
      × ((drain (length ms) s).bytes ≡ 0)
unfolding drain total
drain_empties [] s e o b = ground arith
drain_empties (l ∷ ls) s e o b =
    let round : (recv s false).0 ≡ record s { messages = ls; bytes = s.bytes - length l } =
      unfold recv pop_front in ground arith in
    rw (round, drain)
      (drain_empties ls (record s { messages = ls; bytes = s.bytes - length l }) refl o
        (ground arith))

-- History is never stuck behind a live writer: in an open queue with the invariant, once the frames
-- that wait are taken, a round of `replay` sends any frame within the byte bound.
pub replay-drain :
    (q : Limits) (s : State) (l : Frame)
    → Inv q s
    → s.closed ≡ false
    → length l ≤ q.bytes
    → (replay q (drain (length s.messages) s) l false).1 ≡ sent
unfolding replay
replay-drain q s l h o k = ground (arith, drain_empties s.messages s refl o h.counted)
