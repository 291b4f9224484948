-- ===== src/Daemon/Queue/Tests.antt =====
-- Runs of the queue, and the theorems at concrete inputs.
use stavlos.Common.{◌≡◌, ◌-◌, ◌<◌, ◌≤◌, ◌↔◌, ◌⊎◌, refl, false, true, List, [], ◌∷◌, length, arith}
use stavlos.Daemon.Queue.{
  Frame, State, Limits, Op, send, history, take, limits, new, enqueue, replay, recv, step, run,
  start, queued, Enqueued, sent,
}
use stavlos.Daemon.Queue.Bounds.{total, Inv, run_bounded, enqueue_required}
use stavlos.Daemon.Queue.Order.{Fifo, run-Fifo, drain, replay-drain}

abbrev small : Limits
small = limits 4 8

abbrev busy : List Op
busy = send (1 ∷ 2 ∷ []) false ∷ history (3 ∷ []) false ∷ send (4 ∷ []) true ∷ take false ∷ []

busy_runs : (run small start busy).delivered ≡ (1 ∷ 2 ∷ []) ∷ []
unfolding run start step enqueue recv replay limits new
busy_runs = refl

-- The second history frame waits for room.
busy_waits : (run small start busy).accepted ≡ (1 ∷ 2 ∷ []) ∷ (4 ∷ []) ∷ []
unfolding run start step enqueue recv replay limits new
busy_waits = refl

run_bounded_example : Inv (limits 4 8) (run (limits 4 8) start busy).state
run_bounded_example = run_bounded 4 8 busy

run-Fifo_example : Fifo (run small start busy)
run-Fifo_example = run-Fifo small busy

abbrev one_waits : State
one_waits = record { messages = (5 ∷ []) ∷ []; bytes = 1; closed = false; cancelled = false }

one_waits-Inv : Inv small one_waits
unfolding limits total
one_waits-Inv = ground arith

enqueue_required_example :
    (((enqueue small one_waits (9 ∷ []) false).1 ≡ queued) ↔ (
      (one_waits.closed ≡ false)
      × (length one_waits.messages < small.messages)
      × (length {A = Frame} ((9 ∷ []) ∷ []) ≤ small.bytes - one_waits.bytes)))
    × ((enqueue small one_waits (9 ∷ []) false ≡ (
      record { messages = (5 ∷ []) ∷ (9 ∷ []) ∷ []; bytes = 2; closed = false; cancelled = false },
      queued,
    ))
        ⊎ (enqueue small one_waits (9 ∷ []) false ≡ (
          record { messages = []; bytes = 0; closed = true; cancelled = true },
          Enqueued.closed,
        )))
enqueue_required_example = enqueue_required small one_waits (9 ∷ []) one_waits-Inv

replay-drain_example : (replay small (drain 1 one_waits) (7 ∷ 8 ∷ []) false).1 ≡ sent
unfolding limits
replay-drain_example = replay-drain small one_waits (7 ∷ 8 ∷ []) one_waits-Inv refl (omega arith)
