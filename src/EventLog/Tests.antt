-- ===== src/EventLog/Tests.antt =====
-- Runs of src/eventlog.rs and src/daemon/hub.rs at concrete requests.
use stavlos.Common.{
  ℕ, ◌-◌, max, Text, codes, text_eq, text_lt, Bool, true, false, not, List, [], ◌∷◌, ◌≡◌, refl,
  arith, inl, inr, sym, text_eq_iff, Bool-cases,
}
use stavlos.Common.Map.{get, insert, remove}
use stavlos.EventLog.Store.{
  Event, numbered, refused, Log, next_commit, later_commits, max_seq, read, checked_next,
  last_number, concat, call_back, deliver_all, write_events, write_requests, write, refuse_all,
  number_all, settle_one, commit_each, settle_group, commit,
}
use stavlos.EventLog.Numbers.{numbered_from, IsNumbered}
use stavlos.EventLog.Commits.{Commits}
use stavlos.EventLog.Clients.{
  new, unsubscribe, deliver, committed_to, start_replay, replay_events, replay_turn,
}
use stavlos.EventLog.Follow.{of_channel}
use stavlos.EventLog.Join.{Op, turn, step, run, after_turn, subscribe_at, Follows}
use stavlos.EventLog.Join.{commit as batch}
use stavlos.EventLog.Runs.{run-Follows}

abbrev event : Text → ℕ → Text → Event
event channel seq kind = record {
  channel = channel;
  seq = seq;
  agent = [];
  kind = kind;
  payload = [];
}

abbrev c1 : Text
c1 = codes "c1"

abbrev c2 : Text
c2 = codes "c2"

-- No row of the kind `bad` is accepted.
accepts : List Event → Event → Bool
accepts rows e = not (text_eq e.kind (codes "bad"))

abbrev two_rows : List Event
two_rows = event c1 1 (codes "a") ∷ event c2 1 (codes "b") ∷ []

abbrev log : Log
log = record { rows = two_rows; commits = []; called = [] }

abbrev requests : List (List Event)
requests =
    (event c1 0 (codes "x") ∷ event c1 0 (codes "y") ∷ [])
    ∷ (event c2 0 (codes "z") ∷ event c1 0 (codes "bad") ∷ [])
    ∷ []

-- The second request is refused as a whole, and the first one is written on the second attempt.
one_refused :
    (commit accepts log requests).1
    ≡ numbered (event c1 2 (codes "x") ∷ event c1 3 (codes "y") ∷ []) ∷ refused ∷ []
unfolding commit settle_group commit_each settle_one refuse_all number_all write write_requests
    write_events deliver_all call_back concat last_number checked_next max_seq next_commit
    later_commits accepts text_eq text_lt get insert
one_refused = refl

not_both : (c : Text) → text_eq c1 c ≡ true → text_eq c2 c ≡ false
unfolding text_eq
not_both c a = rw (sym ((text_eq_iff c1 c).0 a)) refl

abbrev ops : List Op
ops =
    turn (event c1 2 (codes "x") ∷ event c2 2 (codes "y") ∷ [])
    ∷ turn []
    ∷ turn []
    ∷ batch (event c1 3 (codes "z") ∷ [])
    ∷ []

-- The history and the events that were committed during the replay and after it, once each.
followed :
    (run (subscribe_at two_rows new c1 1) ops).client.sent
    ≡ event c1 1 (codes "a") ∷ event c1 2 (codes "x") ∷ event c1 3 (codes "z") ∷ []
unfolding run step after_turn subscribe_at start_replay replay_turn replay_events unsubscribe new
    deliver committed_to read text_eq text_lt get insert remove
followed = refl

rows_stay : IsNumbered (run (subscribe_at two_rows new c1 1) ops).rows
unfolding numbered_from run step after_turn subscribe_at start_replay replay_turn replay_events
    unsubscribe new deliver committed_to read text_eq text_lt get insert remove
rows_stay c = elim (Bool-cases (text_eq c1 c)) [
  | inl a ↦ rw (a, not_both c a) refl
  | inr a ↦ rw a (ground (arith, a))
]

run-Follows_example :
    Follows c1 (max 1 1 - 1) (of_channel c1 new.sent) (run (subscribe_at two_rows new c1 1) ops)
run-Follows_example = run-Follows two_rows new c1 1 ops rows_stay
