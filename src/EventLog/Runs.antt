-- ===== src/EventLog/Runs.antt =====
-- Whole subscriptions (src/daemon/hub.rs), whatever the log's writer commits meanwhile.
use mathlib.Core.Path.{subst}
use mathlib.Core.List.{append_assoc, append-nil}
use stavlos.Common.{
  ℕ, suc, ◌-◌, max, Text, text_eq_refl, is_empty, Bool, true, false, List, [], ◌∷◌, ◌++◌, take, ◌≡◌,
  refl, sym, ap, ◌∙◌, arith, inl, inr, Bool-cases, Option-cases,
}
use stavlos.Common.Map.{insert, get-remove}
use stavlos.Common.Slices.{drop-all, length-take_le}
use stavlos.EventLog.Store.{Event, read}
use stavlos.EventLog.Numbers.{IsNumbered}
use stavlos.EventLog.Clients.{
  Client, Replay, committed_to, start_replay, replay_events, replay_turn, unsubscribe,
}
use stavlos.EventLog.Follow.{of_channel}
use stavlos.EventLog.Join.{
  World, Op, commit, turn, step, run, after_turn, subscribe_at, Replaying, Follows,
}
use stavlos.EventLog.Batches.{
  committed_to-Replaying, committed_to-Live, prefix-IsNumbered, replayed, caught_up,
}

module _ (ch : Text) (base : ℕ) (before : List Event) where
  turned :
      (w : World) (es : List Event) (c : Client) (r : Replay)
      → IsNumbered (w.rows ++ es)
      → Replaying ch base before (w.rows ++ es) c r
      → Follows ch base before
          (after_turn (record w { rows = w.rows ++ es }) (replay_turn w.rows (w.rows ++ es) c r))
  unfolding after_turn replay_turn Follows
  turned w es c r n h =
      let events = read w.rows r.channel (suc r.last) 512 in
      let again = read (w.rows ++ es) r.channel (suc r.last) 512 in
      let grown : World = record w { rows = w.rows ++ es } in
      let all = append-nil (w.rows ++ es) in
      let P = λ (t : (Client × Replay) × Bool). Follows ch base before (after_turn grown t) in
      elim (Bool-cases (is_empty events)) [
        | inr e ↦
            let same : replay_turn w.rows (w.rows ++ es) c r ≡ (replay_events c r events, false) =
              rw (replay_turn, e) refl in
            subst P (sym same) (replayed ch base before w.rows es c r events n refl h e)
        | inl e ↦ elim (Bool-cases (is_empty again)) [
          | inr a ↦
              let same : replay_turn w.rows (w.rows ++ es) c r ≡ (replay_events c r again, false) =
                rw (replay_turn, e, a) refl in
              subst P (sym same) (
                subst
                  (λ t.
                    Replaying ch base before t (replay_events c r again).0
                      (replay_events c r again).1)
                  all
                  (replayed ch base before (w.rows ++ es) [] c r again
                    (subst IsNumbered (sym all) n) refl
                    (subst (λ t. Replaying ch base before t c r) (sym all) h) a))
          | inl a ↦
              let same : replay_turn w.rows (w.rows ++ es) c r ≡ (
                (record c { subscriptions = insert c.subscriptions r.channel r.last }, r),
                true,
              ) =
                rw (replay_turn, e, a) refl in
              subst P (sym same) (caught_up ch base before (w.rows ++ es) c r n a h)
        ]
      ]

  commit-Follows :
      (w : World) (es : List Event)
      → IsNumbered (w.rows ++ es)
      → Follows ch base before w
      → Follows ch base before (step w (commit es))
  unfolding step Follows
  commit-Follows w es n = elim (Option-cases w.replay) [
    | inl e ↦ rw (Follows, step, e) (committed_to-Live ch base before w.rows w.client es n)
    | inr (r, e) ↦
        rw (Follows, step, e) (committed_to-Replaying ch base before w.rows w.client r es)
  ]

  turn-Follows :
      (w : World) (es : List Event)
      → IsNumbered (w.rows ++ es)
      → Follows ch base before w
      → Follows ch base before (step w (turn es))
  unfolding step Follows after_turn
  turn-Follows w es n = elim (Option-cases w.replay) [
    | inl e ↦
        let same : step w (turn es) ≡ step w (commit es) = rw (step, e) (rw e refl) in
        (λ h. subst (Follows ch base before) (sym same) (commit-Follows w es n h))
    | inr (r, e) ↦
        let grown : World = record {
          rows = w.rows ++ es;
          client = committed_to w.client es;
          replay = w.replay;
        } in
        let same : step w (turn es)
            ≡ after_turn grown (replay_turn w.rows (w.rows ++ es) (committed_to w.client es) r) =
          rw (step, e) refl in
        let replaying : Follows ch base before w → Replaying ch base before w.rows w.client r =
          rw (Follows, e) (λ h. h) in
        (λ h. subst (Follows ch base before) (sym same) (
          turned w es (committed_to w.client es) r n
            (committed_to-Replaying ch base before w.rows w.client r es (replaying h))))
  ]

  -- The rows that an operation adds.
  batch : Op → List Event
  batch (commit es) = es
  batch (turn es) = es

  step-rows : (w : World) (op : Op) → (step w op).rows ≡ w.rows ++ batch op
  unfolding step batch after_turn
  step-rows w (commit es) = refl
  step-rows w (turn es) = elim (Option-cases w.replay) [
    | inl e ↦ rw (step, e) refl
    | inr (r, e) ↦ rw (step, e) refl
  ]

  run-rows : (w : World) (ops : List Op) → (more : List Event) × ((run w ops).rows ≡ w.rows ++ more)
  unfolding run
  run-rows w [] = ([], sym (append-nil w.rows))
  run-rows w (op ∷ ops) =
      let (more, e) = run-rows (step w op) ops in
      (
        batch op ++ more,
        e ∙ (ap (λ t. t ++ more) (step-rows w op) ∙ append_assoc w.rows (batch op) more),
      )

  step-Follows :
      (w : World) (op : Op)
      → IsNumbered (w.rows ++ batch op)
      → Follows ch base before w
      → Follows ch base before (step w op)
  unfolding batch
  step-Follows w (commit es) n h = commit-Follows w es n h
  step-Follows w (turn es) n h = turn-Follows w es n h

  pub run_from-Follows :
      (w : World) (ops : List Op)
      → IsNumbered (run w ops).rows
      → Follows ch base before w
      → Follows ch base before (run w ops)
  unfolding run
  run_from-Follows w [] n h = h
  run_from-Follows w (op ∷ ops) n h =
      let (more, e) = run-rows (step w op) ops in
      let whole : IsNumbered ((w.rows ++ batch op) ++ more) =
        subst IsNumbered (e ∙ ap (λ t. t ++ more) (step-rows w op)) n in
      run_from-Follows (step w op) ops n
        (step-Follows w op (prefix-IsNumbered ch base before (w.rows ++ batch op) more whole) h)

-- A client subscribes to a channel from a number on, and the log's writer commits what it likes while
-- the history is replayed and after it, as long as the rows are numbered. At every moment the client
-- has been sent, after what it had before, the events of the channel from that number up to the last
-- one replayed, each once and in order; and from the moment the subscription is live, all of them
-- that are in the table, with nothing lost between the history and the live events.
pub run-Follows :
    (rows : List Event) (c : Client) (channel : Text) (from : ℕ) (ops : List Op)
    → IsNumbered (run (subscribe_at rows c channel from) ops).rows
    → Follows channel
        (max from 1 - 1)
        (of_channel channel c.sent)
        (run (subscribe_at rows c channel from) ops)
unfolding subscribe_at start_replay unsubscribe Follows
run-Follows rows c channel from ops n =
    let base = max from 1 - 1 in
    let all = of_channel channel rows in
    run_from-Follows channel base (of_channel channel c.sent) (subscribe_at rows c channel from) ops
      n
      (record {
        channel = refl;
        sent = sym (
            ap (λ x. of_channel channel c.sent ++ x)
              (drop-all base (take base all) (length-take_le base all))
            ∙ append-nil (of_channel channel c.sent));
        low = omega arith;
        high = omega arith;
        quiet = get-remove c.subscriptions channel channel ∙ rw (text_eq_refl channel) refl;
      })
