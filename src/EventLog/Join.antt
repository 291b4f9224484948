-- ===== src/EventLog/Join.antt =====
-- A subscription from its start to its live events (src/daemon/hub.rs).

use mathlib.Core.List.{append_assoc, append-nil}
use stavlos.Common.{
  ℕ, suc, ◌+◌, ◌≤◌, max, Text, text_eq, text_eq_iff, Bool, true, false, Option, none, some, List,
  [], ◌∷◌, ◌++◌, length, take, drop, leb, if◌then◌else◌, ◌≡◌, refl, sym, ap, ◌∙◌, arith, inl, inr,
  Bool-cases, Option-cases, length-append,
}
use stavlos.Common.Map.{get, get-insert}
use stavlos.Common.Slices.{drop-all, drop-append, take-append, length-take_le}
use stavlos.EventLog.Store.{Event}
use stavlos.EventLog.Numbers.{numbered_from, IsNumbered}
use stavlos.EventLog.Clients.{Client, Replay, deliver, committed_to, start_replay, replay_turn}
use stavlos.EventLog.Follow.{of_channel, of_channel-append, length-of_channel, numbered_from-split}

-- The daemon as one client sees it: the table, the client, and its subscription while it is being
-- set up.
pub record World : Type 0 where
  pub rows : List Event
  pub client : Client
  pub replay : Option Replay

-- The writer commits a batch; or it does so while the subscription makes a turn.
pub data Op : Type 0 where
  commit turn : List Event → Op

unfoldable pub after_turn : World → (Client × Replay) × Bool → World
after_turn w t = record w { client = t.0.0; replay = if t.1 then none else some t.0.1 }

unfoldable pub step : World → Op → World
step w (commit es) = record w { rows = w.rows ++ es; client = committed_to w.client es }
step w (turn es) =
    let grown = record w { rows = w.rows ++ es; client = committed_to w.client es } in
    elim w.replay [
      | none ↦ grown
      | some r ↦ after_turn grown (replay_turn w.rows grown.rows grown.client r)
    ]

unfoldable pub run : World → List Op → World
run w [] = w
run w (op ∷ ops) = run (step w op) ops

unfoldable pub subscribe_at : List Event → Client → Text → ℕ → World
subscribe_at rows c channel from =
    let started = start_replay c channel from in
    record { rows = rows; client = started.0; replay = some started.1 }

module _ (ch : Text) (base : ℕ) (before : List Event) where
  -- The events of the channel that follow the first `base`.
  abbrev tail : List Event → List Event
  tail rows = drop base (of_channel ch rows)

  -- While history is replayed, what was sent of the channel ends with the events up to `last`.
  pub record Replaying (rows : List Event) (c : Client) (r : Replay) : Type 0 where
    pub channel : r.channel ≡ ch
    pub sent : of_channel ch c.sent ≡ before ++ drop base (take r.last (of_channel ch rows))
    pub low : base ≤ r.last
    pub high : r.last ≤ max base (length (of_channel ch rows))
    pub quiet : get c.subscriptions ch ≡ none

  -- Once the subscription is live, all events from its start on were sent, once and in order.
  pub record Live (rows : List Event) (c : Client) : Type 0 where
    pub sent : of_channel ch c.sent ≡ before ++ drop base (of_channel ch rows)
    pub last : get c.subscriptions ch ≡ some (max base (length (of_channel ch rows)))

  unfoldable pub Follows : World → Type 0
  Follows w = elim w.replay as (λ x. Type 0) [
    | none ↦ Live w.rows w.client
    | some r ↦ Replaying w.rows w.client r
  ]

  same_base : (k : ℕ) (zs : List Event) → k ≤ base → length (take k zs) ≤ base
  same_base k zs h = omega (arith, length-take_le k zs, h)

  of_channel-other :
      (es : List Event) (e : Event)
      → text_eq e.channel ch ≡ false
      → of_channel ch (es ++ (e ∷ [])) ≡ of_channel ch es
  of_channel-other es e t = of_channel-append ch es (e ∷ []) ∙ rw t (append-nil (of_channel ch es))

  of_channel-push :
      (es : List Event) (e : Event)
      → text_eq e.channel ch ≡ true
      → of_channel ch (es ++ (e ∷ [])) ≡ of_channel ch es ++ (e ∷ [])
  of_channel-push es e t = of_channel-append ch es (e ∷ []) ∙ rw t refl

  deliver-other :
      (c : Client) (e : Event)
      → text_eq e.channel ch ≡ false
      → (of_channel ch (deliver c e).sent ≡ of_channel ch c.sent)
        × (get (deliver c e).subscriptions ch ≡ get c.subscriptions ch)
  unfolding deliver
  deliver-other c e t = elim (Option-cases (get c.subscriptions e.channel)) [
    | inl g ↦ rw (g, deliver) (refl, refl)
    | inr (last, g) ↦ elim (Bool-cases (leb e.seq last)) [
      | inl l ↦ rw (g, deliver, l) (refl, refl)
      | inr l ↦
          rw (g, deliver, l)
            (of_channel-other c.sent e t, get-insert c.subscriptions e.channel ch e.seq ∙ rw t refl)
    ]
  ]

  deliver-unsubscribed :
      (c : Client) (e : Event)
      → get c.subscriptions ch ≡ none
      → text_eq e.channel ch ≡ true
      → deliver c e ≡ c
  unfolding deliver
  deliver-unsubscribed c e q t =
      let g = ap (get c.subscriptions) ((text_eq_iff e.channel ch).0 t) ∙ q in rw (deliver, g) refl

  -- A slice that the table holds does not change when the table grows.
  slice-append :
      (last : ℕ) (xs ys : List Event)
      → base ≤ last
      → last ≤ max base (length xs)
      → drop base (take last (xs ++ ys)) ≡ drop base (take last xs)
  slice-append last xs ys l h = elim (Bool-cases (leb last (length xs))) [
    | inl e ↦ ap (drop base) (take-append last xs ys (ground (arith, e)))
    | inr e ↦
        let short : last ≤ base = ground (arith, e, l, h) in
        drop-all base (take last (xs ++ ys)) (same_base last (xs ++ ys) short)
        ∙ sym (drop-all base (take last xs) (same_base last xs short))
  ]

  pub deliver-Replaying :
      (rows : List Event) (c : Client) (r : Replay) (e : Event)
      → Replaying rows c r
      → Replaying (rows ++ (e ∷ [])) (deliver c e) r
  deliver-Replaying rows c r e h =
      let grown = of_channel-append ch rows (e ∷ []) in
      let kept =
        ap (λ x. drop base (take r.last x)) grown
        ∙ slice-append r.last (of_channel ch rows) (of_channel ch (e ∷ [])) h.low h.high in
      let longer = ap length grown ∙ length-append (of_channel ch rows) (of_channel ch (e ∷ [])) in
      let high : r.last ≤ max base (length (of_channel ch (rows ++ (e ∷ [])))) =
        omega (arith, h.high, longer) in
      elim (Bool-cases (text_eq e.channel ch)) [
        | inl t ↦ rw (deliver-unsubscribed c e h.quiet t) (record {
          channel = h.channel;
          sent = h.sent ∙ ap (λ x. before ++ x) (sym kept);
          low = h.low;
          high = high;
          quiet = h.quiet;
        })
        | inr t ↦
            let (same, subs) = deliver-other c e t in
            record {
              channel = h.channel;
              sent = same ∙ (h.sent ∙ ap (λ x. before ++ x) (sym kept));
              low = h.low;
              high = high;
              quiet = subs ∙ h.quiet;
            }
      ]

  -- The number of the event that a numbered table ends with.
  number :
      (rows : List Event) (e : Event)
      → IsNumbered (rows ++ (e ∷ []))
      → text_eq e.channel ch ≡ true
      → e.seq ≡ suc (length (of_channel ch rows))
  unfolding numbered_from
  number rows e n t =
      let (a, b) = numbered_from-split 0 rows (e ∷ []) ch (n ch) in
      ground (arith, b, t, length-of_channel ch rows)

  deliver-subscribed :
      (rows : List Event) (c : Client) (e : Event)
      → text_eq e.channel ch ≡ true
      → e.seq ≡ suc (length (of_channel ch rows))
      → Live rows c
      → Live (rows ++ (e ∷ [])) (deliver c e)
  unfolding deliver
  deliver-subscribed rows c e t k h =
      let xs = of_channel ch rows in
      let grown = of_channel-push rows e t in
      let longer = length-append xs (e ∷ []) in
      let len : length (of_channel ch (rows ++ (e ∷ []))) ≡ length xs + 1 =
        ap length grown ∙ longer in
      let at = (text_eq_iff e.channel ch).0 t in
      let g = ap (get c.subscriptions) at ∙ h.last in
      elim (Bool-cases (leb e.seq (max base (length xs)))) [
        | inl l ↦
            let none_before = drop-all base xs (ground (arith, l, k)) in
            let none_after = drop-all base (xs ++ (e ∷ [])) (ground (arith, l, k, longer)) in
            rw (deliver, g, l)
              (record {
                sent =
                    h.sent
                    ∙ (ap (λ x. before ++ x) (none_before ∙ sym none_after)
                        ∙ ap (λ x. before ++ drop base x) (sym grown));
                last = h.last ∙ ap some (ground (arith, len, l, k));
              })
        | inr l ↦
            rw (deliver, g, l)
              (record {
                sent =
                    of_channel-push c.sent e t
                    ∙ (ap (λ x. x ++ (e ∷ [])) h.sent
                        ∙ (append_assoc before (drop base xs) (e ∷ [])
                            ∙ ap (λ x. before ++ x)
                                (sym (drop-append base xs (e ∷ []) (ground (arith, l, k)))
                                  ∙ ap (drop base) (sym grown))));
                last =
                    get-insert c.subscriptions e.channel ch e.seq
                    ∙ rw t (ap some (ground (arith, len, l, k)));
              })
      ]

  pub deliver-Live :
      (rows : List Event) (c : Client) (e : Event)
      → IsNumbered (rows ++ (e ∷ []))
      → Live rows c
      → Live (rows ++ (e ∷ [])) (deliver c e)
  deliver-Live rows c e n h = elim (Bool-cases (text_eq e.channel ch)) [
    | inr t ↦
        let (same, subs) = deliver-other c e t in
        let grown = of_channel-other rows e t in
        record {
          sent = same ∙ (h.sent ∙ ap (λ x. before ++ drop base x) (sym grown));
          last = subs ∙ (h.last ∙ ap (λ x. some (max base (length x))) (sym grown));
        }
    | inl t ↦ deliver-subscribed rows c e t (number rows e n t) h
  ]
