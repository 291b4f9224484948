-- ===== src/EventLog/Batches.antt =====
-- Batches of events, live and replayed, for a client that follows a channel (src/daemon/hub.rs).
use mathlib.Core.Path.{subst}
use mathlib.Core.List.{append_assoc, append-nil}
use stavlos.Common.{
  ℕ, zero, suc, ◌+◌, ◌≤◌, max, Text, text_eq_refl, is_empty, true, false, some, List, [], ◌∷◌, ◌++◌,
  length, take, drop, leb, ◌≡◌, sym, ap, ◌∙◌, arith, inl, inr, Bool-cases, length-append,
}
use stavlos.Common.Map.{get, insert, get-insert}
use stavlos.Common.Slices.{
  take-all, drop-all, take-append, drop-take_more, take-nil, take-length-take, length-take-drop,
}
use stavlos.EventLog.Store.{Event, read}
use stavlos.EventLog.Numbers.{IsNumbered}
use stavlos.EventLog.Clients.{Client, Replay, deliver, committed_to, replay_events}
use stavlos.EventLog.Follow.{
  of_channel, of_channel-append, read-numbered, numbered_from-split, runs, runs-of_channel,
  runs-drop, runs-take, of_channel-runs, replay_events-runs,
}
use stavlos.EventLog.Join.{Replaying, Live, deliver-Replaying, deliver-Live}

module _ (ch : Text) (base : ℕ) (before : List Event) where
  pub committed_to-Replaying :
      (rows : List Event) (c : Client) (r : Replay) (es : List Event)
      → Replaying ch base before rows c r
      → Replaying ch base before (rows ++ es) (committed_to c es) r
  unfolding committed_to
  committed_to-Replaying rows c r [] h = rw (append-nil rows) h
  committed_to-Replaying rows c r (e ∷ es) h =
      subst (λ x. Replaying ch base before x (committed_to (deliver c e) es) r)
        (append_assoc rows (e ∷ []) es)
        (committed_to-Replaying (rows ++ (e ∷ [])) (deliver c e) r es
          (deliver-Replaying ch base before rows c r e h))

  pub prefix-IsNumbered : (xs ys : List Event) → IsNumbered (xs ++ ys) → IsNumbered xs
  prefix-IsNumbered xs ys n c = (numbered_from-split 0 xs ys c (n c)).0

  pub committed_to-Live :
      (rows : List Event) (c : Client) (es : List Event)
      → IsNumbered (rows ++ es)
      → Live ch base before rows c
      → Live ch base before (rows ++ es) (committed_to c es)
  unfolding committed_to
  committed_to-Live rows c [] n h = rw (append-nil rows) h
  committed_to-Live rows c (e ∷ es) n h =
      let moved = append_assoc rows (e ∷ []) es in
      let numbers : IsNumbered ((rows ++ (e ∷ [])) ++ es) = subst IsNumbered (sym moved) n in
      subst (λ x. Live ch base before x (committed_to (deliver c e) es)) moved
        (committed_to-Live (rows ++ (e ∷ [])) (deliver c e) es numbers (
          deliver-Live ch base before rows c e (prefix-IsNumbered (rows ++ (e ∷ [])) es numbers) h))

  not_past :
      (n k : ℕ) (xs es : List Event) → es ≡ take k (drop n xs) → is_empty es ≡ false → n ≤ length xs
  not_past n k xs es e x = elim (Bool-cases (leb n (length xs))) [
    | inl l ↦ ground (arith, l)
    | inr l ↦
        let gone = ap (take k) (drop-all n xs (ground (arith, l))) in
        absurd (ground (arith, x, e, gone, take-nil {A = Event} k))
  ]

  at_end : (n k : ℕ) (xs : List Event) → is_empty (take (suc k) (drop n xs)) ≡ true → length xs ≤ n
  at_end zero k [] h = omega arith
  at_end zero k (x ∷ xs) h = ground (arith, h)
  at_end (suc n) k [] h = omega arith
  at_end (suc n) k (x ∷ xs) h = omega (arith, at_end n k xs h)

  plus_0 : (n : ℕ) → n ≡ 0 + n
  plus_0 n = omega arith

  runs-drop_0 : (n : ℕ) (xs : List Event) → runs ch 0 xs ≡ true → runs ch n (drop n xs) ≡ true
  runs-drop_0 n xs h = ap (λ k. runs ch k (drop n xs)) (plus_0 n) ∙ runs-drop ch 0 n xs h

  reached : (last len : ℕ) → len ≤ last → base ≤ last → last ≤ max base len → last ≡ max base len
  reached last len p l h = omega (arith, p, l, h)

  -- What a read finds while the history is replayed moves the subscription on.
  pub replayed :
      (rows later : List Event) (c : Client) (r : Replay) (es : List Event)
      → IsNumbered (rows ++ later)
      → es ≡ read rows r.channel (suc r.last) 512
      → Replaying ch base before (rows ++ later) c r
      → is_empty es ≡ false
      → Replaying ch base before (rows ++ later) (replay_events c r es).0 (replay_events c r es).1
  replayed rows later c r es n e h x =
      let xs = of_channel ch rows in
      let all = of_channel ch (rows ++ later) in
      let numbers = prefix-IsNumbered rows later n in
      let found : es ≡ take 512 (drop r.last xs) =
        e
        ∙ (ap (λ k. read rows k (suc r.last) 512) h.channel
            ∙ read-numbered rows ch r.last 512 numbers) in
      let inside : r.last ≤ length xs = not_past r.last 512 xs es found x in
      let numbered : runs ch r.last es ≡ true =
        ap (runs ch r.last) found
        ∙ (runs-take ch r.last 512 (drop r.last xs)
            (runs-drop_0 r.last xs (runs-of_channel ch 0 rows (numbers ch)))) in
      let (w, a, b, d) =
        replay_events-runs c r es (ap (λ k. runs k r.last es) h.channel ∙ numbered) in
      let whole : take (length es) (drop r.last xs) ≡ es =
        ap (λ k. take (length k) (drop r.last xs)) found
        ∙ (take-length-take 512 (drop r.last xs) ∙ sym found) in
      let bound : r.last + length es ≤ length xs =
        subst (λ k. r.last + length k ≤ length xs) (sym found)
          (length-take-drop r.last 512 xs inside) in
      let split = of_channel-append ch rows later in
      let cut = λ (k : ℕ) (q : k ≤ length xs).
        ap (take k) split ∙ take-append k xs (of_channel ch later) q in
      let joined : drop base (take r.last all) ++ es ≡ drop base (take (r.last + length es) all) =
        ap (λ y. drop base y ++ es) (cut r.last inside)
        ∙ (ap (λ y. drop base (take r.last xs) ++ y) (sym whole)
            ∙ (drop-take_more base r.last (length es) xs h.low
                ∙ ap (drop base) (sym (cut (r.last + length es) bound)))) in
      let wide : length all ≡ length xs + length (of_channel ch later) =
        ap length split ∙ length-append xs (of_channel ch later) in
      record {
        channel = b ∙ h.channel;
        sent =
            ap (of_channel ch) w
            ∙ (of_channel-append ch c.sent es
                ∙ (ap (λ y. y ++ of_channel ch es) h.sent
                    ∙ (ap (λ y. (before ++ drop base (take r.last all)) ++ y)
                          (of_channel-runs ch r.last es numbered)
                        ∙ (append_assoc before (drop base (take r.last all)) es
                            ∙ (ap (λ y. before ++ y) joined
                                ∙ ap (λ k. before ++ drop base (take k all)) (sym d))))));
        low = omega (arith, h.low, d);
        high = omega (arith, d, bound, wide);
        quiet = ap (λ y. get y ch) a ∙ h.quiet;
      }

  pub caught_up :
      (rows : List Event) (c : Client) (r : Replay)
      → IsNumbered rows
      → is_empty (read rows r.channel (suc r.last) 512) ≡ true
      → Replaying ch base before rows c r
      → Live ch base before rows
          (record c { subscriptions = insert c.subscriptions r.channel r.last })
  caught_up rows c r n e h =
      let all = of_channel ch rows in
      let found =
        ap (λ k. read rows k (suc r.last) 512) h.channel ∙ read-numbered rows ch r.last 512 n in
      let past : length all ≤ r.last = at_end r.last 511 all (ap is_empty (sym found) ∙ e) in
      record {
        sent = h.sent ∙ ap (λ y. before ++ drop base y) (take-all r.last all past);
        last =
            get-insert c.subscriptions r.channel ch r.last
            ∙ (rw (h.channel, text_eq_refl ch)
                (ap some (reached r.last (length all) past h.low h.high)));
      }
