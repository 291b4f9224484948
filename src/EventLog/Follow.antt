-- ===== src/EventLog/Follow.antt =====
-- A client that follows a channel (src/daemon/hub.rs): the history that it replays and the events
-- that it is sent live join without a gap.
use mathlib.Core.List.{append_assoc, append-nil}
use stavlos.Common.{
  ℕ, zero, suc, ◌+◌, ◌-◌, Text, text_eq, Bool, true, ◌&&◌, List, [], ◌∷◌, ◌++◌, length, take, drop,
  filter, leb, ◌==◌, ◌≡◌, refl, sym, ap, ◌∙◌, arith, inl, inr, Bool-cases,
}
use stavlos.Common.Slices.{drop-all, drop-eq}
use stavlos.EventLog.Store.{Event, read}
use stavlos.EventLog.Numbers.{count, numbered_from, IsNumbered}
use stavlos.EventLog.Clients.{Client, Replay, replay_events}

-- The events of one channel, in the order of a list.
abbrev pub of_channel : Text → List Event → List Event
of_channel ch es = filter (λ e. text_eq e.channel ch) es

pub of_channel-append :
    (ch : Text) (xs ys : List Event)
    → of_channel ch (xs ++ ys) ≡ of_channel ch xs ++ of_channel ch ys
of_channel-append ch [] ys = refl
of_channel-append ch (e ∷ xs) ys = ground (arith, of_channel-append ch xs ys)

pub length-of_channel : (ch : Text) (es : List Event) → length (of_channel ch es) ≡ count es ch
unfolding count
length-of_channel ch [] = refl
length-of_channel ch (e ∷ es) = ground (arith, length-of_channel ch es)

-- What a query from a number on finds in rows that are numbered from `n + 1`.
from-drop :
    (ch : Text) (from n : ℕ) (es : List Event)
    → numbered_from n es ch ≡ true
    → filter (λ e. text_eq e.channel ch && leb from e.seq) es
      ≡ drop (from - suc n) (of_channel ch es)
unfolding numbered_from
from-drop ch from n [] h = sym (drop-all (from - suc n) [] (omega arith))
from-drop ch from n (e ∷ es) h = elim (Bool-cases (text_eq e.channel ch)) [
  | inr t ↦ ground (arith, t, h, from-drop ch from n es (ground (arith, h, t)))
  | inl t ↦
      let rest = from-drop ch from (suc n) es (ground (arith, h, t)) in
      let others = of_channel ch es in
      elim (Bool-cases (leb from e.seq)) [
        | inl l ↦
            rw (t, l)
              (ap (λ r. e ∷ r)
                  (rest ∙ drop-eq (from - suc (suc n)) 0 others (ground (arith, h, t, l)))
                ∙ sym (drop-eq (from - suc n) 0 (e ∷ others) (ground (arith, h, t, l))))
        | inr l ↦
            rw (t, l)
              (rest
                ∙ sym (
                    drop-eq (from - suc n) (suc (from - suc (suc n))) (e ∷ others)
                      (ground (arith, h, t, l))))
      ]
]

-- `Log::read` on numbered rows: the events of the channel after the first `last` of them.
pub read-numbered :
    (rows : List Event) (ch : Text) (last limit : ℕ)
    → IsNumbered rows
    → read rows ch (suc last) limit ≡ take limit (drop last (of_channel ch rows))
unfolding read
read-numbered rows ch last limit h = ap (take limit) (
    from-drop ch (suc last) 0 rows (h ch)
    ∙ drop-eq (suc last - 1) last (of_channel ch rows) (omega arith))

plus_zero : (n : ℕ) → n + 0 ≡ n
plus_zero n = omega arith

plus_suc : (n k : ℕ) → n + suc k ≡ suc n + k
plus_suc n k = omega arith

pub numbered_from-split :
    (n : ℕ) (xs ys : List Event) (c : Text)
    → numbered_from n (xs ++ ys) c ≡ true
    → (numbered_from n xs c ≡ true) × (numbered_from (n + count xs c) ys c ≡ true)
unfolding numbered_from count
numbered_from-split n [] ys c h = (refl, (ap (λ k. numbered_from k ys c) (plus_zero n)) ∙ h)
numbered_from-split n (x ∷ xs) ys c h = elim (Bool-cases (text_eq x.channel c)) [
  | inl t ↦
      let (a, b) = numbered_from-split (suc n) xs ys c (ground (arith, h, t)) in
      let at = ap (λ k. numbered_from k ys c) (plus_suc n (count xs c)) in
      (ground (arith, h, t, a), ground (arith, t, b, at))
  | inr t ↦
      let (a, b) = numbered_from-split n xs ys c (ground (arith, h, t)) in
      (ground (arith, h, t, a), ground (arith, t, b))
]

-- Events of one channel with the numbers `n + 1`, `n + 2` and so on.
unfoldable pub runs : Text → ℕ → List Event → Bool
runs ch n [] = true
runs ch n (e ∷ es) = (text_eq e.channel ch && e.seq == suc n) && runs ch (suc n) es

pub runs-of_channel :
    (ch : Text) (n : ℕ) (es : List Event)
    → numbered_from n es ch ≡ true
    → runs ch n (of_channel ch es) ≡ true
unfolding runs numbered_from
runs-of_channel ch n [] h = refl
runs-of_channel ch n (e ∷ es) h = elim (Bool-cases (text_eq e.channel ch)) [
  | inl t ↦ ground (arith, h, t, runs-of_channel ch (suc n) es (ground (arith, h, t)))
  | inr t ↦ rw t (runs-of_channel ch n es (ground (arith, h, t)))
]

pub runs-drop :
    (ch : Text) (n k : ℕ) (es : List Event)
    → runs ch n es ≡ true
    → runs ch (n + k) (drop k es) ≡ true
unfolding runs
runs-drop ch n zero es h = ap (λ m. runs ch m es) (plus_zero n) ∙ h
runs-drop ch n (suc k) [] h = refl
runs-drop ch n (suc k) (e ∷ es) h =
    ap (λ m. runs ch m (drop k es)) (plus_suc n k) ∙ runs-drop ch (suc n) k es (ground (arith, h))

pub runs-take :
    (ch : Text) (n k : ℕ) (es : List Event) → runs ch n es ≡ true → runs ch n (take k es) ≡ true
unfolding runs
runs-take ch n zero es h = refl
runs-take ch n (suc k) [] h = refl
runs-take ch n (suc k) (e ∷ es) h = ground (arith, h, runs-take ch (suc n) k es (ground (arith, h)))

pub of_channel-runs :
    (ch : Text) (n : ℕ) (es : List Event) → runs ch n es ≡ true → of_channel ch es ≡ es
unfolding runs
of_channel-runs ch n [] h = refl
of_channel-runs ch n (e ∷ es) h =
    ground (arith, h, of_channel-runs ch (suc n) es (ground (arith, h)))

-- A replayed run of events moves `last` to its end, and touches no subscription.
pub replay_events-runs :
    (c : Client) (r : Replay) (es : List Event)
    → runs r.channel r.last es ≡ true
    → ((replay_events c r es).0.sent ≡ c.sent ++ es)
      × ((replay_events c r es).0.subscriptions ≡ c.subscriptions)
      × ((replay_events c r es).1.channel ≡ r.channel)
      × ((replay_events c r es).1.last ≡ r.last + length es)
unfolding replay_events runs
replay_events-runs c r [] h = (sym (append-nil c.sent), refl, refl, omega arith)
replay_events-runs c r (e ∷ es) h =
    let c2 : Client = record c { sent = c.sent ++ (e ∷ []) } in
    let r2 : Replay = record r { last = e.seq } in
    let (w, x, y, z) = replay_events-runs c2 r2 es (ground (arith, h)) in
    (w ∙ append_assoc c.sent (e ∷ []) es, x, y, ground (arith, z, h))
