-- ===== src/EventLog/Numbers.antt =====
-- The numbers of the rows that src/eventlog.rs writes, and the batches that it hands on.
use mathlib.Core.Path.{subst}
use mathlib.Core.List.{append_assoc, append-nil}
use stavlos.Common.{
  ℕ, suc, ◌+◌, max, Text, text_eq, text_eq_iff, Bool, true, Option, none, some, List, [], ◌∷◌, ◌++◌,
  if◌then◌else◌, ◌≡◌, sym, ap, ◌∙◌, arith, inl, inr, ◌==◌, ◌&&◌, Bool-cases, Option-cases,
}
use stavlos.Common.Map.{Map, get, insert, get-insert}
use stavlos.EventLog.Store.{
  Event, max_seq, checked_next, last_number, write_events, write_requests, concat,
}

-- How many rows a channel has.
unfoldable pub count : List Event → Text → ℕ
count [] c = 0
count (e ∷ es) c = if text_eq e.channel c then suc (count es c) else count es c

-- The rows of a channel have the numbers `n + 1`, `n + 2` and so on, in this order.
unfoldable pub numbered_from : ℕ → List Event → Text → Bool
numbered_from n [] c = true
numbered_from n (e ∷ es) c =
    if text_eq e.channel c
    then (e.seq == suc n) && numbered_from (suc n) es c
    else numbered_from n es c

-- The rows of every channel are numbered from 1 without a gap.
abbrev pub IsNumbered : List Event → Type 0
IsNumbered rows = (c : Text) → numbered_from 0 rows c ≡ true

pub count-append : (xs ys : List Event) (c : Text) → count (xs ++ ys) c ≡ count xs c + count ys c
unfolding count
count-append [] ys c = omega arith
count-append (e ∷ xs) ys c = ground (arith, count-append xs ys c)

numbered_from-push :
    (n : ℕ) (es : List Event) (e : Event) (c : Text)
    → numbered_from n es c ≡ true
    → (text_eq e.channel c ≡ true → e.seq ≡ suc (n + count es c))
    → numbered_from n (es ++ (e ∷ [])) c ≡ true
unfolding numbered_from count
numbered_from-push n [] e c h k = ground (arith, k)
numbered_from-push n (x ∷ es) e c h k = elim (Bool-cases (text_eq x.channel c)) [
  | inl t ↦
      let rest =
        numbered_from-push (suc n) es e c (ground (arith, h, t)) (λ m. ground (arith, k m, t)) in
      ground (arith, h, t, rest)
  | inr t ↦
      let rest = numbered_from-push n es e c (ground (arith, h, t)) (λ m. ground (arith, k m, t)) in
      ground (arith, h, t, rest)
]

max_seq-count :
    (n : ℕ) (es : List Event) (c : Text)
    → numbered_from n es c ≡ true
    → max n (max_seq es c) ≡ n + count es c
unfolding numbered_from count max_seq
max_seq-count n [] c h = ground arith
max_seq-count n (e ∷ es) c h = elim (Bool-cases (text_eq e.channel c)) [
  | inl t ↦ ground (arith, h, t, max_seq-count (suc n) es c (ground (arith, h, t)))
  | inr t ↦ ground (arith, h, t, max_seq-count n es c (ground (arith, h, t)))
]

-- What `next` remembers of a channel is how many rows it has.
abbrev pub Remembers : List Event → Map ℕ → Type 0
Remembers rows next = (c : Text) (last : ℕ) → get next c ≡ some last → last ≡ count rows c

pub last_number-count :
    (rows : List Event) (next : Map ℕ) (c : Text)
    → IsNumbered rows
    → Remembers rows next
    → last_number rows next c ≡ count rows c
unfolding last_number
last_number-count rows next c h m = elim (Option-cases (get next c)) [
  | inl e ↦ ground (arith, e, max_seq-count 0 rows c (h c))
  | inr (last, e) ↦ ground (arith, e, m c last e)
]

pub push-IsNumbered :
    (rows : List Event) (e : Event)
    → IsNumbered rows
    → e.seq ≡ suc (count rows e.channel)
    → IsNumbered (rows ++ (e ∷ []))
push-IsNumbered rows e h k c =
    numbered_from-push 0 rows e c (h c)
      (λ m. ground (arith, k, ap (count rows) ((text_eq_iff e.channel c).0 m)))

pub push-Remembers :
    (rows : List Event) (next : Map ℕ) (e : Event)
    → Remembers rows next
    → e.seq ≡ suc (count rows e.channel)
    → Remembers (rows ++ (e ∷ [])) (insert next e.channel e.seq)
unfolding count
push-Remembers rows next e m k c last g = elim (Bool-cases (text_eq e.channel c)) [
  | inl t ↦ ground (
    arith,
    g,
    t,
    get-insert next e.channel c e.seq,
    count-append rows (e ∷ []) c,
    k,
    ap (count rows) ((text_eq_iff e.channel c).0 t),
  )
  | inr t ↦
      ground
        (arith, t, get-insert next e.channel c e.seq, g, count-append rows (e ∷ []) c, m c last)
]

pub checked_next-suc : (last seq : ℕ) → checked_next last ≡ some seq → seq ≡ suc last
unfolding checked_next
checked_next-suc last seq h = ground (arith, h)

-- A table that has grown by the events `out`, numbered.
abbrev pub Grown : List Event → List Event → List Event → Type 0
Grown rows t out = (t ≡ rows ++ out) × IsNumbered t

GrownEvents : List Event → Option (List Event × (Map ℕ × List Event)) → Type 0
GrownEvents rows none = Unit
GrownEvents rows (some (t, (n, out))) = Grown rows t out × Remembers t n

unfoldable pub GrownRequests : List Event → Option (List Event × List (List Event)) → Type 0
GrownRequests rows none = Unit
GrownRequests rows (some (t, outs)) = Grown rows t (concat outs)

module _ (accepts : List Event → Event → Bool) where
  write_events-Grown :
      (rows : List Event) (next : Map ℕ) (inputs : List Event)
      → IsNumbered rows
      → Remembers rows next
      → GrownEvents rows (write_events accepts rows next inputs)
  unfolding write_events GrownEvents
  write_events-Grown rows next [] h m = ((sym (append-nil rows), h), m)
  write_events-Grown rows next (input ∷ inputs) h m =
      elim (Option-cases (checked_next (last_number rows next input.channel))) [
        | inl k ↦ rw (k, GrownEvents) tt
        | inr (seq, k) ↦
            let event = record input { seq = seq } in
            elim (Bool-cases (accepts rows event)) [
              | inr a ↦ rw (k, a, GrownEvents) tt
              | inl a ↦
                  let number : seq ≡ suc (count rows input.channel) =
                    checked_next-suc (last_number rows next input.channel) seq k
                    ∙ ap suc (last_number-count rows next input.channel h m) in
                  let t = rows ++ (event ∷ []) in
                  let n = insert next input.channel seq in
                  let rest =
                    write_events-Grown t n inputs (push-IsNumbered rows event h number)
                      (push-Remembers rows next event m number) in
                  elim (Option-cases (write_events accepts t n inputs)) [
                    | inl w ↦ rw (k, a, w, GrownEvents) tt
                    | inr ((t2, (n2, out)), w) ↦
                        let grown : GrownEvents t (some (t2, (n2, out))) =
                          subst (GrownEvents t) w rest in
                        rw (k, a, w, GrownEvents)
                          ((grown.0.0 ∙ append_assoc rows (event ∷ []) out, grown.0.1), grown.1)
                  ]
            ]
      ]

  pub write_requests-Grown :
      (rows : List Event) (next : Map ℕ) (requests : List (List Event))
      → IsNumbered rows
      → Remembers rows next
      → GrownRequests rows (write_requests accepts rows next requests)
  unfolding write_requests GrownRequests GrownEvents concat
  write_requests-Grown rows next [] h m = (sym (append-nil rows), h)
  write_requests-Grown rows next (events ∷ requests) h m =
      let first = write_events-Grown rows next events h m in
      elim (Option-cases (write_events accepts rows next events)) [
        | inl w ↦ rw (w, GrownRequests) tt
        | inr ((t, (n, out)), w) ↦
            let grown : GrownEvents rows (some (t, (n, out))) = subst (GrownEvents rows) w first in
            let rest = write_requests-Grown t n requests grown.0.1 grown.1 in
            elim (Option-cases (write_requests accepts t n requests)) [
              | inl v ↦ rw (w, v, GrownRequests) tt
              | inr ((u, outs), v) ↦
                  let more : GrownRequests t (some (u, outs)) = subst (GrownRequests t) v rest in
                  rw (w, v, GrownRequests)
                    (
                      more.0
                          ∙ (ap (λ r. r ++ concat outs) grown.0.0
                              ∙ append_assoc rows out (concat outs)),
                      more.1,
                    )
            ]
      ]
