-- ===== src/Agent/Ledger.antt =====
-- The ledger of requests: an entry stands under its own id, somebody owes it, whoever holds it
-- owes it, and its number is one that was given.
use stavlos.Common.{
  ℕ, ◌+◌, leb, if◌then◌else◌, Bool, true, false, not, ◌&&◌, Option, none, some, List, [], ◌∷◌, Text,
  is_empty, text_eq, text_eq_iff, text_eq_refl, contains, all, arith, ◌≡◌, refl, Bool-cases,
  Option-cases, inl, inr,
}
use stavlos.Common.Map.{
  Map, get, insert, remove, modify, has, map_option, get-insert, get-remove, get-modify,
}
use stavlos.Common.Sets.{set_insert, set_remove, contains-set_insert, contains-set_remove}
use stavlos.Agent.Types.{Reply, Input, ChannelState}
use stavlos.Agent.Requests.{
  owed_by, request_id, reply_request, fresh_reply, open_for, ask_for, asked, without, settle,
  settle_by, is_from, settle_replies, settle_each, forget_each, hold_for, hold,
}

abbrev pub reply_ok : ℕ → Text → Reply → Bool
reply_ok bound k r =
    text_eq r.request.id k
    && (not (is_empty r.open_) && (all (contains r.open_) r.held && leb r.seq bound))

abbrev pub entry_ok : ℕ → Text → Option Reply → Bool
entry_ok bound k none = true
entry_ok bound k (some r) = reply_ok bound k r

abbrev pub IsLedger : ChannelState → Type 0
IsLedger s = (k : Text) → entry_ok s.request_seq k (get s.requests k) ≡ true

is_empty-set_insert : (xs : List Text) (k : Text) → is_empty (set_insert xs k) ≡ false
unfolding set_insert
is_empty-set_insert [] k = refl
is_empty-set_insert (x ∷ xs) k = ground arith

all-set_insert :
    (p : Text → Bool) (xs : List Text) (k : Text)
    → p k ≡ true
    → all p xs ≡ true
    → all p (set_insert xs k) ≡ true
unfolding set_insert
all-set_insert p [] k h g = ground arith
all-set_insert p (x ∷ xs) k h g = ground (arith, all-set_insert p xs k)

all-contains-set_insert :
    (hs xs : List Text) (k : Text)
    → all (contains xs) hs ≡ true
    → all (contains (set_insert xs k)) hs ≡ true
all-contains-set_insert [] xs k h = refl
all-contains-set_insert (x ∷ hs) xs k h =
    ground (arith, all-contains-set_insert hs xs k, contains-set_insert xs k x)

all-contains-set_remove :
    (hs xs : List Text) (k : Text)
    → all (contains xs) hs ≡ true
    → all (contains (set_remove xs k)) (set_remove hs k) ≡ true
unfolding set_remove
all-contains-set_remove [] xs k h = refl
all-contains-set_remove (x ∷ hs) xs k h = ground (
  arith,
  all-contains-set_remove hs xs k,
  contains-set_remove xs k x,
  text_eq_iff k x,
  text_eq_iff x k,
)

open_for-ok :
    (n : ℕ) (k target : Text) (r : Reply)
    → reply_ok n k r ≡ true
    → reply_ok n k (open_for target r) ≡ true
open_for-ok n k target r h =
    ground
      (arith, is_empty-set_insert r.open_ target, all-contains-set_insert r.held r.open_ target)

hold_for-ok :
    (n : ℕ) (k target : Text) (r : Reply)
    → contains r.open_ target ≡ true
    → reply_ok n k r ≡ true
    → reply_ok n k (hold_for target r) ≡ true
hold_for-ok n k target r g h = ground (arith, all-set_insert (contains r.open_) r.held target)

without-ok :
    (n : ℕ) (k target : Text) (r : Reply)
    → is_empty (without target r).open_ ≡ false
    → reply_ok n k r ≡ true
    → reply_ok n k (without target r) ≡ true
without-ok n k target r g h = ground (arith, all-contains-set_remove r.held r.open_ target)

entry-insert :
    (n : ℕ) (m : Map Reply) (id : Text) (r : Reply) (k : Text)
    → reply_ok n id r ≡ true
    → entry_ok n k (get m k) ≡ true
    → entry_ok n k (get (insert m id r) k) ≡ true
entry-insert n m id r k h g = rw (get-insert m id k r) elim (Bool-cases (text_eq id k)) [
  | inl e ↦ ground (arith, text_eq_iff id k, h)
  | inr e ↦ ground (arith, g)
]

entry-remove :
    (n : ℕ) (m : Map Reply) (id k : Text)
    → entry_ok n k (get m k) ≡ true
    → entry_ok n k (get (remove m id) k) ≡ true
entry-remove n m id k g = rw (get-remove m id k) ground (arith, g)

entry-modify :
    (n : ℕ) (m : Map Reply) (id k : Text) (f : Reply → Reply)
    → ((r : Reply) → get m k ≡ some r → id ≡ k → reply_ok n k r ≡ true → reply_ok n k (f r) ≡ true)
    → entry_ok n k (get m k) ≡ true
    → entry_ok n k (get (modify m id f) k) ≡ true
unfolding map_option
entry-modify n m id k f h g = rw (get-modify m id k f) elim (Option-cases (get m k)) [
  | inl e ↦ ground (arith, e)
  | inr (r, e) ↦ ground (arith, text_eq_iff id k, h r e, g)
]

entry-later :
    (n : ℕ) (k : Text) (o : Option Reply) → entry_ok n k o ≡ true → entry_ok (n + 1) k o ≡ true
entry-later n k none h = refl
entry-later n k (some r) h = ground arith

fresh-ok :
    (i : Input) (party target : Text) (n : ℕ)
    → reply_ok n (request_id i) (open_for target (fresh_reply i party n)) ≡ true
unfolding fresh_reply reply_request
fresh-ok i party target n =
    ground (arith, text_eq_refl (request_id i), is_empty-set_insert [] target)

pub if-IsLedger :
    (b : Bool) (t s : ChannelState) → IsLedger t → IsLedger s → IsLedger (if b then t else s)
if-IsLedger true t s h g = h
if-IsLedger false t s h g = g

ask_for-IsLedger :
    (s : ChannelState) (i : Input) (party target : Text)
    → IsLedger s
    → IsLedger (ask_for s i party target)
unfolding ask_for
ask_for-IsLedger s i party target h =
    if-IsLedger (has s.requests (request_id i)) _ _
      (λ k.
        entry-modify s.request_seq s.requests (request_id i) k (open_for target)
          (λ r o c. open_for-ok s.request_seq k target r) (h k))
      (λ k.
        entry-insert (s.request_seq + 1) s.requests (request_id i)
          (open_for target (fresh_reply i party (s.request_seq + 1))) k
          (fresh-ok i party target (s.request_seq + 1))
          (entry-later s.request_seq k (get s.requests k) (h k)))

pub asked-IsLedger :
    (s : ChannelState) (i : Input) (target : Text) → IsLedger s → IsLedger (asked s i target).0
unfolding asked
asked-IsLedger s i target h k = ground (arith, h k, ask_for-IsLedger s i (owed_by i) target h k)

pub settle-IsLedger :
    (s : ChannelState) (id responder : Text) → IsLedger s → IsLedger (settle s id responder)
unfolding settle
settle-IsLedger s id responder h k = elim (Option-cases (get s.requests id)) [
  | inl e ↦ rw (e, settle) (h k)
  | inr (r, e) ↦
      rw (e, settle)
        (elim (Bool-cases (is_empty (without responder r).open_)) [
          | inl g ↦ rw g (entry-remove s.request_seq s.requests id k (h k))
          | inr g ↦ rw g (
              entry-modify s.request_seq s.requests id k (without responder)
                (λ q o c. without-ok s.request_seq k responder q (ground (arith, g, e, o, c)))
                (h k))
        ])
]

pub settle_replies-IsLedger :
    (s : ChannelState) (responder recipient : Text) (ids : List Text)
    → IsLedger s
    → IsLedger (settle_replies s responder recipient ids)
unfolding settle_replies settle_by
settle_replies-IsLedger s responder recipient [] h = h
settle_replies-IsLedger s responder recipient (id ∷ ids) h =
    settle_replies-IsLedger
      (if is_from recipient (get s.requests id) then settle_by s id responder else s) responder
      recipient ids
      (if-IsLedger (is_from recipient (get s.requests id)) (settle_by s id responder) s
        (settle-IsLedger s id responder h) h)

pub settle_each-IsLedger :
    (s : ChannelState) (responder : Text) (ids : List Text)
    → IsLedger s
    → IsLedger (settle_each s responder ids)
unfolding settle_each settle_by
settle_each-IsLedger s responder [] h = h
settle_each-IsLedger s responder (id ∷ ids) h =
    settle_each-IsLedger (settle_by s id responder) responder ids (settle-IsLedger s id responder h)

pub forget_each-IsLedger :
    (s : ChannelState) (party : Text) (ids : List Text)
    → IsLedger s
    → IsLedger (forget_each s party ids)
unfolding forget_each
forget_each-IsLedger s party [] h = h
forget_each-IsLedger s party (id ∷ ids) h =
    forget_each-IsLedger
      (if is_from party (get s.requests id)
        then record s { requests = remove s.requests id }
        else settle s id party)
      party ids
      (if-IsLedger (is_from party (get s.requests id))
        (record s { requests = remove s.requests id }) (settle s id party)
        (λ k. entry-remove s.request_seq s.requests id k (h k)) (settle-IsLedger s id party h))

-- Whoever is asked owes the answer.
contains-ask_for :
    (s : ChannelState) (i : Input) (party target : Text) (r : Reply)
    → get (ask_for s i party target).requests (request_id i) ≡ some r
    → contains r.open_ target ≡ true
unfolding ask_for map_option
contains-ask_for s i party target r g = elim (Option-cases (get s.requests (request_id i))) [
  | inl e ↦ ground (
    arith,
    e,
    g,
    get-insert s.requests (request_id i) (request_id i)
        (open_for target (fresh_reply i party (s.request_seq + 1))),
    text_eq_refl (request_id i),
    text_eq_refl target,
    contains-set_insert (fresh_reply i party (s.request_seq + 1)).open_ target target,
  )
  | inr (q, e) ↦ ground (
    arith,
    e,
    g,
    get-modify s.requests (request_id i) (request_id i) (open_for target),
    text_eq_refl (request_id i),
    text_eq_refl target,
    contains-set_insert q.open_ target target,
  )
]

contains-asked :
    (s : ChannelState) (i : Input) (target id : Text) (r : Reply)
    → (asked s i target).1 ≡ some id
    → get (asked s i target).0.requests id ≡ some r
    → contains r.open_ target ≡ true
unfolding asked
contains-asked s i target id r e g = ground (arith, contains-ask_for s i (owed_by i) target r)

pub hold-IsLedger :
    (s : ChannelState) (i : Input) (target : Text)
    → IsLedger s
    → IsLedger (hold (asked s i target) target)
unfolding hold
hold-IsLedger s i target h = elim (Option-cases (asked s i target).1) [
  | inl e ↦ λ k. rw (e, hold) (asked-IsLedger s i target h k)
  | inr (id, e) ↦ λ k.
      rw (e, hold)
        (entry-modify (asked s i target).0.request_seq (asked s i target).0.requests id k
          (hold_for target)
          (λ r o c.
            hold_for-ok (asked s i target).0.request_seq k target r
              (contains-asked s i target id r e (ground (arith, o, c))))
          (asked-IsLedger s i target h k))
]
