-- ===== src/Agent/Forget.antt =====
-- An agent that is killed or cancelled neither waits for an answer any more nor owes one.
use stavlos.Common.{
  ℕ, ltb, if◌then◌else◌, Bool, true, false, not, ◌&&◌, ◌||◌, Option, none, some, List, [], ◌∷◌,
  Text, map, is_empty, text_eq, text_eq_iff, text_eq_refl, contains, arith, ◌≡◌, refl, Bool-cases,
  Option-cases, inl, inr,
}
use stavlos.Common.Map.{Map, get, remove, modify, has, values, map_option, get-remove, get-modify}
use stavlos.Common.Sets.{contains-set_remove}
use stavlos.Agent.Types.{Reply, ChannelState}
use stavlos.Agent.Payloads.{agent_killed, agent_cancelled}
use stavlos.Agent.Requests.{
  without, settle, is_from, place, sort_by_seq, open_requests, forget_each, forget_party,
}
use stavlos.Agent.Fold.{kill, killed_agent, cancel, apply_body, apply}
use stavlos.Agent.Ledger.{IsLedger}

-- Nothing of the request concerns the party.
abbrev pub clear_of : Text → Option Reply → Bool
clear_of party none = true
clear_of party (some r) =
    not (text_eq r.request.from party)
    && (not (contains r.open_ party) && not (contains r.held party))

-- It does not, or its id is among those still to be visited.
abbrev due : Text → List Text → Text → Option Reply → Bool
due party ids k o = clear_of party o || contains ids k

without-clear :
    (party : Text) (r : Reply)
    → text_eq r.request.from party ≡ false
    → clear_of party (some (without party r)) ≡ true
without-clear party r h = ground (
  arith,
  h,
  text_eq_refl party,
  contains-set_remove r.open_ party party,
  contains-set_remove r.held party party,
)

due-remove :
    (m : Map Reply) (party id : Text) (ids : List Text) (k : Text)
    → due party (id ∷ ids) k (get m k) ≡ true
    → due party ids k (get (remove m id) k) ≡ true
due-remove m party id ids k h = rw (get-remove m id k) (ground (arith, h))

due-modify :
    (m : Map Reply) (party id : Text) (ids : List Text) (k : Text)
    → is_from party (get m id) ≡ false
    → due party (id ∷ ids) k (get m k) ≡ true
    → due party ids k (get (modify m id (without party)) k) ≡ true
unfolding map_option
due-modify m party id ids k f h =
    rw (get-modify m id k (without party)) (elim (Option-cases (get m k)) [
      | inl e ↦ ground (arith, e)
      | inr (r, e) ↦ ground (arith, e, f, h, text_eq_iff id k, without-clear party r)
    ])

due-settle :
    (s : ChannelState) (party id : Text) (ids : List Text) (k : Text)
    → is_from party (get s.requests id) ≡ false
    → due party (id ∷ ids) k (get s.requests k) ≡ true
    → due party ids k (get (settle s id party).requests k) ≡ true
unfolding settle
due-settle s party id ids k f h = elim (Option-cases (get s.requests id)) [
  | inl e ↦ rw (e, settle) (ground (arith, e, h, text_eq_iff id k))
  | inr (r, e) ↦
      rw (e, settle)
        (elim (Bool-cases (is_empty (without party r).open_)) [
          | inl g ↦ rw g (due-remove s.requests party id ids k h)
          | inr g ↦ rw g (due-modify s.requests party id ids k f h)
        ])
]

forget_each-clear :
    (s : ChannelState) (party : Text) (ids : List Text)
    → ((k : Text) → due party ids k (get s.requests k) ≡ true)
    → (k : Text) → clear_of party (get (forget_each s party ids).requests k) ≡ true
unfolding forget_each
forget_each-clear s party [] h = λ k. ground (arith, h k)
forget_each-clear s party (id ∷ ids) h =
    forget_each-clear
      (if is_from party (get s.requests id)
        then record s { requests = remove s.requests id }
        else settle s id party)
      party ids
      (λ k. elim (Bool-cases (is_from party (get s.requests id))) [
        | inl e ↦ rw e (due-remove s.requests party id ids k (h k))
        | inr e ↦ rw e (due-settle s party id ids k e (h k))
      ])

abbrev ids_of : List Reply → List Text
ids_of rs = map (λ r. r.request.id) rs

contains-place :
    (a : Reply) (bs : List Reply) (k : Text)
    → contains (ids_of (place a bs)) k ≡ contains (ids_of (a ∷ bs)) k
unfolding place
contains-place a [] k = refl
contains-place a (b ∷ bs) k = elim (Bool-cases (ltb b.seq a.seq)) [
  | inl e ↦ rw (e, place) (ground (arith, contains-place a bs k))
  | inr e ↦ rw (e, place) refl
]

contains-sort_by_seq :
    (rs : List Reply) (k : Text) → contains (ids_of (sort_by_seq rs)) k ≡ contains (ids_of rs) k
unfolding sort_by_seq
contains-sort_by_seq [] k = refl
contains-sort_by_seq (a ∷ rs) k =
    ground (arith, contains-place a (sort_by_seq rs) k, contains-sort_by_seq rs k)

contains-values :
    (m : Map Reply) (k : Text) (r : Reply)
    → get m k ≡ some r
    → text_eq r.request.id k ≡ true
    → contains (ids_of (values m)) k ≡ true
unfolding get values
contains-values [] k r h g = ground arith
contains-values ((j, q) ∷ m) k r h g = elim (Bool-cases (text_eq j k)) [
  | inl e ↦ ground (arith, e, h, g)
  | inr e ↦ ground (arith, contains-values m k r (ground (arith, e, h)) g)
]

forget_party-clear :
    (s : ChannelState) (party : Text)
    → IsLedger s
    → (k : Text) → clear_of party (get (forget_party s party).requests k) ≡ true
unfolding forget_party open_requests
forget_party-clear s party h =
    forget_each-clear s party (ids_of (sort_by_seq (values s.requests))) (λ k.
      elim (Option-cases (get s.requests k)) [
        | inl e ↦ ground (arith, e)
        | inr (r, e) ↦ ground (
          arith,
          e,
          h k,
          contains-sort_by_seq (values s.requests) k,
          contains-values s.requests k r,
        )
      ])

-- In a state with the ledger's invariant, killing or cancelling an agent that exists leaves no
-- request that it made, that it owes or that it holds.
pub forgets :
    (s : ChannelState) (agent : Text) (time : ℕ) (id : Text)
    → IsLedger s
    → has s.agents agent ≡ true
    → (clear_of agent
          (get (apply s (record { agent = agent; time = time; body = agent_killed })).0.requests id)
        ≡ true)
      × (clear_of agent (
            get
              (apply s (record { agent = agent; time = time; body = agent_cancelled })).0.requests
              id)
          ≡ true)
unfolding apply apply_body cancel kill get
forgets s agent time id h known = (
  rw (known, kill)
      (forget_party-clear (record s { agents = modify s.agents agent killed_agent }) agent h id),
  forget_party-clear s agent h id,
)
