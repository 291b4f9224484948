-- ===== src/Agent/Replies.antt =====
-- What a response settles in the ledger of src/agent/state.rs.
use stavlos.Common.{
  Bool, true, false, not, ◌&&◌, ◌||◌, Option, none, some, List, [], ◌∷◌, Text, is_empty, text_eq,
  text_eq_iff, text_eq_refl, contains, arith, ◌≡◌, ◌∙◌, refl, Bool-cases, Option-cases, inl, inr,
}
use stavlos.Common.Map.{Map, get, remove, modify, map_option, get-remove, get-modify}
use stavlos.Common.Sets.{contains-set_remove}
use stavlos.Agent.Types.{Reply, ChannelState}
use stavlos.Agent.Requests.{without, settle, settle_by, is_from, settle_replies}

-- The responder neither owes nor holds the request.
abbrev pub free_of : Text → Option Reply → Bool
free_of responder none = true
free_of responder (some r) = not (contains r.open_ responder) && not (contains r.held responder)

without-free :
    (responder : Text) (r : Reply) → free_of responder (some (without responder r)) ≡ true
without-free responder r = ground (
  arith,
  text_eq_refl responder,
  contains-set_remove r.open_ responder responder,
  contains-set_remove r.held responder responder,
)

-- The two ways in which `settle` writes: an entry that is free stays free, and the entry of the id becomes free.
free-remove :
    (m : Map Reply) (responder id k : Text)
    → (text_eq id k || free_of responder (get m k)) ≡ true
    → free_of responder (get (remove m id) k) ≡ true
free-remove m responder id k h = rw (get-remove m id k) (ground (arith, h))

free-modify :
    (m : Map Reply) (responder id k : Text)
    → (text_eq id k || free_of responder (get m k)) ≡ true
    → free_of responder (get (modify m id (without responder)) k) ≡ true
unfolding map_option
free-modify m responder id k h =
    rw (get-modify m id k (without responder)) (elim (Option-cases (get m k)) [
      | inl e ↦ ground (arith, e)
      | inr (r, e) ↦ ground (arith, e, h, without-free responder r)
    ])

free-settle :
    (s : ChannelState) (responder id k : Text)
    → (text_eq id k || free_of responder (get s.requests k)) ≡ true
    → free_of responder (get (settle s id responder).requests k) ≡ true
unfolding settle
free-settle s responder id k h = elim (Option-cases (get s.requests id)) [
  | inl e ↦ rw (e, settle) (ground (arith, e, h, text_eq_iff id k))
  | inr (r, e) ↦
      rw (e, settle)
        (elim (Bool-cases (is_empty (without responder r).open_)) [
          | inl g ↦ rw g (free-remove s.requests responder id k h)
          | inr g ↦ rw g (free-modify s.requests responder id k h)
        ])
]

get-settle :
    (s : ChannelState) (responder id k : Text)
    → text_eq id k ≡ false
    → get (settle s id responder).requests k ≡ get s.requests k
unfolding settle
get-settle s responder id k h = elim (Option-cases (get s.requests id)) [
  | inl e ↦ rw (e, settle)
  | inr (r, e) ↦
      rw (e, settle)
        (elim (Bool-cases (is_empty (without responder r).open_)) [
          | inl g ↦ rw g (ground (arith, get-remove s.requests id k, h))
          | inr g ↦ rw g (ground (arith, get-modify s.requests id k (without responder), h))
        ])
]

free-settle_replies :
    (s : ChannelState) (responder recipient k : Text) (ids : List Text)
    → free_of responder (get s.requests k) ≡ true
    → free_of responder (get (settle_replies s responder recipient ids).requests k) ≡ true
unfolding settle_replies settle_by
free-settle_replies s responder recipient k [] h = h
free-settle_replies s responder recipient k (id ∷ ids) h =
    elim (Bool-cases (is_from recipient (get s.requests id))) [
      | inl e ↦
          rw (e, settle_replies)
            (free-settle_replies (settle_by s id responder) responder recipient k ids
              (free-settle s responder id k (ground (arith, h))))
      | inr e ↦ rw (e, settle_replies) (free-settle_replies s responder recipient k ids h)
    ]

-- A response that answers a request of its recipient settles it: the responder neither owes nor
-- holds that request any more, whatever else the response answers.
pub settles_replies :
    (s : ChannelState) (responder recipient k : Text) (ids : List Text)
    → contains ids k ≡ true
    → is_from recipient (get s.requests k) ≡ true
    → free_of responder (get (settle_replies s responder recipient ids).requests k) ≡ true
unfolding settle_replies settle_by
settles_replies s responder recipient k [] h f = cc
settles_replies s responder recipient k (id ∷ ids) h f = elim (Bool-cases (text_eq id k)) [
  | inl same ↦
      let here : is_from recipient (get s.requests id) ≡ true =
        ground (arith, f, text_eq_iff id k, same) in
      rw (here, settle_replies)
        (free-settle_replies (settle_by s id responder) responder recipient k ids
          (free-settle s responder id k (ground (arith, same))))
  | inr other ↦ elim (Bool-cases (is_from recipient (get s.requests id))) [
    | inl e ↦
        rw (e, settle_replies)
          (settles_replies (settle_by s id responder) responder recipient k ids
            (ground (arith, h, other)) (ground (arith, f, get-settle s responder id k other)))
    | inr e ↦
        rw (e, settle_replies)
          (settles_replies s responder recipient k ids (ground (arith, h, other)) f)
  ]
]

-- A response leaves every other request as it was: one that it does not answer, and one that its
-- recipient did not make.
pub get-settle_replies :
    (s : ChannelState) (responder recipient k : Text) (ids : List Text)
    → (contains ids k && is_from recipient (get s.requests k)) ≡ false
    → get (settle_replies s responder recipient ids).requests k ≡ get s.requests k
unfolding settle_replies settle_by
get-settle_replies s responder recipient k [] h = refl
get-settle_replies s responder recipient k (id ∷ ids) h =
    elim (Bool-cases (is_from recipient (get s.requests id))) [
      | inl e ↦
          let other : text_eq id k ≡ false = ground (arith, h, e, text_eq_iff id k) in
          rw (e, settle_replies)
            (get-settle_replies (settle_by s id responder) responder recipient k ids
                (ground (arith, h, other, get-settle s responder id k other))
              ∙ get-settle s responder id k other)
      | inr e ↦
          rw (e, settle_replies)
            (get-settle_replies s responder recipient k ids (ground (arith, h)))
    ]
