-- ===== src/Escalation/Closes.antt =====
-- Which operations of src/escalation.rs end a prompt that is waiting.
use stavlos.Common.{
  ℕ, ◌==◌, ◌≡◌, ◌∙◌, refl, ap, Bool, true, false, not, ◌&&◌, ◌||◌, Option, none, some, [], ◌∷◌,
  Text, text_eq, text_eq_iff, if◌then◌else◌, arith, Bool-cases, Option-cases, inl, inr,
}
use stavlos.Common.Map.{Map, get, modify, remove, get-remove, get-modify, map_option}
use stavlos.Escalation.Prompts.{Answer, PromptInfo, Pending, State, set_config}
use stavlos.Escalation.Manager.{
  claim_timed_out, finish, answer_timed_out, withdraw, release_where, release, release_client,
  expire_claims, claim, may_claim, numbered_question, single_of, accept, answer, keep_where,
  answer_where,
}
use stavlos.Escalation.Ledger.{Distinct}
use stavlos.Escalation.Once.{
  Op, configure, open_prompt, claim_timeout, answer_timeout, cancel, disconnect, tick, take,
  respond, respond_all, perform,
}
use stavlos.Escalation.Claims.{begin_keeps}

-- The generation of the prompt that waits under an id.
unfoldable pub generation_at : Map Pending → Text → Option ℕ
generation_at m id = map_option (λ p. p.generation) (get m id)

-- Whether an operation ends the prompt `p` that waits under `id`.
unfoldable pub closes : Op → Text → Pending → Bool
closes (answer_timeout j g value) id p = text_eq j id && (p.generation == g)
closes (cancel j g) id p = text_eq j id && (p.generation == g)
closes (respond j client a force) id p =
    text_eq j id
    && (force
        || (may_claim p client
            && not (numbered_question p.info && not (single_of a.answers a.value))))
closes (respond_all channel kind value client keep) id p =
    text_eq p.info.channel channel && (text_eq p.info.kind kind && keep p.info)
closes _ id p = false

generation_at-release_where :
    (test : Pending → Bool) (m : Map Pending) (id : Text)
    → generation_at (release_where test m) id ≡ generation_at m id
unfolding generation_at map_option release_where get
generation_at-release_where test [] id = refl
generation_at-release_where test ((j, q) ∷ m) id =
    ground (arith, generation_at-release_where test m id)

get-keep_where-none :
    (test : Pending → Bool) (m : Map Pending) (id : Text)
    → get m id ≡ none
    → get (keep_where test m) id ≡ none
unfolding keep_where get
get-keep_where-none test [] id h = refl
get-keep_where-none test ((j, q) ∷ m) id h = ground (arith, h, get-keep_where-none test m id)

get-keep_where :
    (test : Pending → Bool) (m : Map Pending) (id : Text) (p : Pending)
    → Distinct m
    → get m id ≡ some p
    → get (keep_where test m) id ≡ (if test p then some p else none)
unfolding keep_where get
get-keep_where test [] id p d h = cc
get-keep_where test ((j, q) ∷ m) id p d h =
    ground (
      arith,
      h,
      d.0,
      text_eq_iff j id,
      get-keep_where test m id p d.1,
      get-keep_where-none test m id,
    )

generation_at-remove :
    (m : Map Pending) (j id : Text)
    → generation_at (remove m j) id ≡ (if text_eq j id then none else generation_at m id)
unfolding generation_at map_option
generation_at-remove m j id = ground (arith, get-remove m j id)

generation_at-modify :
    (m : Map Pending) (j id : Text) (f : Pending → Pending)
    → ((q : Pending) → (f q).generation ≡ q.generation)
    → generation_at (modify m j f) id ≡ generation_at m id
unfolding generation_at map_option
generation_at-modify m j id f keep = elim (Option-cases (get m id)) [
  | inl e ↦ ground (arith, e, get-modify m j id f)
  | inr (q, e) ↦ ground (arith, e, get-modify m j id f, keep q)
]

module _ (s : State) (id : Text) (p : Pending) (found : get s.pending id ≡ some p) where
  stays : generation_at s.pending id ≡ some p.generation
  unfolding generation_at map_option
  stays = rw found refl

  same_prompt : (j : Text) (q : Pending) → get s.pending j ≡ some q → text_eq j id ≡ true → q ≡ p
  same_prompt j q e same = ground (arith, ap (get s.pending) ((text_eq_iff j id).0 same), e, found)

  other_prompt : (j : Text) → get s.pending j ≡ none → text_eq j id ≡ false
  other_prompt j e = ground (arith, text_eq_iff j id, e, found)

  finish-closes :
      (j : Text) (g : ℕ) (a : Answer) (action : Text)
      → generation_at (finish s j (some g) a action).0.pending id
        ≡ (if text_eq j id && (p.generation == g) then none else some p.generation)
  unfolding finish
  finish-closes j g a action = elim (Option-cases (get s.pending j)) [
    | inl e ↦ rw (e, finish) (ground (arith, other_prompt j e, stays))
    | inr (q, e) ↦ elim (Bool-cases (q.generation == g)) [
      | inl own ↦
          rw (e, finish, own)
            (ground (arith, generation_at-remove s.pending j id, stays, same_prompt j q e, own))
      | inr old ↦ rw (e, finish, old) (ground (arith, stays, same_prompt j q e, old))
    ]
  ]

  accept-closes :
      (j client : Text) (q : Pending) (a : Answer) (force : Bool)
      → generation_at (accept s j q client a force).0.pending id
        ≡ (if text_eq j id then none else some p.generation)
  unfolding accept
  accept-closes j client q a force = ground (arith, generation_at-remove s.pending j id, stays)

  answer-closes :
      (j client : Text) (a : Answer) (force : Bool)
      → generation_at (answer s j client a force).0.pending id
        ≡ (if closes (respond j client a force) id p then none else some p.generation)
  unfolding answer closes
  answer-closes j client a force = elim (Option-cases (get s.pending j)) [
    | inl e ↦ rw (e, answer) (ground (arith, other_prompt j e, stays))
    | inr (q, e) ↦
        rw (e, answer)
          (elim (Bool-cases (text_eq j id)) [
            | inl same ↦
                rw (same_prompt j q e same)
                  (ground (arith, same, stays, accept-closes j client p a force))
            | inr other ↦ ground (arith, other, stays, accept-closes j client q a force)
          ])
  ]

  claim_timed_out-closes :
      (j : Text) (g : ℕ) → generation_at (claim_timed_out s j g).0.pending id ≡ some p.generation
  unfolding claim_timed_out
  claim_timed_out-closes j g = elim (Option-cases (get s.pending j)) [
    | inl e ↦ rw (e, claim_timed_out) stays
    | inr (q, e) ↦
        rw (e, claim_timed_out)
          (ground (
            arith,
            stays,
            generation_at-modify s.pending j id
                (λ q. record q { info = record q.info { escalated = true } }) (λ q. refl),
          ))
  ]

  claim-closes :
      (j client : Text) (now : ℕ)
      → generation_at (claim s j client now).0.pending id ≡ some p.generation
  unfolding claim
  claim-closes j client now = elim (Option-cases (get s.pending j)) [
    | inl e ↦ rw (e, claim) stays
    | inr (q, e) ↦
        rw (e, claim)
          (ground (
            arith,
            stays,
            generation_at-modify s.pending j id
                (λ q. record q { info = record q.info { claimed_by = client }; claimed_at = now })
                (λ q. refl),
          ))
  ]

  answer_where-closes :
      (channel kind value client : Text) (keep : PromptInfo → Bool)
      → Distinct s.pending
      → generation_at (answer_where s channel kind value client keep).0.pending id ≡ (
          if closes (respond_all channel kind value client keep) id p
          then none
          else some p.generation)
  unfolding answer_where generation_at map_option closes
  answer_where-closes channel kind value client keep d = ground (
    arith,
    get-keep_where
        (λ q. not (text_eq q.info.channel channel && (text_eq q.info.kind kind && keep q.info)))
        s.pending id p d found,
  )

-- In a state where no id stands twice, after any one operation no prompt waits under the id of a waiting
-- prompt exactly if the operation is the answer timer or the guard of that prompt's own generation, an
-- answer to its id that is forced or comes from a client that may claim it (with one nonempty answer
-- where it is a numbered question), or an answer to all prompts of its channel and kind that pass the
-- filter, with this prompt among them. After every other operation a prompt of the same generation
-- waits under the id.
pub perform-closes :
    (s : State) (id : Text) (p : Pending) (op : Op)
    → Distinct s.pending
    → get s.pending id ≡ some p
    → generation_at (perform s op).0.pending id
      ≡ (if closes op id p then none else some p.generation)
unfolding perform closes
perform-closes s id p (configure c) d found = unfold set_config in stays s id p found
perform-closes s id p (open_prompt info created now) d found =
    unfold generation_at in unfold map_option in rw (begin_keeps s info created now id p found) refl
perform-closes s id p (claim_timeout j g) d found = claim_timed_out-closes s id p found j g
perform-closes s id p (answer_timeout j g value) d found =
    unfold answer_timed_out in finish-closes s id p found j g _ _
perform-closes s id p (cancel j g) d found = unfold withdraw in finish-closes s id p found j g _ _
perform-closes s id p (disconnect client) d found =
    unfold release_client in
    unfold release in generation_at-release_where _ s.pending id ∙ stays s id p found
perform-closes s id p (tick now expiry) d found =
    unfold expire_claims in
    unfold release in generation_at-release_where _ s.pending id ∙ stays s id p found
perform-closes s id p (take j client now) d found = claim-closes s id p found j client now
perform-closes s id p (respond j client a force) d found =
    unfold closes in answer-closes s id p found j client a force
perform-closes s id p (respond_all channel kind value client keep) d found =
    unfold closes in answer_where-closes s id p found channel kind value client keep d
