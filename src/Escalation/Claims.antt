-- ===== src/Escalation/Claims.antt =====
-- Claims and who hears of a prompt, in src/escalation.rs.
use stavlos.Common.{
  ℕ, ◌≡◌, ◌⊎◌, refl, true, false, none, some, [], ◌∷◌, Text, is_empty, text_eq_refl, text_eq_iff,
  contains, codes, arith, Option-cases, inl, inr,
}
use stavlos.Common.Map.{Map, get, insert, modify, get-insert, get-remove, get-modify, map_option}
use stavlos.Escalation.Prompts.{
  Answer, PromptInfo, Pending, State, Notice, notice, fallback, question, permission, trust,
  always_escalated, stamped,
}
use stavlos.Escalation.Manager.{
  begin, claim, answer, accept, reply, already_resolved, may_claim, numbered_question,
}

abbrev claimed : Pending → Text → ℕ → Pending
claimed p client now = record p { info = record p.info { claimed_by = client }; claimed_at = now }

claim_state :
    (s : State) (id client : Text) (p : Pending) (now : ℕ)
    → get s.pending id ≡ some p
    → may_claim p client ≡ true
    → (claim s id client now).0
      ≡ record s { pending = modify s.pending id (λ q. claimed q client now) }
unfolding claim
claim_state s id client p now found free = ground arith

get-claim :
    (s : State) (id client : Text) (p : Pending) (now : ℕ)
    → get s.pending id ≡ some p
    → may_claim p client ≡ true
    → get (claim s id client now).0.pending id ≡ some (claimed p client now)
unfolding map_option
get-claim s id client p now found free =
    rw (claim_state s id client p now found free)
      (ground (arith, get-modify s.pending id id (λ q. claimed q client now), text_eq_refl id))

reply_accepts :
    (s : State) (id client : Text) (p : Pending) (a : Answer)
    → get s.pending id ≡ some p
    → may_claim p client ≡ true
    → numbered_question p.info ≡ false
    → reply s id client a ≡ accept s id p client a false
unfolding reply answer
reply_accepts s id client p a found free plain = rw (found, answer) (ground arith)

reply_late :
    (s : State) (id client : Text) (a : Answer)
    → get s.pending id ≡ none
    → (reply s id client a).2 ≡ some already_resolved
unfolding reply answer
reply_late s id client a gone = rw (gone, answer)

accept_gone :
    (s : State) (id client : Text) (p : Pending) (a : Answer)
    → get (accept s id p client a false).0.pending id ≡ none
unfolding accept
accept_gone s id client p a = ground (arith, get-remove s.pending id id, text_eq_refl id)

-- After a claim of a prompt that nobody has claimed, and that is no numbered question, the same
-- client can answer: its answer goes to the prompt's waiter, and every later answer is too late.
pub reply-claim :
    (s : State) (id client other : Text) (p : Pending) (a b : Answer) (now : ℕ)
    → get s.pending id ≡ some p
    → is_empty p.info.claimed_by ≡ true
    → numbered_question p.info ≡ false
    → let claimed = (claim s id client now).0 in
      ((reply claimed id client a).2 ≡ none)
      × ((reply claimed id client a).1.sent ≡ (p.generation, record a { client = client }) ∷ [])
      × ((reply (reply claimed id client a).0 id other b).2 ≡ some already_resolved)
reply-claim s id client other p a b now found free plain =
    let t = (claim s id client now).0 in
    let q = claimed p client now in
    let held : get t.pending id ≡ some q = get-claim s id client p now found (ground arith) in
    let taken : reply t id client a ≡ accept t id q client a false =
      reply_accepts t id client q a held (ground (arith, text_eq_refl client)) plain in
    (
      rw taken (unfold accept in refl),
      rw taken (unfold accept in refl),
      reply_late (reply t id client a).0 id other b (rw taken (accept_gone t id client q a)),
    )

insert_keeps :
    (m : Map Pending) (k id : Text) (q p : Pending)
    → get m k ≡ none
    → get m id ≡ some p
    → get (insert m k q) id ≡ some p
insert_keeps m k id q p fresh found = ground (arith, get-insert m k id q, text_eq_iff k id)

-- Publishing a prompt, under any id, leaves every live prompt as it was.
pub begin_keeps :
    (s : State) (info : PromptInfo) (created : Text) (now : ℕ) (id : Text) (p : Pending)
    → get s.pending id ≡ some p
    → get (begin s info created now).0.pending id ≡ some p
unfolding begin
begin_keeps s info created now id p found = elim (Option-cases (get s.pending info.id)) [
  | inr (q, taken) ↦ rw (taken, begin) found
  | inl fresh ↦ rw (fresh, begin) (insert_keeps s.pending info.id id _ p fresh found)
]

-- Publishing a question, a permission or a trust prompt under an id that is not in use sends one
-- notice, and the fallback tier is among those that get it.
pub begin_escalated :
    (s : State) (info : PromptInfo) (created : Text) (now : ℕ)
    → get s.pending info.id ≡ none
    → (info.kind ≡ question) ⊎ (info.kind ≡ permission) ⊎ (info.kind ≡ trust)
    → (n : Notice) × ((begin s info created now).1.notices ≡ n ∷ [])
      × (contains n.tiers fallback ≡ true)
unfolding begin stamped
begin_escalated s info created now fresh kind = (
  notice (codes "requested") (stamped info created),
  rw (fresh, begin),
  unfold notice always_escalated in
      ground (
        arith,
        text_eq_refl fallback,
        text_eq_refl question,
        text_eq_refl permission,
        text_eq_refl trust,
      ),
)
