-- ===== src/Escalation/Manager.antt =====
-- The operations of the manager of src/escalation.rs. Each runs under the manager's mutex, so it is
-- a function on the state; what it sends through the sink and through the prompts' channels is
-- returned beside the new state.
use stavlos.Common.{
  ℕ, ◌+◌, ◌-◌, ◌%◌, ◌^◌, ◌==◌, ltb, if◌then◌else◌, Bool, true, false, not, ◌&&◌, ◌||◌, Option, none,
  some, List, [], ◌∷◌, map, Text, codes, is_empty, text_eq, text_lt, filter,
}
use stavlos.Common.Map.{Map, get, insert, remove, modify, values}
use stavlos.Common.Str.{trim}
use stavlos.Escalation.Prompts.{
  Answer, no_answer, PromptInfo, Pending, State, Effects, silent, notice, notices_of, question,
  stamped,
}

-- `begin`: none if a prompt with the same id is live (its caller is told `withdrawn`), or the
-- generation that the new waiter holds.
unfoldable pub begin : State → PromptInfo → Text → ℕ → State × Effects × Option ℕ
begin s info created now =
    let published = stamped info created in
    let generation = (s.generation + 1) % 2 ^ 64 in
    elim (get s.pending info.id) [
      | some p ↦ (s, silent, none)
      | none ↦ (
        record s {
          generation = generation;
          pending =
              insert s.pending info.id
                (record { info = published; claimed_at = now; generation = generation });
        },
        record { notices = notice (codes "requested") published ∷ []; sent = [] },
        some generation,
      )
    ]

-- The waiter's claim timeout, `_ = &mut claim, if claim_waiting`
unfoldable pub claim_timed_out : State → Text → ℕ → State × Effects
claim_timed_out s id generation = elim (get s.pending id) [
  | none ↦ (s, silent)
  | some p ↦
      if p.generation == generation && is_empty p.info.claimed_by
      then (
        record s {
          pending =
              modify s.pending id (λ q. record q { info = record q.info { escalated = true } });
        },
        record {
          notices = notice (codes "escalated") (record p.info { escalated = true }) ∷ [];
          sent = [];
        },
      )
      else (s, silent)
]

-- `generation.is_some_and(|generation| p.generation != generation)`
abbrev pub stale : Option ℕ → Pending → Bool
stale none p = false
stale (some g) p = not (p.generation == g)

unfoldable pub finish : State → Text → Option ℕ → Answer → Text → State × Effects × Bool
finish s id generation answer action = elim (get s.pending id) [
  | none ↦ (s, silent, false)
  | some p ↦ if stale generation p then (s, silent, false) else (
    record s { pending = remove s.pending id },
    record { notices = notice action p.info ∷ []; sent = (p.generation, answer) ∷ [] },
    true,
  )
]

-- The waiter's answer timeout, its cancellation, and the drop of its guard.
unfoldable pub answer_timed_out : State → Text → ℕ → Text → State × Effects × Bool
answer_timed_out s id generation default =
    finish s id (some generation) (record no_answer { value = default; defaulted = true })
      (codes "defaulted")

unfoldable pub withdraw : State → Text → ℕ → State × Effects × Bool
withdraw s id generation =
    finish s id (some generation) (record no_answer { withdrawn = true }) (codes "withdrawn")

abbrev pub unclaim : Pending → Pending
unclaim p = record p { info = record p.info { claimed_by = [] } }

-- `values_mut().filter(test).map(unclaim)`, and the prompts that it announces
unfoldable pub release_where : (Pending → Bool) → Map Pending → Map Pending
release_where test [] = []
release_where test ((id, p) ∷ m) = (id, if test p then unclaim p else p) ∷ release_where test m

unfoldable pub released : (Pending → Bool) → Map Pending → List PromptInfo
released test [] = []
released test ((id, p) ∷ m) =
    let rest = released test m in if test p then (unclaim p).info ∷ rest else rest

unfoldable pub release : State → (Pending → Bool) → State × Effects
unfolding release_where released
release s test = (
  record s { pending = release_where test s.pending },
  record { notices = notices_of (codes "requested") (released test s.pending); sent = [] },
)

unfoldable pub release_client : State → Text → State × Effects
release_client s client = release s (λ p. text_eq p.info.claimed_by client)

-- `saturating_duration_since` is the truncated difference.
unfoldable pub expire_claims : State → ℕ → ℕ → State × Effects
expire_claims s now expiry =
    release s (λ p. not (is_empty p.info.claimed_by) && ltb expiry (now - p.claimed_at))

pub data Error : Type 0 where
  already_resolved claimed_by_another one_answer_needed : Error

abbrev pub may_claim : Pending → Text → Bool
may_claim p client = is_empty p.info.claimed_by || text_eq p.info.claimed_by client

unfoldable pub claim : State → Text → Text → ℕ → State × Effects × Option Error
claim s id client now = elim (get s.pending id) [
  | none ↦ (s, silent, some already_resolved)
  | some p ↦
      if may_claim p client
      then (
        record s {
          pending =
              modify s.pending id
                (λ q. record q { info = record q.info { claimed_by = client }; claimed_at = now });
        },
        record {
          notices = notice (codes "claimed") (record p.info { claimed_by = client }) ∷ [];
          sent = [];
        },
        none,
      )
      else (s, silent, some claimed_by_another)
]

-- The test for exactly one nonempty answer to a numbered question.
unfoldable pub single_of : List Text → Text → Bool
unfolding trim text_eq
single_of [] value = not (text_eq value (codes "answered")) && not (is_empty (trim value))
single_of (a ∷ []) value = not (is_empty (trim a))
single_of (a ∷ b ∷ rest) value = false

abbrev pub numbered_question : PromptInfo → Bool
numbered_question info = text_eq info.kind question && ltb 0 info.question_number

-- `answer`, once its tests have passed
unfoldable pub accept :
    State → Text → Pending → Text → Answer → Bool → State × Effects × Option Error
accept s id p client answer force = (
  record s { pending = remove s.pending id },
  record {
    notices =
        notice (codes "answered") (if force then p.info else record p.info { claimed_by = client })
        ∷ [];
    sent = (p.generation, record answer { client = client }) ∷ [];
  },
  none,
)

-- `answer`; `reply` and `resolve` are it without and with force.
unfoldable pub answer : State → Text → Text → Answer → Bool → State × Effects × Option Error
answer s id client a force = elim (get s.pending id) [
  | none ↦ (s, silent, some already_resolved)
  | some p ↦
      if force
      then accept s id p client a force
      else if not (may_claim p client)
      then (s, silent, some claimed_by_another)
      else if numbered_question p.info && not (single_of a.answers a.value)
      then (s, silent, some one_answer_needed)
      else accept s id p client a force
]

unfoldable pub reply : State → Text → Text → Answer → State × Effects × Option Error
reply s id client a = answer s id client a false

unfoldable pub resolve : State → Text → Text → Answer → State × Effects × Option Error
resolve s id client a = answer s id client a true

-- The entries that a test keeps.
unfoldable pub keep_where : (Pending → Bool) → Map Pending → Map Pending
keep_where test [] = []
keep_where test ((id, p) ∷ m) =
    let rest = keep_where test m in if test p then (id, p) ∷ rest else rest

unfoldable pub answers_for : Text → Text → Map Pending → List (ℕ × Answer)
answers_for value client [] = []
answers_for value client ((id, p) ∷ m) =
    (p.generation, record no_answer { value = value; client = client }) ∷ answers_for value client m

unfoldable pub claimed_infos : Text → Map Pending → List PromptInfo
claimed_infos client [] = []
claimed_infos client ((id, p) ∷ m) = record p.info { claimed_by = client } ∷ claimed_infos client m

abbrev pub count_of : Map Pending → ℕ
count_of [] = 0
count_of (e ∷ m) = count_of m + 1

unfoldable pub answer_where :
    State → Text → Text → Text → Text → (PromptInfo → Bool) → State × Effects × ℕ
unfolding keep_where answers_for claimed_infos
answer_where s channel kind value client keep =
    let test = λ (p : Pending).
      text_eq p.info.channel channel && (text_eq p.info.kind kind && keep p.info) in
    let taken = keep_where test s.pending in
    (
      record s { pending = keep_where (λ p. not (test p)) s.pending },
      record {
        notices = notices_of (codes "answered") (claimed_infos client taken);
        sent = answers_for value client taken;
      },
      count_of taken,
    )

-- The order of `pending`: by the time of creation, then by id.
unfoldable pub shown_before : PromptInfo → PromptInfo → Bool
unfolding text_lt text_eq
shown_before a b = text_lt a.created b.created || (text_eq a.created b.created && text_lt a.id b.id)

unfoldable pub place : PromptInfo → List PromptInfo → List PromptInfo
place a [] = a ∷ []
place a (b ∷ bs) = let later = b ∷ place a bs in if shown_before b a then later else a ∷ b ∷ bs

unfoldable pub sort_shown : List PromptInfo → List PromptInfo
unfolding place
sort_shown [] = []
sort_shown (a ∷ as_) = place a (sort_shown as_)

unfoldable pub pending : State → Text → List PromptInfo
unfolding sort_shown values
pending s channel = sort_shown (
    map (λ p. p.info)
      (filter (λ p. is_empty channel || text_eq p.info.channel channel) (values s.pending)))
