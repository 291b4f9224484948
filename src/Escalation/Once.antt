-- ===== src/Escalation/Once.antt =====
-- Each waiter of src/escalation.rs gets one answer: a run of any operations in any order.
use stavlos.Common.{
  ℕ, ◌+◌, ◌%◌, ◌^◌, ◌==◌, ◌≤◌, ◌<◌, ◌≡◌, ◌⊎◌, refl, Bool, not, ◌&&◌, Option, none, some, List, [],
  ◌∷◌, ◌++◌, Text, is_empty, length, arith, Bool-cases, Option-cases, inl, inr, leb, text_eq,
}
use stavlos.Common.Map.{get, insert, modify}
use stavlos.Escalation.Prompts.{Answer, Config, PromptInfo, Pending, State, new, set_config}
use stavlos.Escalation.Manager.{
  begin, claim_timed_out, finish, answer_timed_out, withdraw, release, release_client,
  expire_claims, claim, answer, accept, answer_where, keep_where, stale, may_claim,
}
use stavlos.Escalation.Ledger.{
  hit, live, sent_to, Distinct, sent_to-append, live-insert, live-remove, live-modify,
  live-release_where, live-keep_where, sent_to-answers_for, Distinct-insert, Distinct-remove,
  Distinct-modify, Distinct-release_where, Distinct-keep_where,
}

-- What the owner's tasks and clients can do with a manager.
pub data Op : Type 0 where
  configure : Config → Op
  open_prompt : PromptInfo → Text → ℕ → Op
  claim_timeout : Text → ℕ → Op
  answer_timeout : Text → ℕ → Text → Op
  cancel : Text → ℕ → Op
  disconnect : Text → Op
  tick : ℕ → ℕ → Op
  take : Text → Text → ℕ → Op
  respond : Text → Text → Answer → Bool → Op
  respond_all : Text → Text → Text → Text → (PromptInfo → Bool) → Op

-- The new state and the answers that are sent.
unfoldable pub perform : State → Op → State × List (ℕ × Answer)
perform s (configure c) = (set_config s c, [])
perform s (open_prompt info created now) =
    ((begin s info created now).0, (begin s info created now).1.sent)
perform s (claim_timeout id g) = ((claim_timed_out s id g).0, (claim_timed_out s id g).1.sent)
perform s (answer_timeout id g value) =
    ((answer_timed_out s id g value).0, (answer_timed_out s id g value).1.sent)
perform s (cancel id g) = ((withdraw s id g).0, (withdraw s id g).1.sent)
perform s (disconnect client) = ((release_client s client).0, (release_client s client).1.sent)
perform s (tick now expiry) = ((expire_claims s now expiry).0, (expire_claims s now expiry).1.sent)
perform s (take id client now) = ((claim s id client now).0, (claim s id client now).1.sent)
perform s (respond id client a force) =
    ((answer s id client a force).0, (answer s id client a force).1.sent)
perform s (respond_all channel kind value client keep) = (
  (answer_where s channel kind value client keep).0,
  (answer_where s channel kind value client keep).1.sent,
)

unfoldable pub run : State → List (ℕ × Answer) → List Op → State × List (ℕ × Answer)
run s log [] = (s, log)
run s log (op ∷ ops) = run (perform s op).0 (log ++ (perform s op).1) ops

-- What a step does to the account of a generation: what was pending is pending or answered.
record Settles (s : State) (r : State × List (ℕ × Answer)) : Type 0 where
  balance : (g : ℕ) → live g r.0.pending + sent_to g r.1 ≡ live g s.pending
  same : r.0.generation ≡ s.generation
  distinct : Distinct r.0.pending

Settles-nothing : (s : State) → Distinct s.pending → Settles s (s, [])
unfolding sent_to
Settles-nothing s d = record { balance = λ g. omega arith; same = refl; distinct = d }

finish-Settles :
    (s : State) (id : Text) (g : Option ℕ) (a : Answer) (action : Text)
    → Distinct s.pending
    → Settles s ((finish s id g a action).0, (finish s id g a action).1.sent)
unfolding finish
finish-Settles s id g a action d = elim (Option-cases (get s.pending id)) [
  | inl absent ↦ rw (absent, finish) (Settles-nothing s d)
  | inr (p, found) ↦ elim (Bool-cases (stale g p)) [
    | inl old ↦ rw (found, finish) (rw old (Settles-nothing s d))
    | inr fresh ↦
        rw (found, finish)
          (rw fresh (record {
            balance = λ h. unfold sent_to in omega (arith, live-remove h s.pending id p d found);
            same = refl;
            distinct = Distinct-remove s.pending id d;
          }))
  ]
]

modify-Settles :
    (s : State) (id : Text) (f : Pending → Pending)
    → ((p : Pending) → (f p).generation ≡ p.generation)
    → Distinct s.pending
    → Settles s (record s { pending = modify s.pending id f }, [])
modify-Settles s id f keeps d = record {
  balance = λ h. unfold sent_to in omega (arith, live-modify h s.pending id f keeps);
  same = refl;
  distinct = Distinct-modify s.pending id f d;
}

claim_timed_out-Settles :
    (s : State) (id : Text) (g : ℕ)
    → Distinct s.pending
    → Settles s ((claim_timed_out s id g).0, (claim_timed_out s id g).1.sent)
unfolding claim_timed_out
claim_timed_out-Settles s id g d = elim (Option-cases (get s.pending id)) [
  | inl absent ↦ rw (absent, claim_timed_out) (Settles-nothing s d)
  | inr (p, found) ↦ elim (Bool-cases (p.generation == g && is_empty p.info.claimed_by)) [
    | inr late ↦ rw (found, claim_timed_out) (rw late (Settles-nothing s d))
    | inl due ↦ rw (found, claim_timed_out) (rw due (modify-Settles s id _ (λ q. refl) d))
  ]
]

release-Settles :
    (s : State) (test : Pending → Bool)
    → Distinct s.pending
    → Settles s ((release s test).0, (release s test).1.sent)
unfolding release
release-Settles s test d = record {
  balance = λ h. unfold sent_to in omega (arith, live-release_where h test s.pending);
  same = refl;
  distinct = Distinct-release_where test s.pending d;
}

claim-Settles :
    (s : State) (id client : Text) (now : ℕ)
    → Distinct s.pending
    → Settles s ((claim s id client now).0, (claim s id client now).1.sent)
unfolding claim
claim-Settles s id client now d = elim (Option-cases (get s.pending id)) [
  | inl absent ↦ rw (absent, claim) (Settles-nothing s d)
  | inr (p, found) ↦ elim (Bool-cases (may_claim p client)) [
    | inr held ↦ rw (found, claim) (rw held (Settles-nothing s d))
    | inl free ↦ rw (found, claim) (rw free (modify-Settles s id _ (λ q. refl) d))
  ]
]

accept-Settles :
    (s : State) (id : Text) (p : Pending) (client : Text) (a : Answer) (force : Bool)
    → Distinct s.pending
    → get s.pending id ≡ some p
    → Settles s ((accept s id p client a force).0, (accept s id p client a force).1.sent)
unfolding accept
accept-Settles s id p client a force d found = record {
  balance = λ h. unfold sent_to in omega (arith, live-remove h s.pending id p d found);
  same = refl;
  distinct = Distinct-remove s.pending id d;
}

-- `answer` accepts, or changes and sends nothing.
answer_cases :
    (s : State) (id client : Text) (a : Answer) (force : Bool) (p : Pending)
    → get s.pending id ≡ some p
    → (answer s id client a force ≡ accept s id p client a force)
      ⊎ (((answer s id client a force).0 ≡ s) × ((answer s id client a force).1.sent ≡ []))
unfolding answer
answer_cases s id client a force p found = ground arith

answer-Settles :
    (s : State) (id client : Text) (a : Answer) (force : Bool)
    → Distinct s.pending
    → Settles s ((answer s id client a force).0, (answer s id client a force).1.sent)
answer-Settles s id client a force d = elim (Option-cases (get s.pending id)) [
  | inl absent ↦ unfold answer in rw (absent, answer) (Settles-nothing s d)
  | inr (p, found) ↦ elim (answer_cases s id client a force p found) [
    | inl taken ↦ rw taken (accept-Settles s id p client a force d found)
    | inr (kept, none_sent) ↦ rw (kept, none_sent) (Settles-nothing s d)
  ]
]

answer_where-Settles :
    (s : State) (channel kind value client : Text) (keep : PromptInfo → Bool)
    → Distinct s.pending
    → Settles s (
      (answer_where s channel kind value client keep).0,
      (answer_where s channel kind value client keep).1.sent,
    )
unfolding answer_where
answer_where-Settles s channel kind value client keep d =
    let test = λ (p : Pending).
      text_eq p.info.channel channel && (text_eq p.info.kind kind && keep p.info) in
    record {
      balance = λ h. omega (
        arith,
        live-keep_where h test s.pending,
        sent_to-answers_for h value client (keep_where test s.pending),
      );
      same = refl;
      distinct = Distinct-keep_where (λ p. not (test p)) s.pending d;
    }

-- The account of all waiters: each generation that was handed out is pending or was answered, once.
pub record Account (s : State) (log : List (ℕ × Answer)) : Type 0 where
  pub balance : (g : ℕ) → live g s.pending + sent_to g log ≡ hit (leb 1 g && leb g s.generation)
  pub distinct : Distinct s.pending

settle-Account :
    (s : State) (log : List (ℕ × Answer)) (r : State × List (ℕ × Answer))
    → Account s log
    → Settles s r
    → Account r.0 (log ++ r.1)
settle-Account s log r a t = record {
  balance = λ g. rw (t.same) (omega (arith, a.balance g, t.balance g, sent_to-append g log r.1));
  distinct = t.distinct;
}

-- A new prompt under a fresh id, with the next generation.
open-Account :
    (s : State) (log : List (ℕ × Answer)) (id : Text) (p : Pending) (n : ℕ)
    → n ≡ s.generation + 1
    → p.generation ≡ n
    → get s.pending id ≡ none
    → Account s log
    → Account (record s { pending = insert s.pending id p; generation = n }) (log ++ [])
open-Account s log id p n next mine absent a = record {
  balance = λ g.
      let before = live-insert g s.pending id p absent in
      let nothing = sent_to-append g log [] in
      unfold sent_to in ground (arith, before, nothing, a.balance g);
  distinct = Distinct-insert s.pending id p absent a.distinct;
}

begin-Account :
    (s : State) (log : List (ℕ × Answer)) (info : PromptInfo) (created : Text) (now : ℕ)
    → s.generation + 1 < 2 ^ 64
    → Account s log
    → Account (begin s info created now).0 (log ++ (begin s info created now).1.sent)
unfolding begin
begin-Account s log info created now room a = elim (Option-cases (get s.pending info.id)) [
  | inr (p, found) ↦
      rw (found, begin) (settle-Account s log (s, []) a (Settles-nothing s a.distinct))
  | inl absent ↦
      rw (absent, begin)
        (open-Account s log info.id _ ((s.generation + 1) % 2 ^ 64) (omega arith) refl absent a)
]

perform-Account :
    (s : State) (log : List (ℕ × Answer)) (op : Op)
    → s.generation + 1 < 2 ^ 64
    → Account s log
    → Account (perform s op).0 (log ++ (perform s op).1)
unfolding perform
perform-Account s log (configure c) room a =
    settle-Account s log (set_config s c, []) a
      (unfold set_config sent_to in
        record { balance = λ g. omega arith; same = refl; distinct = a.distinct })
perform-Account s log (open_prompt info created now) room a =
    begin-Account s log info created now room a
perform-Account s log (claim_timeout id g) room a =
    settle-Account s log _ a (claim_timed_out-Settles s id g a.distinct)
perform-Account s log (answer_timeout id g value) room a =
    settle-Account s log _ a
      (unfold answer_timed_out in finish-Settles s id (some g) _ _ a.distinct)
perform-Account s log (cancel id g) room a =
    settle-Account s log _ a (unfold withdraw in finish-Settles s id (some g) _ _ a.distinct)
perform-Account s log (disconnect client) room a =
    settle-Account s log _ a (unfold release_client in release-Settles s _ a.distinct)
perform-Account s log (tick now expiry) room a =
    settle-Account s log _ a (unfold expire_claims in release-Settles s _ a.distinct)
perform-Account s log (take id client now) room a =
    settle-Account s log _ a (claim-Settles s id client now a.distinct)
perform-Account s log (respond id client b force) room a =
    settle-Account s log _ a (answer-Settles s id client b force a.distinct)
perform-Account s log (respond_all channel kind value client keep) room a =
    settle-Account s log _ a (answer_where-Settles s channel kind value client keep a.distinct)

-- Only `begin` counts up, by one.
perform_generation :
    (s : State) (log : List (ℕ × Answer)) (op : Op)
    → s.generation + 1 < 2 ^ 64
    → Account s log
    → (perform s op).0.generation ≤ s.generation + 1
unfolding perform set_config begin answer_timed_out withdraw release_client expire_claims
perform_generation s log (configure c) room a = omega arith
perform_generation s log (open_prompt info created now) room a = ground arith
perform_generation s log (claim_timeout id g) room a =
    omega (arith, (claim_timed_out-Settles s id g a.distinct).same)
perform_generation s log (answer_timeout id g value) room a =
    omega (arith, (finish-Settles s id (some g) _ _ a.distinct).same)
perform_generation s log (cancel id g) room a =
    omega (arith, (finish-Settles s id (some g) _ _ a.distinct).same)
perform_generation s log (disconnect client) room a =
    omega (arith, (release-Settles s _ a.distinct).same)
perform_generation s log (tick now expiry) room a =
    omega (arith, (release-Settles s _ a.distinct).same)
perform_generation s log (take id client now) room a =
    omega (arith, (claim-Settles s id client now a.distinct).same)
perform_generation s log (respond id client b force) room a =
    omega (arith, (answer-Settles s id client b force a.distinct).same)
perform_generation s log (respond_all channel kind value client keep) room a =
    omega (arith, (answer_where-Settles s channel kind value client keep a.distinct).same)

run-Account :
    (s : State) (log : List (ℕ × Answer)) (ops : List Op)
    → s.generation + length ops < 2 ^ 64
    → Account s log
    → Account (run s log ops).0 (run s log ops).1
unfolding run
run-Account s log [] room a = a
run-Account s log (op ∷ ops) room a =
    run-Account (perform s op).0 (log ++ (perform s op).1) ops
      (omega (arith, perform_generation s log op (omega arith) a))
      (perform-Account s log op (omega arith) a)

-- Whatever is done with a new manager, in any order and fewer than 2^64 times, each generation that
-- `begin` has handed out is either pending or was sent exactly one answer, and no other generation
-- was sent any.
pub answered_once :
    (c : Config) (ops : List Op) (g : ℕ)
    → length ops < 2 ^ 64
    → live g (run (new c) [] ops).0.pending + sent_to g (run (new c) [] ops).1
      ≡ hit (leb 1 g && leb g (run (new c) [] ops).0.generation)
unfolding new
answered_once c ops g room =
    (run-Account (new c) [] ops (omega arith)
        (record { balance = λ h. unfold live sent_to in ground arith; distinct = tt })).balance
      g
