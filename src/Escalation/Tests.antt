-- ===== src/Escalation/Tests.antt =====
-- Runs of the manager, and the theorems at concrete inputs.
use stavlos.Common.{
  ◌+◌, ◌≡◌, refl, arith, true, false, none, some, List, [], ◌∷◌, codes, contains, leb, ◌&&◌,
  text_eq, inl, inr, if◌then◌else◌,
}
use stavlos.Common.Map.{get, insert, remove, modify}
use stavlos.Escalation.Prompts.{
  Answer, Config, PromptInfo, Pending, State, Notice, no_answer, silent, question, permission,
  fallback, new,
}
use stavlos.Escalation.Manager.{
  Error, begin, claim, claim_timed_out, reply, answer, finish, already_resolved, claimed_by_another,
  numbered_question, pending,
}
use stavlos.Escalation.Ledger.{hit, live, sent_to, Distinct}
use stavlos.Escalation.Once.{Op, run, perform, answered_once, open_prompt, take, respond, cancel}
use stavlos.Escalation.Closes.{generation_at, closes, perform-closes}
use stavlos.Escalation.Claims.{reply-claim, begin_escalated}

abbrev config : Config
config = record {
  claim_timeout = 30;
  answer_timeout = 60;
  default = codes "deny";
  claim_expiry = 120;
}

abbrev prompt : PromptInfo
prompt = record {
  id = codes "p1";
  channel = codes "c";
  kind = permission;
  created = [];
  claimed_by = [];
  escalated = false;
  question_number = 0;
  body = codes "rm";
}

abbrev yes : Answer
yes = record no_answer { value = codes "allow" }

abbrev asked_twice : List Op
asked_twice =
    open_prompt prompt (codes "now") 5
    ∷ take (codes "p1") (codes "tui") 6
    ∷ respond (codes "p1") (codes "phone") yes false
    ∷ respond (codes "p1") (codes "tui") yes false
    ∷ cancel (codes "p1") 1
    ∷ []

asked_twice_answers :
    (run (new config) [] asked_twice).1 ≡ (1, record yes { client = codes "tui" }) ∷ []
unfolding run perform new begin claim answer finish get insert remove modify text_eq
    stavlos.Escalation.Prompts.stamped stavlos.Escalation.Manager.accept
    stavlos.Escalation.Manager.withdraw
asked_twice_answers = refl

answered_once_example :
    live 1 (run (new config) [] asked_twice).0.pending
      + sent_to 1 (run (new config) [] asked_twice).1
    ≡ hit (leb 1 1 && leb 1 (run (new config) [] asked_twice).0.generation)
answered_once_example = answered_once config asked_twice 1 (omega arith)

abbrev waits : Pending
waits = record { info = record prompt { escalated = true }; claimed_at = 5; generation = 1 }

abbrev waiting : State
waiting = record { config = config; pending = (codes "p1", waits) ∷ []; generation = 1 }

abbrev claimed : Pending
claimed = record waits { info = record waits.info { claimed_by = codes "tui" } }

abbrev held : State
held = record { config = config; pending = (codes "p1", claimed) ∷ []; generation = 1 }

found_waiting : get waiting.pending (codes "p1") ≡ some waits
unfolding get text_eq
found_waiting = refl

found_held : get held.pending (codes "p1") ≡ some claimed
unfolding get text_eq
found_held = refl

held-Distinct : Distinct held.pending
unfolding get
held-Distinct = (refl, tt)

-- The prompt that one client holds, when another one answers.
perform-closes_example :
    generation_at
      (perform held (respond (codes "p1") (codes "phone") yes false)).0.pending
      (codes "p1")
    ≡ (if closes (respond (codes "p1") (codes "phone") yes false) (codes "p1") claimed
        then none
        else some claimed.generation)
perform-closes_example =
    perform-closes held (codes "p1") claimed (respond (codes "p1") (codes "phone") yes false)
      held-Distinct found_held

plain_kind : numbered_question waits.info ≡ false
unfolding text_eq
plain_kind = refl

reply-claim_example :
    ((reply (claim waiting (codes "p1") (codes "tui") 7).0 (codes "p1") (codes "tui") yes).2 ≡ none)
    × ((reply (claim waiting (codes "p1") (codes "tui") 7).0 (codes "p1") (codes "tui") yes).1.sent
        ≡ (1, record yes { client = codes "tui" }) ∷ [])
    × ((reply
          (reply (claim waiting (codes "p1") (codes "tui") 7).0 (codes "p1") (codes "tui") yes).0
          (codes "p1")
          (codes "phone")
          yes).2
        ≡ some already_resolved)
reply-claim_example =
    reply-claim waiting (codes "p1") (codes "tui") (codes "phone") waits yes yes 7 found_waiting
      refl plain_kind

unused_id : get waiting.pending (codes "p2") ≡ none
unfolding get text_eq
unused_id = refl

begin_escalated_example :
    (n : Notice) × ((begin waiting (record prompt { id = codes "p2" }) (codes "later") 8).1.notices
      ≡ n ∷ [])
    × (contains n.tiers fallback ≡ true)
begin_escalated_example =
    begin_escalated waiting (record prompt { id = codes "p2" }) (codes "later") 8 unused_id
      (inr (inl refl))
