-- ===== src/Escalation/Prompts.antt =====
-- The data of src/escalation.rs: prompts, claims, answers, notices and the configuration.
use stavlos.Common.{
  ℕ, ◌==◌, if◌then◌else◌, Bool, false, ◌||◌, List, [], ◌∷◌, Text, codes, is_empty, text_eq,
}
use stavlos.Common.Map.{Map}

pub record QuestionAnswer : Type 0 where
  pub selected : List ℕ
  pub custom : Text

pub record Answer : Type 0 where
  pub details : List QuestionAnswer
  pub value : Text
  pub dir : Text
  pub reason : Text
  pub answers : List Text
  pub client : Text
  pub defaulted : Bool
  pub withdrawn : Bool

-- `Answer::default()`
abbrev pub no_answer : Answer
no_answer = record {
  details = [];
  value = [];
  dir = [];
  reason = [];
  answers = [];
  client = [];
  defaulted = false;
  withdrawn = false;
}

pub record Config : Type 0 where
  pub claim_timeout : ℕ
  pub answer_timeout : ℕ
  pub default : Text
  pub claim_expiry : ℕ

-- 120 seconds
abbrev pub default_expiry : ℕ
default_expiry = 120000000000

unfoldable pub normalized : Config → Config
normalized c = record c {
  default = if is_empty c.default then codes "deny" else c.default;
  claim_expiry = if c.claim_expiry == 0 then default_expiry else c.claim_expiry;
}

-- The fields of `protocol::PromptInfo` that the manager reads or writes; `body` is the rest.
pub record PromptInfo : Type 0 where
  pub id : Text
  pub channel : Text
  pub kind : Text
  pub created : Text
  pub claimed_by : Text
  pub escalated : Bool
  pub question_number : ℕ
  pub body : Text

pub record Pending : Type 0 where
  pub info : PromptInfo
  pub claimed_at : ℕ
  pub generation : ℕ

pub record State : Type 0 where
  pub config : Config
  pub pending : Map Pending
  pub generation : ℕ

-- What an operation does beside the state: notifications for the sink, with the client tiers that
-- get them, and answers for the waiters, by the generation of their prompts.
pub record Notice : Type 0 where
  pub action : Text
  pub prompt : PromptInfo
  pub tiers : List Text

pub record Effects : Type 0 where
  pub notices : List Notice
  pub sent : List (ℕ × Answer)

abbrev pub silent : Effects
silent = record { notices = []; sent = [] }

abbrev pub interactive : Text
interactive = codes "interactive"

abbrev pub fallback : Text
fallback = codes "fallback"

unfoldable pub notice : Text → PromptInfo → Notice
notice action info = record {
  action = action;
  prompt = info;
  tiers = interactive ∷ (if info.escalated then fallback ∷ [] else []);
}

abbrev pub notices_of : Text → List PromptInfo → List Notice
notices_of action [] = []
notices_of action (i ∷ is) = notice action i ∷ notices_of action is

unfoldable pub new : Config → State
unfolding normalized
new config = record { config = normalized config; pending = []; generation = 0 }

unfoldable pub set_config : State → Config → State
unfolding normalized
set_config s config = record s { config = normalized config }

abbrev pub question : Text
question = codes "question"

abbrev pub permission : Text
permission = codes "permission"

abbrev pub trust : Text
trust = codes "trust"

unfoldable pub always_escalated : Text → Bool
always_escalated kind = text_eq kind question || (text_eq kind permission || text_eq kind trust)

-- `info` as `begin` publishes it
unfoldable pub stamped : PromptInfo → Text → PromptInfo
stamped info created = record info {
  created = created;
  escalated = always_escalated info.kind || info.escalated;
}
