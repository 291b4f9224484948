-- ===== src/Agent/Types.antt =====
-- The data of src/agent/state.rs. Times are numbers, 0 being the default; the floating-point sums are
-- kept as the lists of their summands, in order. The builder of the history (src/project.rs) is no
-- part of the model.
use stavlos.Common.{
  ℕ, if◌then◌else◌, Bool, true, false, not, ◌&&◌, ◌||◌, Option, none, List, [], ◌∷◌, Text, codes,
  text_eq, any,
}
use stavlos.Common.Map.{Map}
use stavlos.Security.{Permits}

pub record Directory : Type 0 where
  pub path : Text
  pub source : Text

pub record Sheet : Type 0 where
  pub id : Text
  pub title : Text
  pub author : Text
  pub hash : Text
  pub size : ℕ
  pub updated : ℕ

pub record ReplyRequest : Type 0 where
  pub channel : Text
  pub channel_name : Text
  pub id : Text
  pub from : Text
  pub from_name : Text
  pub to : List Text
  pub text : Text
  pub post : Text

pub record Reply : Type 0 where
  pub request : ReplyRequest
  pub seq : ℕ
  pub legacy : Bool
  pub open_ : List Text
  pub held : List Text

-- Less the fields `requests`, `job`, `parties` and `names`, which the fold only passes on.
pub record Input : Type 0 where
  pub channel : Text
  pub channel_name : Text
  pub expect_response : Bool
  pub request_id : Text
  pub reply_to : List Text
  pub to : List Text
  pub id : Text
  pub kind : Text
  pub text : Text
  pub from : Text
  pub from_name : Text
  pub post : Text
  pub recap : Bool

pub record TodoItem : Type 0 where
  pub id : Text
  pub text : Text
  pub status : Text

-- A job is its command under its id. The builder `history` is left out.
pub record AgentState : Type 0 where
  pub id : Text
  pub parent : Text
  pub role : Text
  pub name : Text
  pub model : Text
  pub variant : Text
  pub depth : ℕ
  pub children : List Text
  pub directories : Option (List Text)
  pub killed : Bool
  pub instructed : List Text
  pub turn : ℕ
  pub in_turn : Bool
  pub last_error : Text
  pub inbox : List Input
  pub nudges : ℕ
  pub last_post : Text
  pub jobs : Map Text
  pub asks : List Text
  pub resume_at : ℕ
  pub resume_why : Text
  pub resumes : ℕ
  pub turn_reminder_only : Bool
  pub turn_had_tools : Bool
  pub turn_settled : Bool
  pub todos : List TodoItem
  pub todo_seq : ℕ
  pub compacting : Bool
  pub tokens : ℕ
  pub last_context : ℕ
  pub cost : List ℕ

-- `AgentState::default()`
abbrev pub default_agent : AgentState
default_agent = record {
  id = [];
  parent = [];
  role = [];
  name = [];
  model = [];
  variant = [];
  depth = 0;
  children = [];
  directories = none;
  killed = false;
  instructed = [];
  turn = 0;
  in_turn = false;
  last_error = [];
  inbox = [];
  nudges = 0;
  last_post = [];
  jobs = [];
  asks = [];
  resume_at = 0;
  resume_why = [];
  resumes = 0;
  turn_reminder_only = false;
  turn_had_tools = false;
  turn_settled = false;
  todos = [];
  todo_seq = 0;
  compacting = false;
  tokens = 0;
  last_context = 0;
  cost = [];
}

pub record BoardInfo : Type 0 where
  pub source : Text
  pub owner : Text
  pub members : List Text

pub record ChannelState : Type 0 where
  pub model_calls : ℕ
  pub budget_tokens : ℕ
  pub budget_cost : List ℕ
  pub board : Option BoardInfo
  pub name : Text
  pub model : Text
  pub role : Text
  pub mode : Text
  pub dir : Text
  pub archived : Bool
  pub recap : ℕ
  pub last_heard : ℕ
  pub last_work : ℕ
  pub last_recap : ℕ
  pub recap_open : Bool
  pub dirs : List Directory
  pub permits : Permits
  pub agents : Map AgentState
  pub order : List Text
  pub names : Map Text
  pub requests : Map Reply
  pub request_seq : ℕ
  pub sheets : Map Sheet
  pub sheet_seq : ℕ

abbrev pub no_permits : Permits
no_permits = record { calls = []; prefixes = [] }

-- `ChannelState::new`
unfoldable pub new : Text → Text → ChannelState
new model role = record {
  model_calls = 0;
  budget_tokens = 0;
  budget_cost = [];
  board = none;
  name = [];
  model = model;
  role = role;
  mode = codes "ask";
  dir = [];
  archived = false;
  recap = 0;
  last_heard = 0;
  last_work = 0;
  last_recap = 0;
  recap_open = false;
  dirs = [];
  permits = no_permits;
  agents = [];
  order = [];
  names = [];
  requests = [];
  request_seq = 0;
  sheets = [];
  sheet_seq = 0;
}

abbrev pub one_of : Text → List Text → Bool
one_of k ks = any (λ j. text_eq k j) ks

pub record InputRule : Type 0 where
  pub wakes : Bool
  pub mid_turn : Bool
  pub harness : Bool

-- `input_rule`
unfoldable pub input_rule : Text → InputRule
input_rule kind =
    if one_of kind (codes "steer" ∷ codes "request" ∷ codes "agent_steer" ∷ [])
    then record { wakes = true; mid_turn = true; harness = false }
    else if text_eq kind (codes "info")
    then record { wakes = false; mid_turn = true; harness = false }
    else if one_of kind (codes "reminder" ∷ codes "resume" ∷ [])
    then record { wakes = true; mid_turn = false; harness = true }
    else record { wakes = true; mid_turn = false; harness = false }

-- `starts_turn` and `busy`
unfoldable pub starts_turn : AgentState → Bool
starts_turn a = any (λ i. (input_rule i.kind).wakes) a.inbox

unfoldable pub busy : AgentState → Bool
busy a = not a.killed && (a.in_turn || starts_turn a)
