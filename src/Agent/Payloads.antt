-- ===== src/Agent/Payloads.antt =====
-- The events of src/event_types.rs with their payloads of src/event_payloads.rs. A payload is none
-- where it does not decode.
use stavlos.Common.{ℕ, Option, List, Text}
use stavlos.Security.{PermitPayload}
use stavlos.Agent.Types.{Directory, Input, TodoItem, BoardInfo}

pub record Usage : Type 0 where
  pub input_tokens : ℕ
  pub output_tokens : ℕ
  pub cache_read_tokens : ℕ
  pub cache_write_tokens : ℕ

-- The usage and the cost that the payloads of model calls and assistant messages share.
pub record UsagePayload : Type 0 where
  pub usage : Usage
  pub cost_usd : ℕ

pub record ChannelCreated : Type 0 where
  pub board : Option BoardInfo
  pub name : Text
  pub dir : Text
  pub model : Text
  pub role : Text
  pub mode : Text

pub record ChannelUpdated : Type 0 where
  pub dir : Option Text
  pub name : Option Text
  pub model : Option Text
  pub mode : Option Text
  pub recap : Option ℕ

-- The fields of a chat message that the fold reads.
pub record Chat : Type 0 where
  pub kind : Text
  pub reply_to : List Text

pub record Spawned : Type 0 where
  pub directories : Option (List Text)
  pub id : Text
  pub parent : Text
  pub role : Text
  pub name : Text
  pub model : Text
  pub variant : Text
  pub depth : ℕ

pub record AgentUpdated : Type 0 where
  pub role : Option Text
  pub name : Option Text
  pub model : Option Text
  pub variant : Option Text

-- What the fold reads of the payload of a turn's end.
pub record TurnEnded : Type 0 where
  pub reason : Text
  pub error : Text
  pub resume_at : ℕ
  pub resume : Text

pub record JobStarted : Type 0 where
  pub id : Text
  pub command : Text

pub record SheetPayload : Type 0 where
  pub id : Text
  pub title : Text
  pub author : Text
  pub hash : Text
  pub size : ℕ

-- `Kind` with the decoded payloads that the fold reads.
pub data Body : Type 0 where
  channel_created : Option ChannelCreated → Body
  channel_updated : Option ChannelUpdated → Body
  channel_archived : Body
  channel_dir_added channel_dir_removed : Option Directory → Body
  chat_posted : Body
  chat_message : Option Chat → Body
  agent_spawned : Option Spawned → Body
  agent_updated : Option AgentUpdated → Body
  agent_killed agent_cancelled : Body
  input_queued : Option Input → Body
  input_taken : Option (List Text) → Body
  model_call_started : Body
  model_call_completed : Option UsagePayload → Body
  turn_started : Option ℕ → Body
  assistant_message : Option UsagePayload → Body
  tool_started : Body
  tool_finished : Option (List Text) → Body
  turn_ended : Option TurnEnded → Body
  turn_aborted : Body
  ask_requested ask_resolved : Option Text → Body
  permit_granted : Option PermitPayload → Body
  job_started : Option JobStarted → Body
  job_finished job_stopped : Option Text → Body
  todo_changed : Option (List TodoItem) → Body
  sheet_written sheet_deleted : Option SheetPayload → Body
  mcp_started mcp_failed mcp_stopped : Body
  compaction_started compaction_done compaction_failed : Body
  unknown : Body

pub record Event : Type 0 where
  pub agent : Text
  pub time : ℕ
  pub body : Body
