-- ===== src/Queue/Message.antt =====
-- The messages of internal/queue/queue.go; the times that they carry are left out.
use express_botx.Common.{Bool, Option}
use express_botx.Text.{Str}

pub record Routing : Type 0 where
  pub host : Str
  pub bot_id : Str
  pub chat_id : Str
  pub bot_name : Str
  pub chat_alias : Str
  pub catalog_revision : Str

pub record FileAttachment : Type 0 where
  pub file_name : Str
  pub file_data : Str

pub record QueueOpts : Type 0 where
  pub silent : Bool
  pub stealth : Bool
  pub force_dnd : Bool
  pub no_notify : Bool
  pub no_parse : Bool

pub record QueuePayload : Type 0 where
  pub message : Str
  pub status : Str
  pub file : Option FileAttachment
  pub opts : QueueOpts
  pub metadata : Str
  pub mentions : Str

pub record WorkMessage : Type 0 where
  pub request_id : Str
  pub routing : Routing
  pub payload : QueuePayload
  pub reply_to : Str

pub record WorkResult : Type 0 where
  pub request_id : Str
  pub status : Str
  pub sync_id : Str
  pub error : Str
