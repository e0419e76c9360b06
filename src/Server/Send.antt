-- ===== src/Server/Send.antt =====
-- `fanoutSend` of internal/server/multisend.go: chat and bot are resolved for each target, then the
-- message is sent. Sending is a parameter that may change a state `S`.
use express_botx.Common.{Bool, List, Option, [], false, none, ◌++◌}
use express_botx.Errors.{ChatResult, Result, fail, ok}
use express_botx.MultiSend.Fanout.{Fanout, SendResult, fanout}
use express_botx.Server.Bots.{resolve_request_bot}
use express_botx.Server.Config.{Config, Context}
use express_botx.Text.{Str, codes}

pub record FilePayload : Type 0 where
  pub name : Str
  pub data_base64 : Str

pub record OptsPayload : Type 0 where
  pub silent : Bool
  pub stealth : Bool
  pub force_dnd : Bool
  pub no_notify : Bool

-- `metadata` and `mentions` are JSON texts, empty where there are none.
pub record SendPayload : Type 0 where
  pub bot : Str
  pub chat_id : Str
  pub message : Str
  pub text : Str
  pub file : Option FilePayload
  pub status : Str
  pub opts : Option OptsPayload
  pub metadata : Str
  pub mentions : Str
  pub routing_mode : Str
  pub bot_id : Str
  pub no_parse : Bool

-- The fields that a literal leaves out have their zero values.
abbrev pub text_payload : Str → Str → Str → Str → SendPayload
text_payload bot chat_id message status = record {
  bot = bot;
  chat_id = chat_id;
  message = message;
  text = [];
  file = none;
  status = status;
  opts = none;
  metadata = [];
  mentions = [];
  routing_mode = [];
  bot_id = [];
  no_parse = false;
}

module _ {S : Type 0} (chats : Str → Result ChatResult) (cfg : Config) (ctx : Context)
    (send : SendPayload → S → Result Str × S) where
  abbrev pub sent_to : Str → Result Str × S → Result SendResult × S
  sent_to target (fail err, s) = (fail err, s)
  sent_to target (ok sync, s) =
      (ok (record { chat = target; sync_id = sync; request_id = []; queued = false }), s)

  -- The function that `fanoutSend` hands to `fanout`.
  unfoldable pub deliver_plain : Str → Str → Str → Str → S → Result SendResult × S
  deliver_plain request_bot msg state target s = elim (chats target) [
    | fail err ↦ (fail (record err { message = codes "resolving chat: " ++ err.message }), s)
    | ok found ↦ elim (resolve_request_bot cfg ctx request_bot found.bot) [
      | fail err ↦ (fail err, s)
      | ok name ↦ sent_to target (send (text_payload name found.chat_id msg state) s)
    ]
  ]

  unfoldable pub fanout_send : List Str → Str → Str → Str → S → Fanout S
  unfolding deliver_plain fanout resolve_request_bot
  fanout_send targets request_bot msg state s =
      fanout (deliver_plain request_bot msg state) targets s
