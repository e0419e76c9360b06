-- ===== src/Server/Alerts/Delivery.antt =====
-- What both handlers do with a rendered message: targets, authorization, fan-out.
use express_botx.Common.{List, Option, [], if◌then◌else◌, none, not, null, some, true, ◌∷◌}
use express_botx.Errors.{ChatResult, Result}
use express_botx.MultiSend.ChatIds.{parse_chat_ids}
use express_botx.MultiSend.Response.{Reply, write_error, write_multi_send}
use express_botx.Server.Access.{authorize_targets, sanitize_errors}
use express_botx.Server.Config.{Config, Context}
use express_botx.Server.Send.{SendPayload, fanout_send}
use express_botx.Text.{Str, codes}
use express_botx.Text.Character.{single}

-- The query's `chat_id`, if it is there at all, and `bot`.
pub record AlertQuery : Type 0 where
  pub query_chat : Option Str
  pub query_bot : Str

-- `singleChat`
unfoldable pub single_chat : Str → Str → Str → Str
single_chat default_chat_id global_default fallback =
    if not (null default_chat_id)
    then default_chat_id
    else if not (null global_default)
    then global_default
    else fallback

-- Where a message goes, or the answer that ends the request.
pub data AlertTargets : Type 0 where
  no_targets : Reply → AlertTargets
  targets_are : List Str → AlertTargets

unfoldable pub alert_targets : Option Str → Str → AlertTargets
alert_targets none single =
    if null single
    then no_targets (
        write_error 400 (
          codes
            "chat_id is required: set default_chat_id in config, configure a single chat alias, or pass ?chat_id="))
    else targets_are (single ∷ [])
alert_targets (some value) single =
    if null (parse_chat_ids value)
    then no_targets (
        write_error 400
          (codes "chat_id is empty: provide at least one chat, or omit chat_id to use the default"))
    else targets_are (parse_chat_ids value)

module _ {S : Type 0} (to_lower : Str → Str) (chats : Str → Result ChatResult) (cfg : Config)
    (ctx : Context) (gate : Option (Str → Str → S → Result (Unit {0}) × S))
    (send : SendPayload → S → Result Str × S) where
  abbrev pub alert_fanout : List Str → Str → Str → Str → S → Reply × S
  alert_fanout targets bot msg status s =
      let f = fanout_send chats cfg ctx send targets bot msg status s in
      (write_multi_send f.results (sanitize_errors ctx f.errs) 200, f.state)

  abbrev pub if_authorized : (S → Reply × S) → Option Reply × S → Reply × S
  if_authorized go (some reply, s) = (reply, s)
  if_authorized go (none, s) = go s

  unfoldable pub deliver_alert : AlertQuery → Str → Str → AlertTargets → S → Reply × S
  deliver_alert q msg status (no_targets reply) s = (reply, s)
  deliver_alert q msg status (targets_are targets) s =
      if_authorized (alert_fanout targets q.query_bot msg status)
        (authorize_targets to_lower chats ctx cfg gate q.query_bot targets true s)
