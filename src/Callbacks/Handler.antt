-- ===== src/Callbacks/Handler.antt =====
-- `handleCommand` and `handleNotificationCallback` of internal/server/handler_callback.go. What a
-- handler does to the world is a state `S`; one that runs in a goroutine is recorded as started.
pub mod Laws
pub mod Genuine
use express_botx.Callbacks.Event.{event_notification, parse_event_type}
use express_botx.Callbacks.Jwt.{JwtCodec, callback_jwt_middleware}
use express_botx.Callbacks.Router.{MatchedRule, RouterRule, route}
use express_botx.Common.{
  Bool, List, Option, [], false, if◌then◌else◌, inl, inr, not, null, ℕ, ◌&&◌, ◌++◌, ◌||◌, ◌∷◌,
}
use express_botx.Errors.{GoError, Result, fail, ok}
use express_botx.MultiSend.Response.{Reply, result_body, write_error}
use express_botx.Server.Membership.{started}
use express_botx.Text.{Str, codes, str_eq}

-- The body of a request: unreadable, no JSON of the right shape, or a payload with its raw bytes.
pub data Received (A : Type 0) : Type 0 where
  unread : Received A
  not_json : Received A
  received : Str → A → Received A

pub record CallbackPayload : Type 0 where
  pub sync_id : Str
  pub bot_id : Str
  pub group_chat_id : Str
  pub command_body : Str

pub record NotificationPayload : Type 0 where
  pub sync_id : Str
  pub status : Str

-- The handlers started in goroutines, the errors captured, and the state.
pub record Dispatch (H S : Type 0) : Type 0 where
  pub spawned : List H
  pub captured : List GoError
  pub state : S

abbrev pub untouched : {H S : Type 0} → S → Dispatch H S
untouched s = record { spawned = []; captured = []; state = s }

module _ {H S : Type 0} (handle : H → Str → Str → S → Result (Unit {0}) × S) where
  abbrev capture : Result (Unit {0}) × S → Dispatch H S → Dispatch H S
  capture (ok _, s) d = record d { state = s }
  capture (fail e, s) d = record d { captured = d.captured ++ e ∷ []; state = s }

  -- The loop over the matched rules.
  unfoldable pub dispatch : List (MatchedRule H) → Str → Str → Dispatch H S → Dispatch H S
  dispatch [] event data_bytes d = d
  dispatch (m ∷ matched) event data_bytes d =
      let started =
        dispatch matched event data_bytes (record d { spawned = d.spawned ++ m.handler ∷ [] }) in
      let ran =
        dispatch matched event data_bytes (capture (handle m.handler event data_bytes d.state) d) in
      if m.async then started else ran

  abbrev result_reply : ℕ → Str → Reply
  result_reply code result = record {
    status = code;
    retry_after = false;
    body = result_body result;
  }

  run_command : List (RouterRule H) → Str → CallbackPayload → Str → S → Reply × Dispatch H S
  run_command rules jwt_bot p raw s =
      if null p.bot_id || null p.sync_id
      then (write_error 400 (codes "missing required fields: bot_id and sync_id"), untouched s)
      else if null p.group_chat_id
      then (write_error 400 (codes "missing required field: from.group_chat_id"), untouched s)
      else if not (null jwt_bot) && not (str_eq jwt_bot p.bot_id)
      then (write_error 403 (codes "bot_id does not match authenticated token"), untouched s)
      else let event = parse_event_type p.command_body in
        (result_reply 202 (codes "accepted"), dispatch (route rules event) event raw (untouched s))

  unfoldable pub handle_command :
      List (RouterRule H) → Str → Received CallbackPayload → S → Reply × Dispatch H S
  unfolding run_command
  handle_command rules jwt_bot unread s =
      (write_error 400 (codes "failed to read request body"), untouched s)
  handle_command rules jwt_bot not_json s =
      (write_error 400 (codes "invalid JSON payload"), untouched s)
  handle_command rules jwt_bot (received raw p) s = run_command rules jwt_bot p raw s

  run_notification : List (RouterRule H) → NotificationPayload → Str → S → Reply × Dispatch H S
  run_notification rules p raw s =
      if null p.sync_id || null p.status
      then (write_error 400 (codes "missing required fields: sync_id and status"), untouched s)
      else (
        result_reply 200 (codes "ok"),
        dispatch (route rules event_notification) event_notification raw (untouched s),
      )

  unfoldable pub handle_notification_callback :
      List (RouterRule H) → Received NotificationPayload → S → Reply × Dispatch H S
  unfolding run_notification
  handle_notification_callback rules unread s =
      (write_error 400 (codes "failed to read request body"), untouched s)
  handle_notification_callback rules not_json s =
      (write_error 400 (codes "invalid JSON payload"), untouched s)
  handle_notification_callback rules (received raw p) s = run_notification rules p raw s

  -- POST /command as `New` registers it: the middleware around the handler.
  unfoldable pub command_endpoint :
      JwtCodec
      → ℕ
      → Option (Str → Result Str)
      → Bool
      → Option Str
      → List (RouterRule H)
      → Received CallbackPayload
      → S
      → Reply × Dispatch H S
  command_endpoint lib now secret_lookup verify_jwt authorization rules body s =
      elim (callback_jwt_middleware lib now secret_lookup verify_jwt authorization) [
        | inl reply ↦ (reply, untouched s)
        | inr jwt_bot ↦ handle_command rules jwt_bot body s
      ]
