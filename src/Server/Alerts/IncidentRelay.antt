-- ===== src/Server/Alerts/IncidentRelay.antt =====
-- `handleIncidentRelay` of internal/server/handler_incidentrelay.go. What only the template reads of
-- the payload is a parameter `A`.
use express_botx.Common.{Bool, List, Option, if◌then◌else◌, none, not, null, some, ◌&&◌, ◌++◌}
use express_botx.Errors.{ChatResult, Result, fail, ok}
use express_botx.MultiSend.Response.{Reply, write_error}
use express_botx.Server.Alerts.Alertmanager.{
  WebhookBody, bad_body, body_invalid, body_read, body_unreadable,
}
use express_botx.Server.Alerts.Delivery.{AlertQuery, alert_targets, deliver_alert, single_chat}
use express_botx.Server.Config.{Config, Context}
use express_botx.Server.Send.{SendPayload}
use express_botx.Text.{Str, codes, elem, str_eq, trim_space}

pub record IncidentRelayWebhook (A : Type 0) : Type 0 where
  pub text : Str
  pub incident_status : Str
  pub title : Str
  pub message : Str
  pub severity : Str
  pub details : A

pub record IncidentRelayConfig (A : Type 0) : Type 0 where
  pub default_chat_id : Str
  pub error_severities : List Str
  pub template : IncidentRelayWebhook A → Result Str
  pub message_source : Str
  pub fallback_chat_id : Str

unfoldable pub render_incident_relay_message :
    {A : Type 0} → IncidentRelayConfig A → IncidentRelayWebhook A → Result Str
unfolding str_eq
render_incident_relay_message ir w =
    if str_eq ir.message_source (codes "template")
    then ir.template w
    else if not (null w.text)
    then ok w.text
    else if not (null w.title) && not (null w.message)
    then ok (w.title ++ (codes "\n\n" ++ w.message))
    else if not (null w.title)
    then ok w.title
    else if not (null w.message)
    then ok w.message
    else ir.template w

unfoldable pub resolve_incident_relay_status :
    {A : Type 0} → List Str → IncidentRelayWebhook A → Str
unfolding str_eq elem
resolve_incident_relay_status severities w =
    if str_eq w.incident_status (codes "resolved")
    then codes "ok"
    else if elem w.severity severities
    then codes "error"
    else codes "ok"

abbrev pub has_no_content : {A : Type 0} → IncidentRelayWebhook A → Bool
has_no_content w = (null w.text && null w.title) && null w.message

module _ {S A : Type 0} (to_lower : Str → Str) (chats : Str → Result ChatResult) (cfg : Config)
    (ctx : Context) (gate : Option (Str → Str → S → Result (Unit {0}) × S))
    (send : SendPayload → S → Result Str × S) where
  unfoldable pub incident_relay_rendered :
      IncidentRelayConfig A → AlertQuery → IncidentRelayWebhook A → Result Str → S → Reply × S
  incident_relay_rendered ir q w (fail e) s = bad_body (codes "template error: ") e.message s
  incident_relay_rendered ir q w (ok msg) s =
      if null (trim_space msg)
      then (write_error 400 (codes "rendered message is empty"), s)
      else deliver_alert to_lower chats cfg ctx gate send q msg
          (resolve_incident_relay_status ir.error_severities w)
          (alert_targets q.query_chat
            (single_chat ir.default_chat_id cfg.default_chat_alias ir.fallback_chat_id))
          s

  unfoldable pub handle_incident_relay :
      Option (IncidentRelayConfig A)
      → AlertQuery
      → WebhookBody (IncidentRelayWebhook A)
      → S
      → Reply × S
  handle_incident_relay none q body s = (write_error 500 (codes "incidentrelay not configured"), s)
  handle_incident_relay (some ir) q (body_unreadable why) s =
      bad_body (codes "cannot read request body: ") why s
  handle_incident_relay (some ir) q (body_invalid why) s = bad_body (codes "invalid JSON: ") why s
  handle_incident_relay (some ir) q (body_read w) s =
      if has_no_content w
      then (
        write_error 400 (codes "no content in payload: text, title and message are all empty"),
        s,
      )
      else incident_relay_rendered ir q w (render_incident_relay_message ir w) s
