-- ===== src/Server/Alerts/Grafana.antt =====
-- `handleGrafana`. What only the template reads of the payload is a parameter `A`.
use express_botx.Common.{List, Option, if◌then◌else◌, none, not, null, some, ◌&&◌, ◌++◌}
use express_botx.Errors.{ChatResult, Result, fail, ok}
use express_botx.MultiSend.Response.{Reply, write_error}
use express_botx.Server.Alerts.Alertmanager.{
  WebhookBody, bad_body, body_invalid, body_read, body_unreadable,
}
use express_botx.Server.Alerts.Delivery.{AlertQuery, alert_targets, deliver_alert, single_chat}
use express_botx.Server.Config.{Config, Context}
use express_botx.Server.Send.{SendPayload}
use express_botx.Text.{Str, codes, elem, str_eq}

pub record GrafanaWebhook (A : Type 0) : Type 0 where
  pub grafana_status : Str
  pub title : Str
  pub alert_state : Str
  pub message : Str
  pub items : List A

pub record GrafanaConfig (A : Type 0) : Type 0 where
  pub default_chat_id : Str
  pub error_states : List Str
  pub template : GrafanaWebhook A → Result Str
  pub message_source : Str
  pub fallback_chat_id : Str

unfoldable pub render_grafana_message :
    {A : Type 0} → GrafanaConfig A → GrafanaWebhook A → Result Str
unfolding str_eq
render_grafana_message gr w =
    if str_eq gr.message_source (codes "webhook") && not (null w.message)
    then if null w.title then ok w.message else ok (w.title ++ (codes "\n\n" ++ w.message))
    else gr.template w

unfoldable pub resolve_grafana_status : {A : Type 0} → List Str → GrafanaWebhook A → Str
unfolding str_eq elem
resolve_grafana_status states w =
    if str_eq w.grafana_status (codes "resolved")
    then codes "ok"
    else if elem w.alert_state states
    then codes "error"
    else codes "ok"

module _ {S A : Type 0} (to_lower : Str → Str) (chats : Str → Result ChatResult) (cfg : Config)
    (ctx : Context) (gate : Option (Str → Str → S → Result (Unit {0}) × S))
    (send : SendPayload → S → Result Str × S) where
  unfoldable pub grafana_rendered :
      GrafanaConfig A → AlertQuery → GrafanaWebhook A → Result Str → S → Reply × S
  grafana_rendered gr q w (fail e) s = bad_body (codes "template error: ") e.message s
  grafana_rendered gr q w (ok msg) s =
      deliver_alert to_lower chats cfg ctx gate send q msg
        (resolve_grafana_status gr.error_states w)
        (alert_targets q.query_chat
          (single_chat gr.default_chat_id cfg.default_chat_alias gr.fallback_chat_id))
        s

  unfoldable pub handle_grafana :
      Option (GrafanaConfig A) → AlertQuery → WebhookBody (GrafanaWebhook A) → S → Reply × S
  handle_grafana none q body s = (write_error 500 (codes "grafana not configured"), s)
  handle_grafana (some gr) q (body_unreadable why) s =
      bad_body (codes "cannot read request body: ") why s
  handle_grafana (some gr) q (body_invalid why) s = bad_body (codes "invalid JSON: ") why s
  handle_grafana (some gr) q (body_read w) s =
      if null w.items
      then (write_error 400 (codes "no alerts in payload"), s)
      else grafana_rendered gr q w (render_grafana_message gr w) s
