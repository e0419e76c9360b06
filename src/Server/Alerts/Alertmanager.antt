-- ===== src/Server/Alerts/Alertmanager.antt =====
-- `handleAlertmanager`. The template and the decoding of JSON are parameters; the times that the
-- payload carries are left to the template.
use express_botx.Common.{
  Bool, List, Option, [], false, if◌then◌else◌, none, null, some, ◌++◌, ◌||◌, ◌∷◌,
}
use express_botx.Errors.{ChatResult, Result, fail, ok}
use express_botx.MultiSend.Response.{Reply, write_error}
use express_botx.Server.Alerts.Delivery.{AlertQuery, alert_targets, deliver_alert, single_chat}
use express_botx.Server.Config.{Config, Context, get_key}
use express_botx.Server.Send.{SendPayload}
use express_botx.Text.{Str, codes, elem, str_eq}

pub record AlertItem : Type 0 where
  pub alert_status : Str
  pub labels : List (Str × Str)
  pub annotations : List (Str × Str)
  pub generator_url : Str

pub record AlertmanagerWebhook : Type 0 where
  pub version : Str
  pub group_key : Str
  pub webhook_status : Str
  pub receiver : Str
  pub group_labels : List (Str × Str)
  pub common_labels : List (Str × Str)
  pub common_annotations : List (Str × Str)
  pub external_url : Str
  pub alerts : List AlertItem

-- The body of a request: unreadable, no JSON of the wanted form, or the payload.
pub data WebhookBody (W : Type 0) : Type 0 where
  body_unreadable : Str → WebhookBody W
  body_invalid : Str → WebhookBody W
  body_read : W → WebhookBody W

pub record AlertmanagerConfig : Type 0 where
  pub default_chat_id : Str
  pub error_severities : List Str
  pub template : AlertmanagerWebhook → Result Str
  pub fallback_chat_id : Str

-- A read of a map of labels: empty for a label that is not there.
abbrev pub label_of : List (Str × Str) → Str → Str
label_of labels name = elim (get_key labels name) [ none ↦ [] | some value ↦ value ]

unfoldable pub any_severe : List Str → List AlertItem → Bool
unfolding get_key elem
any_severe severities [] = false
any_severe severities (a ∷ alerts) =
    elem (label_of a.labels (codes "severity")) severities || any_severe severities alerts

unfoldable pub resolve_alert_status : List Str → AlertmanagerWebhook → Str
unfolding any_severe str_eq
resolve_alert_status severities w =
    if str_eq w.webhook_status (codes "resolved")
    then codes "ok"
    else if any_severe severities w.alerts
    then codes "error"
    else codes "ok"

abbrev pub bad_body : {S : Type 0} → Str → Str → S → Reply × S
bad_body what why s = (write_error 400 (what ++ why), s)

module _ {S : Type 0} (to_lower : Str → Str) (chats : Str → Result ChatResult) (cfg : Config)
    (ctx : Context) (gate : Option (Str → Str → S → Result (Unit {0}) × S))
    (send : SendPayload → S → Result Str × S) where
  unfoldable pub alertmanager_rendered :
      AlertmanagerConfig → AlertQuery → AlertmanagerWebhook → Result Str → S → Reply × S
  alertmanager_rendered am q w (fail e) s = bad_body (codes "template error: ") e.message s
  alertmanager_rendered am q w (ok msg) s =
      deliver_alert to_lower chats cfg ctx gate send q msg
        (resolve_alert_status am.error_severities w)
        (alert_targets q.query_chat
          (single_chat am.default_chat_id cfg.default_chat_alias am.fallback_chat_id))
        s

  unfoldable pub handle_alertmanager :
      Option AlertmanagerConfig → AlertQuery → WebhookBody AlertmanagerWebhook → S → Reply × S
  handle_alertmanager none q body s = (write_error 500 (codes "alertmanager not configured"), s)
  handle_alertmanager (some am) q (body_unreadable why) s =
      bad_body (codes "cannot read request body: ") why s
  handle_alertmanager (some am) q (body_invalid why) s = bad_body (codes "invalid JSON: ") why s
  handle_alertmanager (some am) q (body_read w) s =
      if null w.alerts
      then (write_error 400 (codes "no alerts in payload"), s)
      else alertmanager_rendered am q w (am.template w) s
