-- ===== src/Server/Alerts/Sent.antt =====
-- The two handlers: what is answered and when an alert is sent.
use express_botx.Common.{
  List-cases, Option, [], ap, arith, inl, inr, none, null, null-false, refl, some, true, ◌≡◌, ◌≢◌,
  ◌⊎◌,
}
use express_botx.Errors.{ChatResult, Result, Result-cases, ok}
use express_botx.MultiSend.Response.{Reply}
use express_botx.Server.Alerts.Alertmanager.{
  AlertmanagerConfig, AlertmanagerWebhook, WebhookBody, body_invalid, body_read, body_unreadable,
}
use express_botx.Server.Alerts.Delivery.{AlertQuery, alert_targets, single_chat}
use express_botx.Server.Alerts.Grafana.{
  GrafanaConfig, GrafanaWebhook, grafana_rendered, handle_grafana, render_grafana_message,
  resolve_grafana_status,
}
use express_botx.Server.Alerts.Laws.{
  AnySevere, IsFannedOut, IsStatusOf, IsTurnedDown, deliver_alert-cases,
  resolve_grafana_status-IsStatusOf,
}
use express_botx.Server.Config.{Config, Context}
use express_botx.Server.Send.{SendPayload}
use express_botx.Text.{Str, codes, elem, str_eq}

module _ {S : Type 0} (to_lower : Str → Str) (chats : Str → Result ChatResult) (cfg : Config)
    (ctx : Context) (gate : Option (Str → Str → S → Result (Unit {0}) × S))
    (send : SendPayload → S → Result Str × S) where
  -- An alert that was read and has items, its rendered message and its status, delivered.
  abbrev pub AlertDelivered :
      Option AlertmanagerConfig
      → AlertQuery
      → WebhookBody AlertmanagerWebhook
      → S
      → Reply × S
      → Type 0
  AlertDelivered config q body s result =
      (am : AlertmanagerConfig) × (w : AlertmanagerWebhook) × (msg : Str) × (status : Str) × (config
        ≡ some am)
      × (body ≡ body_read w)
      × (w.alerts ≢ [])
      × (am.template w ≡ ok msg)
      × IsStatusOf to_lower chats cfg ctx gate send (str_eq w.webhook_status (codes "resolved"))
          (AnySevere to_lower chats cfg ctx gate send am.error_severities w.alerts) status
      × IsFannedOut to_lower chats cfg ctx gate send q
          (single_chat am.default_chat_id cfg.default_chat_alias am.fallback_chat_id) msg status s
          result

  abbrev pub GrafanaDelivered :
      {A : Type 0}
      → Option (GrafanaConfig A)
      → AlertQuery
      → WebhookBody (GrafanaWebhook A)
      → S
      → Reply × S
      → Type 0
  GrafanaDelivered {A} config q body s result =
      (gr : GrafanaConfig A) × (w : GrafanaWebhook A) × (msg : Str) × (status : Str) × (config
        ≡ some gr)
      × (body ≡ body_read w)
      × (w.items ≢ [])
      × (render_grafana_message gr w ≡ ok msg)
      × IsStatusOf to_lower chats cfg ctx gate send (str_eq w.grafana_status (codes "resolved"))
          (elem w.alert_state gr.error_states ≡ true) status
      × IsFannedOut to_lower chats cfg ctx gate send q
          (single_chat gr.default_chat_id cfg.default_chat_alias gr.fallback_chat_id) msg status s
          result

  -- A request of Grafana ends with an error and no effect but the check of its chats, or its payload
  -- has alerts and gives a message, Grafana's own or the template's, which is sent to its chats after
  -- they passed the check; with status "error" exactly if the payload is not resolved and its state
  -- is a listed one.
  pub handle_grafana-GrafanaDelivered :
      {A : Type 0} (config : Option (GrafanaConfig A)) (q : AlertQuery)
      (body : WebhookBody (GrafanaWebhook A)) (s : S)
      → (let result = handle_grafana to_lower chats cfg ctx gate send config q body s in
          IsTurnedDown to_lower chats cfg ctx gate send q s result
          ⊎ GrafanaDelivered config q body s result)
  unfolding handle_grafana grafana_rendered
  handle_grafana-GrafanaDelivered none q body s = inl (omega arith, inl refl)
  handle_grafana-GrafanaDelivered (some gr) q (body_unreadable why) s = inl (omega arith, inl refl)
  handle_grafana-GrafanaDelivered (some gr) q (body_invalid why) s = inl (omega arith, inl refl)
  handle_grafana-GrafanaDelivered (some gr) q (body_read w) s =
      let single = single_chat gr.default_chat_id cfg.default_chat_alias gr.fallback_chat_id in
      let status = resolve_grafana_status gr.error_states w in
      elim (List-cases w.items) [
        | inl n ↦ let z = ap null n in rw z (inl (omega arith, inl refl))
        | inr n ↦
            let z = null-false w.items n in
            elim (Result-cases (render_grafana_message gr w)) [
              | inr (e, f) ↦ rw (z, f) (inl (omega arith, inl refl))
              | inl (msg, f) ↦
                  rw (z, f)
                    (elim (deliver_alert-cases to_lower chats cfg ctx gate send q single msg status
                      s (alert_targets q.query_chat single) refl) [
                        | inl d ↦ inl d
                        | inr d ↦ inr (
                          gr,
                          w,
                          msg,
                          status,
                          refl,
                          refl,
                          n,
                          f,
                          resolve_grafana_status-IsStatusOf to_lower chats cfg ctx gate send
                              gr.error_states w,
                          d,
                        )
                      ])
            ]
      ]
