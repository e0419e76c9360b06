-- ===== src/Server/Alerts/Incident.antt =====
-- When an incident is sent.
use express_botx.Common.{
  Bool-cases, List-cases, Option, [], ap, arith, false, inl, inr, none, null, null-false, refl,
  some, ◌≡◌, ◌≢◌, ◌⊎◌,
}
use express_botx.Errors.{ChatResult, Result, Result-cases, ok}
use express_botx.MultiSend.Response.{Reply}
use express_botx.Server.Alerts.Alertmanager.{WebhookBody, body_invalid, body_read, body_unreadable}
use express_botx.Server.Alerts.Delivery.{AlertQuery, alert_targets, single_chat}
use express_botx.Server.Alerts.IncidentRelay.{
  IncidentRelayConfig, IncidentRelayWebhook, handle_incident_relay, has_no_content,
  incident_relay_rendered, render_incident_relay_message, resolve_incident_relay_status,
}
use express_botx.Server.Alerts.Laws.{IsFannedOut, IsTurnedDown, deliver_alert-cases}
use express_botx.Server.Config.{Config, Context}
use express_botx.Server.Send.{SendPayload}
use express_botx.Text.{Str, trim_space}

module _ {S A : Type 0} (to_lower : Str → Str) (chats : Str → Result ChatResult) (cfg : Config)
    (ctx : Context) (gate : Option (Str → Str → S → Result (Unit {0}) × S))
    (send : SendPayload → S → Result Str × S) where
  abbrev pub IncidentDelivered :
      Option (IncidentRelayConfig A)
      → AlertQuery
      → WebhookBody (IncidentRelayWebhook A)
      → S
      → Reply × S
      → Type 0
  IncidentDelivered config q body s result =
      (ir : IncidentRelayConfig A) × (w : IncidentRelayWebhook A) × (msg : Str) × (config ≡ some ir)
      × (body ≡ body_read w)
      × (has_no_content w ≡ false)
      × (render_incident_relay_message ir w ≡ ok msg)
      × (trim_space msg ≢ [])
      × IsFannedOut to_lower chats cfg ctx gate send q
          (single_chat ir.default_chat_id cfg.default_chat_alias ir.fallback_chat_id) msg
          (resolve_incident_relay_status ir.error_severities w) s result

  -- A request of IncidentRelay ends with an error and no effect but the check of its chats, or its
  -- payload has content and gives a message that is not blank, which is sent to its chats after they
  -- passed the check.
  pub handle_incident_relay-IncidentDelivered :
      (config : Option (IncidentRelayConfig A)) (q : AlertQuery)
      (body : WebhookBody (IncidentRelayWebhook A)) (s : S)
      → (let result = handle_incident_relay to_lower chats cfg ctx gate send config q body s in
          IsTurnedDown to_lower chats cfg ctx gate send q s result
          ⊎ IncidentDelivered config q body s result)
  unfolding handle_incident_relay incident_relay_rendered
  handle_incident_relay-IncidentDelivered none q body s = inl (omega arith, inl refl)
  handle_incident_relay-IncidentDelivered (some ir) q (body_unreadable why) s =
      inl (omega arith, inl refl)
  handle_incident_relay-IncidentDelivered (some ir) q (body_invalid why) s =
      inl (omega arith, inl refl)
  handle_incident_relay-IncidentDelivered (some ir) q (body_read w) s =
      let one = single_chat ir.default_chat_id cfg.default_chat_alias ir.fallback_chat_id in
      let status = resolve_incident_relay_status ir.error_severities w in
      elim (Bool-cases (has_no_content w)) [
        | inl y ↦ rw y (inl (omega arith, inl refl))
        | inr n ↦ elim (Result-cases (render_incident_relay_message ir w)) [
          | inr (e, f) ↦ rw (n, f) (inl (omega arith, inl refl))
          | inl (msg, f) ↦ elim (List-cases (trim_space msg)) [
            | inl b ↦ let z = ap null b in rw (n, f, z) (inl (omega arith, inl refl))
            | inr b ↦
                let z = null-false (trim_space msg) b in
                rw (n, f, z)
                  (elim (deliver_alert-cases to_lower chats cfg ctx gate send q one msg status s
                    (alert_targets q.query_chat one) refl) [
                      | inl d ↦ inl d
                      | inr d ↦ inr (ir, w, msg, refl, refl, n, f, b, d)
                    ])
          ]
        ]
      ]
