-- ===== src/Server/Alerts/Laws.antt =====
-- When an alert is delivered.
use express_botx.Common.{
  Bool, Bool-cases, List, Option, [], ap, arith, false, inl, inr, none, null, refl, some, sym, true,
  ◌↔◌, ◌∷◌, ◌≡◌, ◌≤◌, ◌⊎◌,
}
use express_botx.Errors.{ChatResult, Result}
use express_botx.MultiSend.ChatIds.{parse_chat_ids}
use express_botx.MultiSend.Response.{Reply}
use express_botx.Server.Access.{authorize_targets}
use express_botx.Server.Access.Refusals.{IsRefusal, authorize_targets-IsRefusal}
use express_botx.Server.Alerts.Alertmanager.{
  AlertItem, AlertmanagerWebhook, any_severe, label_of, resolve_alert_status,
}
use express_botx.Server.Alerts.Delivery.{
  AlertQuery, AlertTargets, alert_fanout, alert_targets, deliver_alert, if_authorized, no_targets,
  targets_are,
}
use express_botx.Server.Alerts.Grafana.{GrafanaWebhook, resolve_grafana_status}
use express_botx.Server.Config.{Config, Context}
use express_botx.Server.Send.{SendPayload}
use express_botx.Text.{Str, codes, elem, str_eq}
use express_botx.Text.Character.{single}

module _ {S : Type 0} (to_lower : Str → Str) (chats : Str → Result ChatResult) (cfg : Config)
    (ctx : Context) (gate : Option (Str → Str → S → Result (Unit {0}) × S))
    (send : SendPayload → S → Result Str × S) where
  -- The request ends with an error, and at most the check of its chats has touched the state.
  abbrev pub IsTurnedDown : AlertQuery → S → Reply × S → Type 0
  IsTurnedDown q s result =
      (400 ≤ result.0.status)
      × ((result.1 ≡ s)
          ⊎ ((targets : List Str) × (result.1
                ≡ (authorize_targets to_lower chats ctx cfg gate q.query_bot targets true s).1)))

  -- The targets of the query, or else the single chat, passed the check, and the result is that of
  -- the fan-out to them.
  abbrev pub IsFannedOut : AlertQuery → Str → Str → Str → S → Reply × S → Type 0
  IsFannedOut q single msg status s result =
      (targets : List Str) × (s' : S) × (alert_targets q.query_chat single ≡ targets_are targets)
      × (authorize_targets to_lower chats ctx cfg gate q.query_bot targets true s ≡ (none, s'))
      × (result ≡ alert_fanout to_lower chats cfg ctx gate send targets q.query_bot msg status s')

  abbrev deliver_to_targets : AlertQuery → Str → Str → AlertTargets → S → Reply × S
  deliver_to_targets = deliver_alert to_lower chats cfg ctx gate send

  alert_targets-status :
      (query : Option Str) (single : Str) (reply : Reply)
      → alert_targets query single ≡ no_targets reply
      → 400 ≤ reply.status
  alert_targets-status none single reply h = elim (Bool-cases (null single)) [
    | inl y ↦ unfold alert_targets in ground arith
    | inr n ↦ unfold alert_targets in ground arith
  ]
  alert_targets-status (some value) single reply h =
      elim (Bool-cases (null (parse_chat_ids value))) [
        | inl y ↦ unfold alert_targets in ground arith
        | inr n ↦ unfold alert_targets in ground arith
      ]

  pub deliver_alert-cases :
      (q : AlertQuery) (single msg status : Str) (s : S) (t : AlertTargets)
      → alert_targets q.query_chat single ≡ t
      → IsTurnedDown q s (deliver_to_targets q msg status t s)
        ⊎ IsFannedOut q single msg status s (deliver_to_targets q msg status t s)
  unfolding deliver_alert
  deliver_alert-cases q single msg status s (no_targets reply) e =
      inl (alert_targets-status q.query_chat single reply e, inl refl)
  deliver_alert-cases q single msg status s (targets_are targets) e =
      checked (authorize_targets to_lower chats ctx cfg gate q.query_bot targets true s) refl
        (authorize_targets-IsRefusal to_lower chats ctx cfg gate q.query_bot targets true s)
    where
      checked :
          (a : Option Reply × S)
          → authorize_targets to_lower chats ctx cfg gate q.query_bot targets true s ≡ a
          → IsRefusal a.0
          → (let result =
                if_authorized to_lower chats cfg ctx gate send
                  (alert_fanout to_lower chats cfg ctx gate send targets q.query_bot msg status)
                  a in
              IsTurnedDown q s result ⊎ IsFannedOut q single msg status s result)
      checked (some reply, s') f h = inl (h, inr (targets, sym (ap (λ z. z.1) f)))
      checked (none, s') f h = inr (targets, s', e, f, refl)

  -- Some alert is of a listed severity.
  abbrev pub AnySevere : List Str → List AlertItem → Type 0
  AnySevere severities [] = ⊥
  AnySevere severities (a ∷ alerts) =
      (elem (label_of a.labels (codes "severity")) severities ≡ true) ⊎ AnySevere severities alerts

  any_severe_iff :
      (severities : List Str) (alerts : List AlertItem)
      → (any_severe severities alerts ≡ true) ↔ AnySevere severities alerts
  unfolding any_severe
  any_severe_iff severities [] = (λ h. cc, λ n. absurd n)
  any_severe_iff severities (a ∷ alerts) =
      let (to, from) = any_severe_iff severities alerts in
      elim (Bool-cases (elem (label_of a.labels (codes "severity")) severities)) [
        | inl y ↦ (λ h. inl y, λ n. rw y refl)
        | inr k ↦ (
          λ h. inr (to (rw k at h)),
          λ n. elim n [ inl y ↦ cc | inr m ↦ (let z = from m in rw k z) ],
        )
      ]

  -- "error" for an alert of a listed severity that is not resolved, and otherwise "ok".
  abbrev pub IsStatusOf : Bool → Type 0 → Str → Type 0
  IsStatusOf is_resolved Severe status =
      ((status ≡ codes "error") × (is_resolved ≡ false) × Severe)
      ⊎ ((status ≡ codes "ok") × ((is_resolved ≡ true) ⊎ ¬ Severe))

  pub resolve_alert_status-IsStatusOf :
      (severities : List Str) (w : AlertmanagerWebhook)
      → IsStatusOf
          (str_eq w.webhook_status (codes "resolved"))
          (AnySevere severities w.alerts)
          (resolve_alert_status severities w)
  resolve_alert_status-IsStatusOf severities w =
      let (to, from) = any_severe_iff severities w.alerts in
      elim (Bool-cases (str_eq w.webhook_status (codes "resolved"))) [
        | inl y ↦ inr (unfold resolve_alert_status in ground arith, inl y)
        | inr n ↦ elim (Bool-cases (any_severe severities w.alerts)) [
          | inl y ↦ inl (unfold resolve_alert_status in ground arith, n, to y)
          | inr k ↦
              inr (unfold resolve_alert_status in ground arith, inr (λ m. (let z = from m in cc)))
        ]
      ]

  pub resolve_grafana_status-IsStatusOf :
      {A : Type 0} (states : List Str) (w : GrafanaWebhook A)
      → IsStatusOf
          (str_eq w.grafana_status (codes "resolved"))
          (elem w.alert_state states ≡ true)
          (resolve_grafana_status states w)
  resolve_grafana_status-IsStatusOf states w =
      elim (Bool-cases (str_eq w.grafana_status (codes "resolved"))) [
        | inl y ↦ inr (unfold resolve_grafana_status in ground arith, inl y)
        | inr n ↦ elim (Bool-cases (elem w.alert_state states)) [
          | inl y ↦ inl (unfold resolve_grafana_status in ground arith, n, y)
          | inr k ↦ inr (unfold resolve_grafana_status in ground arith, inr (λ m. cc))
        ]
      ]
