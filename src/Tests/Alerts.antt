-- ===== src/Tests/Alerts.antt =====
-- One alert of Alertmanager, one of Grafana, for the chat of the query.
use express_botx.Common.{[], some, ℕ, ◌+◌, ◌∷◌}
use express_botx.Errors.{Result, ok}
use express_botx.Server.Alerts.Alertmanager.{AlertItem, AlertmanagerConfig, AlertmanagerWebhook}
use express_botx.Server.Alerts.Delivery.{AlertQuery}
use express_botx.Server.Send.{SendPayload}
use express_botx.Tests.Samples.{ops}
use express_botx.Text.{Str, codes}

abbrev ops_query : AlertQuery
ops_query = record { query_chat = some ops; query_bot = codes "alerts" }

abbrev disk_alert : AlertItem
disk_alert = record {
  alert_status = codes "firing";
  labels = (codes "severity", codes "critical") ∷ [];
  annotations = [];
  generator_url = [];
}

abbrev firing : AlertmanagerWebhook
firing = record {
  version = codes "4";
  group_key = [];
  webhook_status = codes "firing";
  receiver = [];
  group_labels = [];
  common_labels = [];
  common_annotations = [];
  external_url = [];
  alerts = disk_alert ∷ [];
}

abbrev critical_only : AlertmanagerConfig
critical_only = record {
  default_chat_id = [];
  error_severities = codes "critical" ∷ [];
  template = λ w. ok (codes "disk full");
  fallback_chat_id = [];
}

abbrev count_alert : SendPayload → ℕ → Result Str × ℕ
count_alert p n = (ok (codes "sync"), n + 1)
