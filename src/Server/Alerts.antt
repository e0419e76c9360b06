-- ===== src/Server/Alerts.antt =====
-- The webhooks of Alertmanager, Grafana and IncidentRelay: handler_alertmanager.go, handler_grafana.go
-- and handler_incidentrelay.go of internal/server, which deliver a message in the same way.
pub mod Delivery
pub mod Alertmanager
pub mod Grafana
pub mod Laws
pub mod Sent
pub mod IncidentRelay
pub mod Incident
