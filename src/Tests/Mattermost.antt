-- ===== src/Tests/Mattermost.antt =====
-- A post about a resolved incident, edited in the chat of its channel.
use express_botx.Common.{[], refl, ℕ, ◌+◌, ◌∷◌, ◌≡◌}
use express_botx.Errors.{Result, ok}
use express_botx.Server.Mattermost.Posts.{EditPayload}
use express_botx.Server.Mattermost.Render.{
  MattermostAttachment, MattermostConfig, MattermostField, MattermostPost, attachment_lines,
  mattermost_field_value, render_mattermost_post, string_field,
}
use express_botx.Tests.Samples.{lower, ops}
use express_botx.Text.{codes, join, trim_space}

abbrev status_field : MattermostField
status_field = record {
  field_title = codes "Status";
  field_value = string_field (codes "resolved");
}

abbrev incident : MattermostAttachment
incident = record {
  title = codes "Disk full";
  title_link = [];
  text = codes "on db1";
  fields = status_field ∷ [];
}

abbrev incident_post : MattermostPost
incident_post = record { channel_id = ops; message = []; attachments = incident ∷ [] }

abbrev severities_only : MattermostConfig
severities_only = record {
  default_chat_id = [];
  error_severities = codes "critical" ∷ [];
  warning_severities = codes "warning" ∷ [];
  icons = [];
  fallback_chat_id = [];
}

abbrev count_edit : EditPayload → ℕ → Result (Unit {0}) × ℕ
count_edit p n = (ok tt, n + 1)

incident_text :
    render_mattermost_post lower severities_only incident_post
    ≡ codes "Disk full\non db1\nStatus: resolved"
unfolding render_mattermost_post attachment_lines mattermost_field_value trim_space join
incident_text = refl
