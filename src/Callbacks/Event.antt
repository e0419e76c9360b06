-- ===== src/Callbacks/Event.antt =====
-- `parseEventType` of internal/server/callback.go.
use express_botx.Common.{List, Option, [], drop, if◌then◌else◌, length, none, some, ◌∷◌}
use express_botx.Server.Config.{get_key}
use express_botx.Text.{Str, codes, has_prefix}

-- `systemEventMap`, whose values are its keys without the prefix "system:".
abbrev system_events : List (Str × Str)
system_events =
    (codes "system:chat_created", codes "chat_created")
    ∷ (codes "system:added_to_chat", codes "added_to_chat")
    ∷ (codes "system:user_joined_to_chat", codes "user_joined_to_chat")
    ∷ (codes "system:deleted_from_chat", codes "deleted_from_chat")
    ∷ (codes "system:left_from_chat", codes "left_from_chat")
    ∷ (codes "system:chat_deleted_by_user", codes "chat_deleted_by_user")
    ∷ (codes "system:cts_login", codes "cts_login")
    ∷ (codes "system:cts_logout", codes "cts_logout")
    ∷ (codes "system:event_edit", codes "event_edit")
    ∷ (codes "system:smartapp_event", codes "smartapp_event")
    ∷ (codes "system:internal_bot_notification", codes "internal_bot_notification")
    ∷ (codes "system:conference_created", codes "conference_created")
    ∷ (codes "system:conference_deleted", codes "conference_deleted")
    ∷ (codes "system:call_started", codes "call_started")
    ∷ (codes "system:call_ended", codes "call_ended")
    ∷ []

abbrev system_prefix : Str
system_prefix = codes "system:"

abbrev pub event_message : Str
event_message = codes "message"

abbrev pub event_notification : Str
event_notification = codes "notification_callback"

system_event : Option Str → Str → Str
system_event (some ev) command_body = ev
system_event none command_body = drop (length system_prefix) command_body

unfoldable pub parse_event_type : Str → Str
unfolding system_event get_key has_prefix
parse_event_type command_body =
    if has_prefix command_body system_prefix
    then system_event (get_key system_events command_body) command_body
    else event_message
