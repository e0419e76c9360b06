-- ===== src/Server/PlainSend/Routing.antt =====
-- `validateAsyncRouting`, and the routing mode that applies.
pub mod Laws
use express_botx.Common.{List, [], if◌then◌else◌, not, null, ◌&&◌, ◌++◌, ◌∷◌}
use express_botx.Server.Access.{is_uuid}
use express_botx.Server.Bots.{quoted}
use express_botx.Text.{Str, codes, str_eq}

-- The empty text says that the chat is acceptable.
unfoldable pub validate_async_routing : Str → Str → Str → Str → Str
validate_async_routing rm bot_id bot_alias chat =
    if str_eq rm (codes "catalog")
    then (if (null bot_id && null bot_alias) && is_uuid chat
        then codes
            "bot_id or bot alias is required when chat_id is a UUID in catalog mode; use a chat alias with a catalog-bound bot, or provide bot_id/bot"
        else [])
    else if str_eq rm (codes "mixed")
    then (if (null bot_id && null bot_alias) && is_uuid chat
        then codes
            "bot_id or bot alias is required when chat_id is a UUID in mixed mode; provide bot_id for direct routing or bot alias for catalog resolution"
        else [])
    else if str_eq rm (codes "direct")
    then (if null bot_id
        then codes "bot_id is required for async direct mode"
        else if not (is_uuid bot_id)
        then codes "bot_id must be a valid UUID for direct routing mode"
        else if not (is_uuid chat)
        then codes
            "chat_id must be a valid UUID for direct routing mode; use catalog or mixed mode for alias resolution"
        else [])
    else codes "invalid routing_mode " ++ (quoted rm ++ codes ": must be direct, catalog, or mixed")

unfoldable pub routing_mode_of : Str → Str → Str
routing_mode_of requested default =
    if not (null requested) then requested else if null default then codes "mixed" else default

-- The loop over the targets: the first message that is not empty.
unfoldable pub routing_error : Str → Str → Str → List Str → Str
unfolding validate_async_routing
routing_error rm bot_id bot_alias [] = []
routing_error rm bot_id bot_alias (chat ∷ targets) =
    let msg = validate_async_routing rm bot_id bot_alias chat in
    let rest = routing_error rm bot_id bot_alias targets in if null msg then rest else msg
