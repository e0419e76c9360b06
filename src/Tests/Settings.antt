-- ===== src/Tests/Settings.antt =====
-- Two keys, one of them for the chat of an alias, and two bots with one id.
use express_botx.Common.{All, List, [], false, pos, refl, some, true, ◌↔◌, ◌∷◌, ◌≡◌}
use express_botx.Server.Access.{chat_allowed, is_uuid}
use express_botx.Server.Config.{get_key, key_map}
use express_botx.Settings.Bots.{
  BotConfig, BotRuntime, runtime_conflict, sorted_bots, validate_bot_ids,
}
use express_botx.Settings.Bots.Laws.{validate_bot_ids-Agrees}
use express_botx.Settings.Chats.{ChatConfig, resolve_chat_ref, sorted_map_keys}
use express_botx.Settings.Keys.{ApiKeyConfig, check_key_collisions, resolve_key_scope, scope_ids}
use express_botx.Settings.Keys.Laws.{OwnEntry, check_key_collisions-OwnEntry}
use express_botx.Settings.Keys.Scope.{Names, resolve_key_scope-Names}
use express_botx.Tests.Samples.{list_context, lower, ops, ops_key, ops_uuid, two_bots}
use express_botx.Text.{Str, codes}

abbrev chat_aliases : List (Str × ChatConfig)
chat_aliases = (ops, record { id = ops_uuid; bot = []; is_default = false }) ∷ []

abbrev ops_api_key : ApiKeyConfig
ops_api_key = record {
  name = codes "ci";
  key = codes "secret";
  chats = some (ops ∷ []);
  chats_where_member = false;
  allow_query_auth = false;
}

resolve_key_scope-Names_example :
    (chat_allowed lower list_context ops_uuid ≡ true) ↔ Names lower chat_aliases (ops ∷ []) ops_uuid
unfolding resolve_key_scope express_botx.Settings.Keys.scope_ids
    express_botx.Settings.Chats.resolve_chat_ref express_botx.Server.Access.is_uuid
resolve_key_scope-Names_example =
    resolve_key_scope-Names lower chat_aliases ops_api_key (ops ∷ []) (ops_uuid ∷ []) list_context
      ops_uuid refl refl refl refl

check_key_collisions-OwnEntry_example : All (OwnEntry lower (key_map lower two_bots)) (ops_key ∷ [])
unfolding check_key_collisions
check_key_collisions-OwnEntry_example = check_key_collisions-OwnEntry lower two_bots refl

abbrev one_runtime : BotRuntime
one_runtime = record {
  host = codes "h";
  secret = codes "s";
  token = [];
  timeout = pos 5;
  limit = 100;
  suffix = [];
}

abbrev two_aliases : List (Str × BotConfig)
two_aliases =
    (codes "a", record { id = codes "1"; runtime = one_runtime })
    ∷ (codes "b", record { id = codes "1"; runtime = one_runtime })
    ∷ []

validate_bot_ids-Agrees_example : one_runtime ≡ one_runtime
unfolding validate_bot_ids sorted_bots sorted_map_keys express_botx.Settings.Bots.runtime_conflict
    get_key
validate_bot_ids-Agrees_example =
    validate_bot_ids-Agrees two_aliases refl (codes "a") (codes "b")
      (record { id = codes "1"; runtime = one_runtime })
      (record { id = codes "1"; runtime = one_runtime }) refl refl refl (λ e. cc)
