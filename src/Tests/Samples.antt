-- ===== src/Tests/Samples.antt =====
-- Test data: a server with two bots, two chats, one of them under the alias "ops".
use express_botx.Common.{[], false, if◌then◌else◌, pos, true, ◌∷◌}
use express_botx.Errors.{ChatResult, GoError, Result, access_denied, fail, ok, unauthorized}
use express_botx.Server.Config.{Config, Context, ResolvedKey, background}
use express_botx.Text.{Str, codes, str_eq}

abbrev pub lower : Str → Str
lower s = s

abbrev pub ops_uuid : Str
ops_uuid = codes "11111111-2222-3333-4444-555555555555"

abbrev pub dev_uuid : Str
dev_uuid = codes "aaaaaaaa-bbbb-cccc-dddd-eeeeeeeeeeee"

abbrev pub ops : Str
ops = codes "ops"

abbrev pub chat_found : Str → Str → Result ChatResult
chat_found uuid name = ok (record { chat_id = uuid; bot = name })

-- The alias, and the two chats under their own UUIDs.
abbrev pub directory : Str → Result ChatResult
directory ref =
    if str_eq ref ops
    then chat_found ops_uuid (codes "alerts")
    else if str_eq ref ops_uuid
    then chat_found ops_uuid []
    else if str_eq ref dev_uuid
    then chat_found dev_uuid []
    else fail (record { message = codes "unknown chat alias"; wraps = [] })

abbrev pub ops_key : ResolvedKey
ops_key = record {
  name = codes "ci";
  key = codes "secret";
  chats = ops_uuid ∷ [];
  chats_where_member = false;
  default_chat = [];
  allow_query_auth = false;
}

abbrev pub two_bots : Config
two_bots = record {
  keys = ops_key ∷ [];
  allow_bot_secret_auth = true;
  bot_signatures = (codes "SIG", codes "alerts") ∷ [];
  bot_names = codes "alerts" ∷ codes "builds" ∷ [];
  single_bot_name = [];
  default_chat_alias = [];
  async_mode = false;
  default_routing_mode = [];
  max_file_size = pos 0;
}

abbrev pub list_context : Context
list_context = record background { key_name = codes "ci"; key_scope = ops_uuid ∷ [] }

abbrev pub member_context : Context
member_context = record background { key_name = codes "ci"; member_scope = true }

abbrev pub denied_error : GoError
denied_error = record { message = codes "refused"; wraps = access_denied ∷ [] }

abbrev pub rejected_401 : GoError
rejected_401 = record { message = codes "401"; wraps = unauthorized ∷ [] }
