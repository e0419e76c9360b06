-- ===== src/Server/Config.antt =====
-- The server's configuration and what a request's context carries.
use express_botx.Common.{
  Bool, List, Option, [], false, if◌then◌else◌, length, ltb, map, none, some, ℤ, ◌∷◌,
}
use express_botx.Text.{Str, str_eq}

pub record ResolvedKey : Type 0 where
  pub name : Str
  pub key : Str
  pub chats : List Str
  pub chats_where_member : Bool
  pub default_chat : Str
  pub allow_query_auth : Bool

pub record Config : Type 0 where
  pub keys : List ResolvedKey
  pub allow_bot_secret_auth : Bool
  pub bot_signatures : List (Str × Str)
  pub bot_names : List Str
  pub single_bot_name : Str
  pub default_chat_alias : Str
  pub async_mode : Bool
  pub default_routing_mode : Str
  pub max_file_size : ℤ

-- `context.Context`: each accessor gives the empty value for a key that is not set.
pub record Context : Type 0 where
  pub key_name : Str
  pub auth_bot : Str
  pub key_scope : List Str
  pub member_scope : Bool
  pub default_chat : Str
  pub query_key : Str

abbrev pub background : Context
background = record {
  key_name = [];
  auth_bot = [];
  key_scope = [];
  member_scope = false;
  default_chat = [];
  query_key = [];
}

-- The loop of `New` that fills `keyMap`, scopes in lower case: of two equal keys the later one
-- stays. The map is read from its newest entry.
unfoldable pub fill_keys :
    (Str → Str) → List (Str × ResolvedKey) → List ResolvedKey → List (Str × ResolvedKey)
fill_keys to_lower m [] = m
fill_keys to_lower m (k ∷ ks) =
    fill_keys to_lower ((k.key, record k { chats = map to_lower k.chats }) ∷ m) ks

unfoldable pub key_map : (Str → Str) → Config → List (Str × ResolvedKey)
unfolding fill_keys
key_map to_lower cfg = fill_keys to_lower [] cfg.keys

-- A read of a map with string keys.
unfoldable pub get_key {ℓ} : {V : Type ℓ} → List (Str × V) → Str → Option V
unfolding str_eq
get_key [] k = none
get_key ((j, v) ∷ m) k = if str_eq j k then some v else get_key m k

abbrev pub is_multi_bot : Config → Bool
is_multi_bot cfg = ltb 1 (length cfg.bot_names)
