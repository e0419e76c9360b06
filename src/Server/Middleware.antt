-- ===== src/Server/Middleware.antt =====
-- `authMiddleware` and the readers of the request's credentials (internal/server/auth.go), and
-- `stripQueryKey` of internal/server/query_key.go.
pub mod Laws
use express_botx.Common.{
  Bool, List, Option, [], drop, false, if◌then◌else◌, inl, inr, length, ltb, none, not, null, some,
  true, ◌&&◌, ◌||◌, ◌∷◌, ◌⊎◌,
}
use express_botx.MultiSend.Response.{Reply, write_error}
use express_botx.Server.Config.{Config, Context, ResolvedKey, get_key, key_map}
use express_botx.Text.{Str, codes, has_prefix, is_some, str_eq}

-- What the source reads of a request: the headers, present or not.
pub record Headers : Type 0 where
  pub authorization : Option Str
  pub api_key : Option Str
  pub bot_signature : Str

-- `Header.Get`
abbrev pub header_value : Option Str → Str
header_value none = []
header_value (some v) = v

abbrev pub bearer : Str
bearer = codes "Bearer "

unfoldable pub extract_key : Headers → Str
extract_key h =
    let auth = header_value h.authorization in
    if not (null auth) && has_prefix auth bearer
    then drop (length bearer) auth
    else header_value h.api_key

unfoldable pub has_auth_header : Headers → Bool
has_auth_header h = is_some h.authorization || is_some h.api_key

-- The key, and whether it came by the query.
unfoldable pub request_key : Headers → Context → Str × Bool
unfolding extract_key has_auth_header
request_key h ctx =
    let key = extract_key h in
    if not (null key)
    then (key, false)
    else if has_auth_header h
    then ([], false)
    else (ctx.query_key, true)

-- The loop over the signatures: the first equal one gives its bot.
unfoldable pub match_signature : List (Str × Str) → Str → Option Str
unfolding str_eq
match_signature [] sig = none
match_signature ((expected, bot) ∷ rest) sig =
    if str_eq sig expected then some bot else match_signature rest sig

abbrev pub key_context : Context → ResolvedKey → Context
key_context ctx rk = record ctx {
  key_name = rk.name;
  key_scope = if ltb 0 (length rk.chats) then rk.chats else ctx.key_scope;
  member_scope = if rk.chats_where_member then true else ctx.member_scope;
  default_chat = if not (null rk.default_chat) then rk.default_chat else ctx.default_chat;
}

abbrev pub signature_context : Context → Str → Context
signature_context ctx bot = record ctx {
  key_name = codes "bot_secret";
  auth_bot = if not (null bot) then bot else ctx.auth_bot;
}

unfoldable pub try_key : List (Str × ResolvedKey) → Headers → Context → Option Context
try_key keys h ctx =
    let (key, via_query) = request_key h ctx in
    if null key then none else elim (get_key keys key) [
      | none ↦ none
      | some rk ↦ if not via_query || rk.allow_query_auth then some (key_context ctx rk) else none
    ]

unfoldable pub try_signature : Config → Headers → Context → Option Context
unfolding match_signature
try_signature cfg h ctx =
    if cfg.allow_bot_secret_auth && ltb 0 (length cfg.bot_signatures) && not (null h.bot_signature)
    then elim (match_signature cfg.bot_signatures h.bot_signature) [
      | none ↦ none
      | some bot ↦ some (signature_context ctx bot)
    ]
    else none

refuse_request : Headers → Reply
refuse_request h =
    if null (extract_key h) && null h.bot_signature
    then write_error 401 (codes "unauthorized")
    else write_error 403 (codes "forbidden")

-- The answer, or the context that the next handler runs with.
unfoldable pub auth_middleware : (Str → Str) → Config → Headers → Context → Reply ⊎ Context
unfolding try_key try_signature refuse_request key_map extract_key request_key get_key
auth_middleware to_lower cfg h ctx = elim (try_key (key_map to_lower cfg) h ctx) [
  | some ctx' ↦ inr ctx'
  | none ↦ elim (try_signature cfg h ctx) [ some ctx' ↦ inr ctx' | none ↦ inl (refuse_request h) ]
]

-- `stripQueryKey`: the key that the next handler sees, from the outcome of `url.ParseQuery` and the
-- values of `api_key`.
unfoldable pub strip_query_key : Bool → List Str → Context → Context
strip_query_key parsed (key ∷ []) ctx =
    if parsed && not (null key) then record ctx { query_key = key } else ctx
strip_query_key parsed values ctx = ctx
