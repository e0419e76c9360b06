-- ===== src/Server/Middleware/Laws.antt =====
-- Who passes the authentication, and with what rights.
use express_botx.Common.{List, [], arith, false, inl, map, true, ◌++◌, ◌∷◌, ◌≡◌, ◌≢◌, ◌⊎◌}
use express_botx.MultiSend.Response.{Reply}
use express_botx.Server.Config.{Config, Context, ResolvedKey}
use express_botx.Server.Middleware.{
  Headers, auth_middleware, extract_key, key_context, refuse_request, request_key,
  signature_context,
}
use express_botx.Text.{Str}

-- The request carries a configured key: one that is not empty, in a header, or in the query where
-- the key allows that. It runs with the name and the rights of that very key.
abbrev pub ByKey : (Str → Str) → Config → Headers → Context → Context → Type 0
ByKey to_lower cfg h ctx ctx' =
    (before : List ResolvedKey) × (k : ResolvedKey) × (after : List ResolvedKey) × (cfg.keys
      ≡ before ++ k ∷ after)
    × (k.key ≡ (request_key h ctx).0)
    × (k.key ≢ [])
    × (((request_key h ctx).1 ≡ false) ⊎ (k.allow_query_auth ≡ true))
    × (ctx' ≡ key_context ctx (record k { chats = map to_lower k.chats }))

-- The request carries a configured bot signature, and such signatures are allowed.
abbrev pub BySignature : Config → Headers → Context → Context → Type 0
BySignature cfg h ctx ctx' =
    (before : List (Str × Str)) × (bot : Str) × (after : List (Str × Str))
    × (cfg.allow_bot_secret_auth ≡ true)
    × (cfg.bot_signatures ≡ before ++ (h.bot_signature, bot) ∷ after)
    × (h.bot_signature ≢ [])
    × (ctx' ≡ signature_context ctx bot)

-- A refused request is answered 401 if it carries neither a key in a header nor a signature, and
-- 403 otherwise.
pub auth_middleware_refuses :
    (to_lower : Str → Str) (cfg : Config) (h : Headers) (ctx : Context) (reply : Reply)
    → auth_middleware to_lower cfg h ctx ≡ inl reply
    → ((extract_key h ≡ []) × (h.bot_signature ≡ []) × (reply.status ≡ 401))
      ⊎ (((extract_key h ≢ []) ⊎ (h.bot_signature ≢ [])) × (reply.status ≡ 403))
unfolding auth_middleware refuse_request
auth_middleware_refuses to_lower cfg h ctx reply e = ground arith
