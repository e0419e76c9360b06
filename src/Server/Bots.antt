-- ===== src/Server/Bots.antt =====
-- `resolveRequestBot` of internal/server/server.go: which bot sends.
use express_botx.Common.{
  List, [], arith, false, if◌then◌else◌, not, null, true, ◌&&◌, ◌++◌, ◌↔◌, ◌∷◌, ◌≡◌, ◌≢◌, ◌⊎◌,
}
use express_botx.Errors.{Result, fail, new_error, ok}
use express_botx.Server.Config.{Config, Context, is_multi_bot}
use express_botx.Text.{Str, codes, elem, str_eq}
use express_botx.Text.Equality.{str_eq_iff}

-- `%q`, for a text with nothing to escape.
abbrev pub quoted : Str → Str
quoted s = codes "\"" ++ (s ++ codes "\"")

join_names : List Str → Str
join_names [] = []
join_names (n ∷ []) = n
join_names (n ∷ m ∷ ns) = n ++ (codes ", " ++ join_names (m ∷ ns))

abbrev pub wanted_bot : Str → Str → Str
wanted_bot request_bot chat_bot = if null request_bot then chat_bot else request_bot

single_bot : Config → Str → Result Str
single_bot cfg wanted =
    if null wanted
    then ok []
    else if null cfg.single_bot_name
    then fail (
        new_error (
          codes "bot "
          ++ (quoted wanted
              ++ codes " is not available (server started without named bot config)")))
    else if not (str_eq wanted cfg.single_bot_name)
    then fail (
        new_error (
          codes "bot "
          ++ (quoted wanted
              ++ (codes " is not available, server is running as " ++ quoted cfg.single_bot_name))))
    else ok []

authenticated_bot : Str → Str → Result Str
authenticated_bot auth bot =
    if not (null bot) && not (str_eq bot auth)
    then fail (
        new_error (
          codes "bot "
          ++ (quoted bot ++ (codes " does not match authenticated bot " ++ quoted auth))))
    else ok auth

named_bot : Config → Str → Result Str
named_bot cfg bot =
    if null bot
    then fail (new_error (codes "bot is required, available: " ++ join_names cfg.bot_names))
    else if not (elem bot cfg.bot_names)
    then fail (
        new_error (
          codes "unknown bot "
          ++ (quoted bot ++ (codes ", available: " ++ join_names cfg.bot_names))))
    else ok bot

unfoldable pub resolve_request_bot : Config → Context → Str → Str → Result Str
unfolding single_bot authenticated_bot named_bot join_names
resolve_request_bot cfg ctx request_bot chat_bot =
    let wanted = wanted_bot request_bot chat_bot in
    if not (is_multi_bot cfg)
    then single_bot cfg wanted
    else if not (null ctx.auth_bot)
    then authenticated_bot ctx.auth_bot wanted
    else named_bot cfg wanted

single_bot_iff :
    (cfg : Config) (wanted bot : Str)
    → (single_bot cfg wanted ≡ ok bot)
      ↔ ((bot ≡ []) × ((wanted ≡ []) ⊎ ((wanted ≢ []) × (wanted ≡ cfg.single_bot_name))))
unfolding single_bot
single_bot_iff cfg [] bot = ground arith
single_bot_iff cfg (c ∷ w) bot = ground (arith, str_eq_iff (c ∷ w) cfg.single_bot_name)

authenticated_bot_iff :
    (auth wanted bot : Str)
    → (authenticated_bot auth wanted ≡ ok bot) ↔ ((bot ≡ auth) × ((wanted ≡ []) ⊎ (wanted ≡ auth)))
unfolding authenticated_bot
authenticated_bot_iff auth [] bot = ground arith
authenticated_bot_iff auth (c ∷ w) bot = ground (arith, str_eq_iff (c ∷ w) auth)

named_bot_iff :
    (cfg : Config) (wanted bot : Str)
    → (named_bot cfg wanted ≡ ok bot)
      ↔ ((bot ≡ wanted) × (wanted ≢ []) × (elem wanted cfg.bot_names ≡ true))
unfolding named_bot
named_bot_iff cfg [] bot = ground arith
named_bot_iff cfg (c ∷ w) bot = ground arith

-- The bot that a request ends up sending as.
abbrev pub SendsAs : Config → Context → Str → Str → Type 0
SendsAs cfg ctx wanted bot =
    ((is_multi_bot cfg ≡ false)
      × (bot ≡ [])
      × ((wanted ≡ []) ⊎ ((wanted ≢ []) × (wanted ≡ cfg.single_bot_name))))
    ⊎ ((is_multi_bot cfg ≡ true)
        × (ctx.auth_bot ≢ [])
        × (bot ≡ ctx.auth_bot)
        × ((wanted ≡ []) ⊎ (wanted ≡ ctx.auth_bot)))
    ⊎ ((is_multi_bot cfg ≡ true)
        × (ctx.auth_bot ≡ [])
        × (bot ≡ wanted)
        × (wanted ≢ [])
        × (elem wanted cfg.bot_names ≡ true))

-- A request sends as a bot exactly in these cases: in single-bot mode as the one bot, if none or
-- that one is asked for; with a bot signature as the bot of the signature, if none or that one is
-- asked for; else as the bot asked for, by the request or else by the chat, if it is configured.
pub resolve_request_bot_iff :
    (cfg : Config) (ctx : Context) (request_bot chat_bot bot : Str)
    → (resolve_request_bot cfg ctx request_bot chat_bot ≡ ok bot)
      ↔ SendsAs cfg ctx (wanted_bot request_bot chat_bot) bot
unfolding resolve_request_bot
resolve_request_bot_iff cfg ctx request_bot chat_bot bot =
    let wanted = wanted_bot request_bot chat_bot in
    ground (
      arith,
      single_bot_iff cfg wanted bot,
      authenticated_bot_iff ctx.auth_bot wanted bot,
      named_bot_iff cfg wanted bot,
    )
