-- ===== src/Server/PlainSend/Handler/Laws.antt =====
-- When a message is sent, and what a refusal says.
use express_botx.Common.{All, Bool, List, Option, [], false, none, not, true, ◌≡◌, ◌≢◌, ◌≤◌, ◌⊎◌}
use express_botx.Errors.{ChatResult, Result}
use express_botx.MultiSend.ChatIds.{parse_chat_ids}
use express_botx.MultiSend.Fanout.{fanout}
use express_botx.MultiSend.Response.{Reply}
use express_botx.Server.Access.{authorize_targets}
use express_botx.Server.Config.{Config, Context}
use express_botx.Server.PlainSend.Handler.{
  MentionService, after_authorization, async_reply, deliver_async, deliver_sync, enqueue_all,
  is_oversized, send_prepared, sync_reply,
}
use express_botx.Server.PlainSend.Routing.{routing_mode_of, validate_async_routing}
use express_botx.Server.Send.{SendPayload}
use express_botx.Text.{Str}

module _ {S : Type 0} (chats : Str → Result ChatResult) (cfg : Config) (ctx : Context)
    (send : SendPayload → S → Result Str × S) where
  -- One queued message for each of the targets, all of them routable, and the answer for them.
  abbrev pub Enqueues : SendPayload → List Str → S → Reply × S → Type 0
  Enqueues p targets s result =
      All
        (λ chat.
          validate_async_routing (routing_mode_of p.routing_mode cfg.default_routing_mode) p.bot_id
            p.bot chat
          ≡ [])
        targets
      × (is_oversized cfg p ≡ false)
      × (result
          ≡ async_reply chats cfg ctx send targets
              (fanout (deliver_async chats cfg ctx send p) targets (s, 0)))

  abbrev pub Declines : S → Reply × S → Type 0
  Declines s result = (400 ≤ result.0.status) × (result.1 ≡ s)

  module _ (to_lower : Str → Str) (gate : Option (Str → Str → S → Result (Unit {0}) × S))
      (service : MentionService S) (no_parse : Bool) where
    abbrev authorized : SendPayload → S → Option Reply × S
    authorized p s =
        authorize_targets to_lower chats ctx cfg gate p.bot (parse_chat_ids p.chat_id)
          (not cfg.async_mode) s

    -- The request ends with an error, and nothing but the check of the chats has touched the state.
    abbrev pub IsDeclined : SendPayload → S → Reply × S → Type 0
    IsDeclined p s result =
        (400 ≤ result.0.status) × ((result.1 ≡ s) ⊎ (result.1 ≡ (authorized p s).1))

    -- The chats are not empty and may be written to; the result is that of their deliveries.
    abbrev pub Delivers : SendPayload → S → Reply × S → Type 0
    Delivers p s result =
        (s' : S) × (parse_chat_ids p.chat_id ≢ [])
        × (authorized p s ≡ (none, s'))
        × (((cfg.async_mode ≡ false)
              × (result
                  ≡ sync_reply chats cfg ctx send (
                      fanout (deliver_sync chats cfg ctx send service p no_parse)
                        (parse_chat_ids p.chat_id) s')))
            ⊎ ((cfg.async_mode ≡ true)
                × Enqueues (record p { no_parse = no_parse }) (parse_chat_ids p.chat_id) s' result))

    abbrev prepared : SendPayload → S → Reply × S
    prepared = send_prepared chats cfg ctx send to_lower gate service no_parse

    abbrev going : (S → Reply × S) → Option Reply × S → Reply × S
    going = after_authorization chats cfg ctx send to_lower gate service no_parse

    abbrev async_go : SendPayload → S → Reply × S
    async_go p =
        enqueue_all chats cfg ctx send (record p { no_parse = no_parse }) (parse_chat_ids p.chat_id)

    abbrev sync_go : SendPayload → S → Reply × S
    sync_go p s' =
        sync_reply chats cfg ctx send (
          fanout (deliver_sync chats cfg ctx send service p no_parse) (parse_chat_ids p.chat_id) s')
