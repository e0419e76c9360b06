-- ===== src/Server/PlainSend/Handler.antt =====
-- The two ways of sending, and `handleSend` around them. Sending, looking users up, drawing ids and
-- checking memberships change a state `S`.
pub mod Laws
pub mod Denial
use express_botx.Common.{
  Bool, List, Option, [], above, false, if◌then◌else◌, length, ltb, none, not, null, pos, some,
  true, zero, ℕ, ℤ, ◌&&◌, ◌*◌, ◌++◌, ◌+◌, ◌/◌, ◌==◌, ◌||◌, ◌∷◌,
}
use express_botx.Errors.{
  ChatResult, GoError, Result, chat_not_allowed, chat_unresolved, fail, is_error, ok,
}
use express_botx.Mentions.Parse.{MergeCodec, parse_mentions}
use express_botx.Mentions.Scan.{max_parsed_mentions}
use express_botx.MultiSend.ChatIds.{parse_chat_ids}
use express_botx.MultiSend.Fanout.{Fanout, SendResult, fanout}
use express_botx.MultiSend.Response.{Reply, write_error, write_multi_send}
use express_botx.Server.Access.{
  authorize_targets, default_send_chat, forbidden, sanitize_errors, scoped,
}
use express_botx.Server.Bots.{resolve_request_bot}
use express_botx.Server.Config.{Config, Context, get_key}
use express_botx.Server.PlainSend.Form.{FormCodec}
use express_botx.Server.PlainSend.Prepare.{
  PlainRequest, Prepared, read_request, to_send, turned_down,
}
use express_botx.Server.PlainSend.Routing.{routing_error, routing_mode_of}
use express_botx.Server.Send.{SendPayload, sent_to}
use express_botx.Text.{Str, codes, decimal, str_eq}

-- What the parsing of inline mentions needs: ids, the lookup of users (the server's own, or that of
-- a bot), unescaping and JSON. `Parse` goes to the lookup that `resolver_for` picks.
pub record MentionService (S : Type 0) : Type 0 where
  pub new_mention_id : S → Str × S
  pub mentions_resolver : Option (Str → S → Result (Str × Str) × S)
  pub bot_mentions_resolvers : List (Str × Option (Str → S → Result (Str × Str) × S))
  pub query_unescape : Str → Result Str
  pub merge_codec : MergeCodec

unfoldable pub resolver_for :
    {S : Type 0} → MentionService S → Str → Option (Str → S → Result (Str × Str) × S)
unfolding get_key
resolver_for service bot =
    if null bot
    then service.mentions_resolver
    else elim (get_key service.bot_mentions_resolvers bot) [
      | none ↦ service.mentions_resolver
      | some resolver ↦ resolver
    ]

-- The length of a text in UTF-8.
abbrev utf8_width : ℕ → ℕ
utf8_width c = if ltb c 128 then 1 else if ltb c 2048 then 2 else if ltb c 65536 then 3 else 4

unfoldable pub byte_length : Str → ℕ
byte_length [] = 0
byte_length (c ∷ s) = utf8_width c + byte_length s

-- `maxSize` of the source.
abbrev max_size : ℤ → ℤ
max_size (pos zero) = pos 1048576
max_size n = n

unfoldable pub is_oversized : Config → SendPayload → Bool
unfolding above byte_length
is_oversized cfg p = elim p.file [
  | none ↦ false
  | some f ↦ above (byte_length f.data_base64 * 3 / 4) (max_size cfg.max_file_size)
]

unfoldable pub too_large : Config → Reply
unfolding decimal
too_large cfg = write_error 413 (
    codes "file size exceeds queue limit of "
    ++ (decimal (max_size cfg.max_file_size)
        ++ codes " bytes; use synchronous /send or increase queue.max_file_size"))

module _ {S : Type 0} (chats : Str → Result ChatResult) (cfg : Config) (ctx : Context)
    (send : SendPayload → S → Result Str × S) where
  -- One delivery of the synchronous mode.
  unfoldable pub deliver_sync :
      MentionService S → SendPayload → Bool → Str → S → Result SendResult × S
  deliver_sync service p no_parse chat s = elim (chats chat) [
    | fail err ↦ (fail err, s)
    | ok found ↦ elim (resolve_request_bot cfg ctx p.bot found.bot) [
      | fail err ↦ (fail err, s)
      | ok name ↦
          let (parsed, s') =
            parse_mentions service.new_mention_id (resolver_for service name) service.query_unescape
              max_parsed_mentions p.message service.merge_codec p.mentions (not no_parse) s in
          sent_to chats cfg ctx send chat (
            send
              (record p {
                chat_id = found.chat_id;
                bot = name;
                message = parsed.message;
                mentions = parsed.mentions;
              })
              s')
    ]
  ]

  -- A refusal that is one of authorization.
  abbrev pub is_denial : GoError → Bool
  is_denial e = is_error e chat_not_allowed || (is_error e chat_unresolved && scoped ctx)

  -- What one enqueue gives; the second number counts the denials.
  abbrev pub queued_to : Str → ℕ → Result Str × S → Result SendResult × (S × ℕ)
  queued_to chat denied (fail e, s) = (fail e, (s, if is_denial e then denied + 1 else denied))
  queued_to chat denied (ok request, s) =
      (ok (record { chat = chat; sync_id = []; request_id = request; queued = true }), (s, denied))

  unfoldable pub deliver_async : SendPayload → Str → S × ℕ → Result SendResult × (S × ℕ)
  deliver_async p chat (s, denied) = queued_to chat denied (send (record p { chat_id = chat }) s)

  unfoldable pub async_reply : List Str → Fanout (S × ℕ) → Reply × S
  async_reply targets f = (
    (if null f.results && f.state.1 == length targets
        then forbidden
        else write_multi_send f.results (sanitize_errors ctx f.errs) 202),
    f.state.0,
  )

  unfoldable pub sync_reply : Fanout S → Reply × S
  sync_reply f = (write_multi_send f.results (sanitize_errors ctx f.errs) 200, f.state)

  -- The asynchronous mode once the targets may be written to.
  unfoldable pub enqueue_all : SendPayload → List Str → S → Reply × S
  unfolding too_large
  enqueue_all p targets s =
      let msg =
        routing_error (routing_mode_of p.routing_mode cfg.default_routing_mode) p.bot_id p.bot
          targets in
      if not (null msg)
      then (write_error 400 msg, s)
      else if is_oversized cfg p
      then (too_large cfg, s)
      else async_reply targets (fanout (deliver_async p) targets (s, 0))

  module _ (to_lower : Str → Str) (gate : Option (Str → Str → S → Result (Unit {0}) × S))
      (service : MentionService S) (no_parse : Bool) where
    abbrev pub after_authorization : (S → Reply × S) → Option Reply × S → Reply × S
    after_authorization go (some reply, s) = (reply, s)
    after_authorization go (none, s) = go s

    -- The mode's branch: the targets, the authorization, the deliveries.
    unfoldable pub send_prepared : SendPayload → S → Reply × S
    send_prepared p s =
        let targets = parse_chat_ids p.chat_id in
        if null targets
        then (write_error 400 (codes "chat_id is required"), s)
        else if cfg.async_mode
        then after_authorization (enqueue_all (record p { no_parse = no_parse }) targets)
            (authorize_targets to_lower chats ctx cfg gate p.bot targets false s)
        else after_authorization
            (λ s'. sync_reply (fanout (deliver_sync service p no_parse) targets s'))
            (authorize_targets to_lower chats ctx cfg gate p.bot targets true s)

    unfoldable pub handle_prepared : Prepared → S → Reply × S
    handle_prepared (turned_down reply) s = (reply, s)
    handle_prepared (to_send p) s = send_prepared p s

-- `handleSend`
unfoldable pub handle_send :
    {S : Type 0} (chats : Str → Result ChatResult) (cfg : Config) (ctx : Context)
    (send : SendPayload → S → Result Str × S) (to_lower : Str → Str)
    (gate : Option (Str → Str → S → Result (Unit {0}) × S)) (service : MentionService S)
    (json : FormCodec)
    → PlainRequest
    → S
    → Reply × S
handle_send chats cfg ctx send to_lower gate service json r s =
    handle_prepared chats cfg ctx send to_lower gate service
      (str_eq r.query_no_parse (codes "true"))
      (read_request (default_send_chat to_lower chats cfg ctx) json r) s
