-- ===== src/Worker/Prepare.antt =====
-- What `handleMessage` of internal/cmd/worker.go does with a message before it looks at the dry run:
-- the inline mentions are parsed, with the client resolver of internal/cmd/send.go, and the request
-- is built (`buildSendRequestFromWork`).
use express_botx.Botapi.Requests.{MentionCodec, SendRequest, build_send_request}
use express_botx.Common.{[], if◌then◌else◌, not, null, some, true, ℕ, ◌&&◌}
use express_botx.Errors.{GoError, Result, fail, is_error, ok, unauthorized, wrap_error}
use express_botx.Mentions.Parse.{MergeCodec, ParseResult, parse_mentions}
use express_botx.Mentions.Scan.{max_parsed_mentions}
use express_botx.Queue.Message.{FileAttachment, WorkMessage}
use express_botx.Text.{Str, codes}
use express_botx.Worker.Retry.{WorkerBot}

-- What the parsing of the mentions calls: ids, a token for a bot, the platform's lookup of a user by
-- an address with a token, unescaping and JSON.
pub record MentionCalls (S : Type 0) : Type 0 where
  pub new_mention_id : S → Str × S
  pub refresh_token : WorkerBot → S → Result Str × S
  pub find_user : WorkerBot → Str → Str → S → Result (Str × Str) × S
  pub query_unescape : Str → Result Str
  pub merge_codec : MergeCodec

module _ {S : Type 0} (calls : MentionCalls S) (bot : WorkerBot) where
  -- The second lookup, after a token that was refused, or the first error where there is no new one.
  abbrev second_lookup : Str → GoError → Str → Result Str × S → Result (Str × Str) × (S × Str)
  second_lookup address err token (fail e, s) = (fail err, (s, token))
  second_lookup address err token (ok fresh, s) =
      let (found, s') = calls.find_user bot fresh address s in (found, (s', fresh))

  abbrev looked_up : Str → Str → Result (Str × Str) × S → Result (Str × Str) × (S × Str)
  looked_up address token (ok user, s) = (ok user, (s, token))
  looked_up address token (fail err, s) =
      if is_error err unauthorized && not (null bot.bot_secret)
      then second_lookup address err token (calls.refresh_token bot s)
      else (fail err, (s, token))

  abbrev with_fresh_token : Str → Result Str × S → Result (Str × Str) × (S × Str)
  with_fresh_token address (fail e, s) =
      (fail (wrap_error (codes "authenticating for email lookup: ") e), (s, []))
  with_fresh_token address (ok token, s) =
      looked_up address token (calls.find_user bot token address s)

  -- `refreshableClientResolver.GetUserByEmail`. The token of the resolver's own client is the second
  -- part of the state.
  unfoldable pub resolver_lookup : Str → S × Str → Result (Str × Str) × (S × Str)
  resolver_lookup address (s, token) =
      if null token
      then with_fresh_token address (calls.refresh_token bot s)
      else looked_up address token (calls.find_user bot token address s)

  abbrev resolver_id : S × Str → Str × (S × Str)
  resolver_id (s, token) = let (id, s') = calls.new_mention_id s in (id, (s', token))

  abbrev with_parsed : WorkMessage → ParseResult × (S × Str) → WorkMessage × S
  with_parsed msg (r, (s, token)) = (
    record msg { payload = record msg.payload { message = r.message; mentions = r.mentions } },
    s,
  )

  -- The message with its mentions parsed. The resolver starts with the token of the worker's client,
  -- and that client keeps its own.
  unfoldable pub with_parsed_mentions : Str → WorkMessage → S → WorkMessage × S
  unfolding resolver_lookup
  with_parsed_mentions token msg s =
      if msg.payload.opts.no_parse
      then (msg, s)
      else with_parsed msg (
          parse_mentions resolver_id (some resolver_lookup) calls.query_unescape max_parsed_mentions
            msg.payload.message calls.merge_codec msg.payload.mentions true (s, token))

-- `buildSendRequestFromWork`
unfoldable pub request_from_work : MentionCodec → WorkMessage → ℕ → Str → SendRequest FileAttachment
request_from_work json msg limit suffix = build_send_request json (record {
  chat_id = msg.routing.chat_id;
  message = msg.payload.message;
  status = if null msg.payload.status then codes "ok" else msg.payload.status;
  file = msg.payload.file;
  metadata = msg.payload.metadata;
  mentions = msg.payload.mentions;
  silent = msg.payload.opts.silent;
  stealth = msg.payload.opts.stealth;
  force_dnd = msg.payload.opts.force_dnd;
  no_notify = msg.payload.opts.no_notify;
  max_message_length = limit;
  truncate_suffix = suffix;
})
