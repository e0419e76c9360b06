-- ===== src/Worker/Handle.antt =====
-- `handleMessage` of internal/cmd/worker.go, around the attempts.
pub mod Laws
use express_botx.Botapi.Requests.{MentionCodec, SendRequest}
use express_botx.Common.{Bool, List, Option, [], if◌then◌else◌, none, null, some, ℕ, ◌++◌, ◌∷◌}
use express_botx.Errors.{GoError, Result, fail, ok}
use express_botx.Queue.Message.{FileAttachment, WorkMessage, WorkResult}
use express_botx.Server.Bots.{quoted}
use express_botx.Server.Config.{get_key}
use express_botx.Text.{Str, codes, str_eq}
use express_botx.Worker.Prepare.{MentionCalls, request_from_work, with_parsed_mentions}
use express_botx.Worker.Retry.{Outcome, WorkerBot, context_ended, finished, send_with_retry}

-- A bot of the configuration, with the limit and the suffix that `BotDeliveryPolicy` gives for it.
pub record WorkerBotConfig : Type 0 where
  pub id : Str
  pub bot : WorkerBot
  pub limit : ℕ
  pub suffix : Str

-- What the queue's driver is told: done, a failure that it may dead-letter, or the end of the
-- context.
pub data Ack : Type 0 where
  acked : Ack
  nacked : GoError → Ack
  interrupted : Ack

-- The clients' tokens by bot ID (`w.clients`), and the results published.
pub record WorkerState (S : Type 0) : Type 0 where
  pub tokens : List (Str × Str)
  pub published : List (Str × WorkResult)
  pub state : S

unfoldable pub publish_result :
    {S : Type 0} → WorkMessage → Str → Str → Str → WorkerState S → WorkerState S
publish_result msg status sync_id err_msg w = if null msg.reply_to then w else record w {
  published =
      w.published
      ++ (
        msg.reply_to,
        record { request_id = msg.request_id; status = status; sync_id = sync_id; error = err_msg },
      )
        ∷ [];
}

-- `BotByID`: bots that share an ID agree in all that is used of them, so that the order of the map
-- plays no part.
unfoldable pub bot_by_id : List WorkerBotConfig → Str → Option WorkerBotConfig
unfolding str_eq
bot_by_id [] bot_id = none
bot_by_id (b ∷ bots) bot_id = if str_eq b.id bot_id then some b else bot_by_id bots bot_id

-- `getOrCreateClient`: the token that the bot's client holds, empty for a new client.
unfoldable pub client_token : List (Str × Str) → Str → Str
unfolding get_key
client_token tokens bot_id = elim (get_key tokens bot_id) [ none ↦ [] | some token ↦ token ]

module _ {S : Type 0} (bots : List WorkerBotConfig) (dry_run : Bool) (retry_count : ℕ)
    (calls : MentionCalls S) (json : MentionCodec) (authenticate : WorkerBot → S → Result Str × S)
    (send : SendRequest FileAttachment → WorkerBot → Str → S → Result Str × S) where
  -- What follows the loop: the result is published, and the driver told.
  unfoldable pub conclude : WorkMessage → Outcome → WorkerState S → Ack × WorkerState S
  conclude msg (finished (ok sync)) w = (acked, publish_result msg (codes "sent") sync [] w)
  conclude msg (finished (fail e)) w =
      (nacked e, publish_result msg (codes "failed") [] e.message w)
  conclude msg context_ended w = (interrupted, w)

  unfoldable pub deliver :
      (ℕ → Bool)
      → WorkMessage
      → WorkerBotConfig
      → SendRequest FileAttachment
      → WorkerState S
      → Ack × WorkerState S
  deliver cancelled msg b request w =
      let (outcome, token, s) =
        send_with_retry (authenticate b.bot) (send request b.bot) b.bot cancelled retry_count
          (client_token w.tokens msg.routing.bot_id) w.state in
      conclude msg outcome (record w { tokens = (msg.routing.bot_id, token) ∷ w.tokens; state = s })

  -- The message and the state after the mentions were parsed, with the client's token.
  abbrev pub parsed_for : WorkerBotConfig → WorkMessage → WorkerState S → WorkMessage × S
  parsed_for b msg w =
      with_parsed_mentions calls b.bot (client_token w.tokens msg.routing.bot_id) msg w.state

  -- The parsing changes the payload alone, so that the result is published by the message as it came.
  unfoldable pub handle_message : (ℕ → Bool) → WorkMessage → WorkerState S → Ack × WorkerState S
  handle_message cancelled msg w = elim (bot_by_id bots msg.routing.bot_id) [
    | none ↦ (
      acked,
      publish_result msg (codes "failed") [] (codes "unknown bot_id " ++ quoted msg.routing.bot_id)
          w,
    )
    | some b ↦
        let (parsed, s) = parsed_for b msg w in
        let w' = record w { state = s } in
        if dry_run
        then (acked, publish_result msg (codes "dry-run") [] [] w')
        else deliver cancelled msg b (request_from_work json parsed b.limit b.suffix) w'
  ]
