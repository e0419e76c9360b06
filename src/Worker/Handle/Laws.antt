-- ===== src/Worker/Handle/Laws.antt =====
-- What the worker publishes and tells its queue agrees with what happened.
use express_botx.Botapi.Requests.{MentionCodec, SendRequest}
use express_botx.Common.{
  Bool, Bool-cases, List, Option-cases, [], arith, false, inl, inr, none, null, refl, some, subst,
  sym, true, ℕ, ◌++◌, ◌∙◌, ◌∷◌, ◌≡◌, ◌≢◌, ◌⊎◌,
}
use express_botx.Errors.{Result, fail, ok}
use express_botx.Queue.Message.{FileAttachment, WorkMessage, WorkResult}
use express_botx.Server.Bots.{quoted}
use express_botx.Text.{Str, codes}
use express_botx.Worker.Handle.{
  Ack, WorkerBotConfig, WorkerState, acked, bot_by_id, client_token, conclude, deliver,
  handle_message, interrupted, nacked, parsed_for, publish_result,
}
use express_botx.Worker.Prepare.{MentionCalls, request_from_work}
use express_botx.Worker.Retry.{Outcome, WorkerBot, context_ended, finished, send_with_retry}
use express_botx.Worker.Retry.Laws.{WasSent, send_with_retry-WasSent}

-- What stands in the queue of replies before and after: one more result, if a reply is wanted.
abbrev pub Published :
    WorkMessage → Str → Str → Str → List (Str × WorkResult) → List (Str × WorkResult) → Type 0
Published msg status sync_id err_msg before after =
    ((msg.reply_to ≡ []) × (after ≡ before))
    ⊎ ((msg.reply_to ≢ [])
        × (after
            ≡ before
              ++ (
                msg.reply_to,
                record {
                  request_id = msg.request_id;
                  status = status;
                  sync_id = sync_id;
                  error = err_msg;
                },
              )
                ∷ []))

publish_result-Published :
    {S : Type 0} (msg : WorkMessage) (status sync_id err_msg : Str) (w : WorkerState S)
    → Published msg status sync_id err_msg w.published
        (publish_result msg status sync_id err_msg w).published
      × ((publish_result msg status sync_id err_msg w).state ≡ w.state)
unfolding publish_result
publish_result-Published msg status sync_id err_msg w = elim (Bool-cases (null msg.reply_to)) [
  | inl y ↦ rw y (inl (ground arith, refl), refl)
  | inr n ↦ rw n (inr ((λ z. ground arith), refl), refl)
]

module _ {S : Type 0} (bots : List WorkerBotConfig) (dry_run : Bool) (retry_count : ℕ)
    (calls : MentionCalls S) (json : MentionCodec) (authenticate : WorkerBot → S → Result Str × S)
    (send : SendRequest FileAttachment → WorkerBot → Str → S → Result Str × S)
    (cancelled : ℕ → Bool) (msg : WorkMessage) (w : WorkerState S) where
  -- The message with its mentions parsed for the bot, and the state that leaves.
  abbrev parsed : WorkerBotConfig → WorkMessage × S
  parsed b = parsed_for bots dry_run retry_count calls json authenticate send b msg w

  abbrev request_for : WorkerBotConfig → SendRequest FileAttachment
  request_for b = request_from_work json (parsed b).0 b.limit b.suffix

  -- The attempts to send the bot's request, from the state that the parsing leaves.
  abbrev attempted : WorkerBotConfig → Outcome × Str × S
  attempted b =
      send_with_retry (authenticate b.bot) (send (request_for b) b.bot) b.bot cancelled retry_count
        (client_token w.tokens msg.routing.bot_id) (parsed b).1

  -- The bot is configured and it is no dry run: the attempts end so, and their state stays.
  abbrev EndsIn : WorkerBotConfig → Outcome → WorkerState S → Type 0
  EndsIn b outcome w' =
      (bot_by_id bots msg.routing.bot_id ≡ some b)
      × (dry_run ≡ false)
      × ((attempted b).0 ≡ outcome)
      × (w'.state ≡ (attempted b).2)

  -- The cases that a message ends in. Where no bot is configured for it, nothing but the results
  -- published changes; in a dry run, nothing but these and the state of the lookups of mentioned
  -- users; a message that is reported as sent was sent under the reported sync id.
  abbrev pub Handled : Ack → WorkerState S → Type 0
  Handled acked w' =
      (Published msg (codes "failed") [] (codes "unknown bot_id " ++ quoted msg.routing.bot_id)
          w.published w'.published
        × (bot_by_id bots msg.routing.bot_id ≡ none)
        × (w'.state ≡ w.state))
      ⊎ ((b : WorkerBotConfig) × (bot_by_id bots msg.routing.bot_id ≡ some b)
          × Published msg (codes "dry-run") [] [] w.published w'.published
          × (dry_run ≡ true)
          × (w'.state ≡ (parsed b).1))
      ⊎ ((b : WorkerBotConfig) × (sync : Str) × EndsIn b (finished (ok sync)) w'
          × WasSent (authenticate b.bot) (send (request_for b) b.bot) b.bot sync
          × Published msg (codes "sent") sync [] w.published w'.published)
  Handled (nacked e) w' =
      (b : WorkerBotConfig) × EndsIn b (finished (fail e)) w'
      × Published msg (codes "failed") [] e.message w.published w'.published
  Handled interrupted w' =
      (b : WorkerBotConfig) × EndsIn b context_ended w' × (w'.published ≡ w.published)

  abbrev concluded : Outcome → WorkerState S → Ack × WorkerState S
  concluded = conclude bots dry_run retry_count calls json authenticate send msg

  -- `before` is the worker after the attempts, with the results as they were.
  conclude-Handled :
      (b : WorkerBotConfig) (outcome : Outcome) (before : WorkerState S)
      → EndsIn b outcome before
      → before.published ≡ w.published
      → Handled (concluded outcome before).0 (concluded outcome before).1
  unfolding conclude
  conclude-Handled b (finished (ok sync)) before (f, d, e, k) same =
      let (p, st) = publish_result-Published msg (codes "sent") sync [] before in
      inr (
        inr (
          b,
          sync,
          (f, d, e, st ∙ k),
          send_with_retry-WasSent (authenticate b.bot) (send (request_for b) b.bot) b.bot cancelled
              retry_count (client_token w.tokens msg.routing.bot_id) (parsed b).1 sync e,
          subst
              (λ x.
                Published msg (codes "sent") sync [] x
                  (publish_result msg (codes "sent") sync [] before).published)
              same p,
        ))
  conclude-Handled b (finished (fail e)) before (f, d, g, k) same =
      let (p, st) = publish_result-Published msg (codes "failed") [] e.message before in
      (
        b,
        (f, d, g, st ∙ k),
        subst
            (λ x.
              Published msg (codes "failed") [] e.message x
                (publish_result msg (codes "failed") [] e.message before).published)
            same p,
      )
  conclude-Handled b context_ended before ends same = (b, ends, same)

  abbrev handled : Ack × WorkerState S
  handled = handle_message bots dry_run retry_count calls json authenticate send cancelled msg w

  known_bot :
      (b : WorkerBotConfig)
      → bot_by_id bots msg.routing.bot_id ≡ some b
      → Handled handled.0 handled.1
  unfolding handle_message deliver
  known_bot b e = elim (Bool-cases dry_run) [
    | inl y ↦
        let (p, s) =
          publish_result-Published msg (codes "dry-run") [] []
            (record w { state = (parsed b).1 }) in
        let same : handled ≡ (
          acked,
          publish_result msg (codes "dry-run") [] [] (record w { state = (parsed b).1 }),
        ) =
          rw (e, handle_message, y) refl in
        subst (λ z. Handled z.0 z.1) (sym same) (inr (inl (b, e, p, y, s)))
    | inr n ↦
        let r = attempted b in
        let after : WorkerState S = record w {
          tokens = (msg.routing.bot_id, r.1) ∷ w.tokens;
          state = r.2;
        } in
        let same : handled ≡ concluded r.0 after = rw (e, handle_message, n) refl in
        subst (λ z. Handled z.0 z.1) (sym same)
          (conclude-Handled b r.0 after (e, n, refl, refl) refl)
  ]

  -- However a message ends, what is published and what the queue is told agree with it. A message for
  -- no configured bot is acknowledged as failed and nothing else happens; one of a dry run is
  -- acknowledged after its mentions were parsed, and nothing is sent. Otherwise the request is
  -- attempted: the message is acknowledged as sent if the attempts end with a sync id, which a send
  -- of it was answered with; if they end with an error that is published and not acknowledged; and
  -- if the worker is stopped nothing is published.
  pub handle_message-Handled : Handled handled.0 handled.1
  handle_message-Handled = elim (Option-cases (bot_by_id bots msg.routing.bot_id)) [
    | inl e ↦
        let (p, s) =
          publish_result-Published msg (codes "failed") []
            (codes "unknown bot_id " ++ quoted msg.routing.bot_id) w in
        let same : handled ≡ (
          acked,
          publish_result msg (codes "failed") []
              (codes "unknown bot_id " ++ quoted msg.routing.bot_id) w,
        ) =
          unfold handle_message in rw (e, handle_message) refl in
        subst (λ z. Handled z.0 z.1) (sym same) (inl (p, e, s))
    | inr (b, e) ↦ known_bot b e
  ]
