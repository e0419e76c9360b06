-- ===== src/Queue/Command/Laws.antt =====
-- What the command puts on the queue.
use express_botx.Common.{
  List, [], ap, arith, inl, inr, refl, subst, sym, ℕ, ◌++◌, ◌∙◌, ◌∷◌, ◌≡◌, ◌⊎◌,
}
use express_botx.Errors.{GoError, Result, Result-cases, fail, ok}
use express_botx.Queue.Catalog.{CatalogCache}
use express_botx.Queue.Command.{
  EnqueueCommand, EnqueueResult, build_messages, chats_of, cli_route, outcome_of, publish_pending,
  published_all, run_enqueue,
}
use express_botx.Queue.Message.{Routing, WorkMessage}
use express_botx.Text.{Str, codes}

module _ {S : Type 0} (cache : Result CatalogCache) (now : ℕ) (new_request_id : S → Str × S)
    (publish_work : WorkMessage → S → Result (Unit {0}) × S) (cmd : EnqueueCommand) where
  -- Each chat with a message of its own: the command's content, by the chat's route.
  abbrev IsFor : Str → Str × WorkMessage → Type 0
  IsFor chat (c, msg) =
      (c ≡ chat)
      × (cli_route cache now cmd.mode cmd.bot_alias cmd.bot_id chat ≡ ok msg.routing)
      × (msg.payload ≡ cmd.content)
      × (msg.reply_to ≡ cmd.reply_queue)

  abbrev pub AreFor : List Str → List (Str × WorkMessage) → Type 0
  AreFor [] [] = Unit {0}
  AreFor (chat ∷ chats) (m ∷ pending) = IsFor chat m × AreFor chats pending
  AreFor [] (m ∷ pending) = ⊥
  AreFor (chat ∷ chats) [] = ⊥

  abbrev build : List Str → S → Result (List (Str × WorkMessage)) × S
  build = build_messages cache now new_request_id publish_work cmd

  -- The error is that of a chat that has no route.
  abbrev pub Unrouted : List Str → GoError → Type 0
  Unrouted [] e = ⊥
  Unrouted (chat ∷ chats) e =
      (cli_route cache now cmd.mode cmd.bot_alias cmd.bot_id chat ≡ fail e) ⊎ Unrouted chats e

  -- What the command reports of one chat: the id of its message, or the error of the queue.
  abbrev pub IsOutcome : Str × WorkMessage → Result (Unit {0}) → EnqueueResult → Type 0
  IsOutcome (chat, msg) (ok _) r =
      (r.chat ≡ chat) × (r.request_id ≡ msg.request_id) × (r.error ≡ [])
  IsOutcome (chat, msg) (fail e) r =
      (r.chat ≡ chat) × (r.request_id ≡ []) × (r.error ≡ codes "publishing to queue: " ++ e.message)

  -- Each of the messages is put on the queue once, in order, the queue as one leaves it being that
  -- which the next finds, and for each there is its result, in the same order.
  abbrev pub ArePublished : List (Str × WorkMessage) → S → List EnqueueResult → S → Type 0
  ArePublished [] s [] s' = s' ≡ s
  ArePublished (m ∷ pending) s (r ∷ results) s' =
      (response : Result (Unit {0})) × (next : S) × (publish_work m.1 s ≡ (response, next))
      × IsOutcome m response r
      × ArePublished pending next results s'
  ArePublished [] s (r ∷ results) s' = ⊥
  ArePublished (m ∷ pending) s [] s' = ⊥

  abbrev publish : List (Str × WorkMessage) → S → List EnqueueResult × S
  publish = publish_pending cache now new_request_id publish_work cmd

  outcome_of-IsOutcome :
      (m : Str × WorkMessage) (response : Result (Unit {0}))
      → IsOutcome m response (outcome_of cache now new_request_id publish_work cmd m.0 m.1 response)
  outcome_of-IsOutcome m (ok _) = (refl, refl, refl)
  outcome_of-IsOutcome m (fail e) = (refl, refl, refl)

  publish-ArePublished :
      (pending : List (Str × WorkMessage)) (s : S)
      → ArePublished pending s (publish pending s).0 (publish pending s).1
  unfolding publish_pending
  publish-ArePublished [] s = refl
  publish-ArePublished (m ∷ pending) s = (
    (publish_work m.1 s).0,
    (publish_work m.1 s).1,
    refl,
    outcome_of-IsOutcome m (publish_work m.1 s).0,
    publish-ArePublished pending (publish_work m.1 s).1,
  )

  module _ {A : Type 0} (queue_of : S → A)
      (drawn : (s : S) → queue_of (new_request_id s).1 ≡ queue_of s) where
    abbrev Built : List Str → S → Result (List (Str × WorkMessage)) × S → Type 0
    Built chats s q =
        (queue_of q.1 ≡ queue_of s)
        × (((e : GoError) × (q.0 ≡ fail e) × Unrouted chats e)
            ⊎ ((pending : List (Str × WorkMessage)) × (q.0 ≡ ok pending) × AreFor chats pending))

    Built-cons :
        (chat : Str) (chats : List Str) (s s' : S) (r : Routing) (msg : WorkMessage)
        (q : Result (List (Str × WorkMessage)) × S)
        → queue_of s' ≡ queue_of s
        → IsFor chat (chat, msg)
        → Built chats s' q
        → Built
            (chat ∷ chats)
            s
            (elim q.0 [ fail e ↦ fail e | ok pending ↦ ok ((chat, msg) ∷ pending) ], q.1)
    Built-cons chat chats s s' r msg (fail e, t) same f (k, inl (e', h, u)) =
        (k ∙ same, inl (e', h, inr u))
    Built-cons chat chats s s' r msg (ok rest, t) same f (k, inl (e', h, u)) = cc
    Built-cons chat chats s s' r msg (fail e, t) same f (k, inr (pending, h, u)) = cc
    Built-cons chat chats s s' r msg (ok rest, t) same f (k, inr (pending, h, u)) =
        let e : rest ≡ pending = ground arith in
        (k ∙ same, inr ((chat, msg) ∷ rest, refl, (f, subst (AreFor chats) (sym e) u)))

    abbrev message_for : Str → Routing → WorkMessage
    message_for request_id r = record {
      request_id = request_id;
      routing = r;
      payload = cmd.content;
      reply_to = cmd.reply_queue;
    }

    build-unrouted :
        (chat : Str) (chats : List Str) (s : S) (e : GoError)
        → cli_route cache now cmd.mode cmd.bot_alias cmd.bot_id chat ≡ fail e
        → build (chat ∷ chats) s ≡ (fail e, s)
    unfolding build_messages
    build-unrouted chat chats s e f = cc

    build-routed :
        (chat : Str) (chats : List Str) (s : S) (r : Routing)
        → cli_route cache now cmd.mode cmd.bot_alias cmd.bot_id chat ≡ ok r
        → build (chat ∷ chats) s ≡ (
          elim (build chats (new_request_id s).1).0 [
            | fail e ↦ fail e
            | ok pending ↦ ok ((chat, message_for (new_request_id s).0 r) ∷ pending)
          ],
          (build chats (new_request_id s).1).1,
        )
    unfolding build_messages
    build-routed chat chats s r f = ground arith

    build_messages-Built : (chats : List Str) (s : S) → Built chats s (build chats s)
    build_messages-Built [] s = unfold build_messages in (refl, inr ([], refl, tt))
    build_messages-Built (chat ∷ chats) s =
        let rest = build_messages-Built chats (new_request_id s).1 in
        elim (Result-cases (cli_route cache now cmd.mode cmd.bot_alias cmd.bot_id chat)) [
          | inr (e, f) ↦
              subst (Built (chat ∷ chats) s) (sym (build-unrouted chat chats s e f))
                (refl, inl (e, refl, inl f))
          | inl (r, f) ↦ subst (Built (chat ∷ chats) s) (sym (build-routed chat chats s r f)) (
              Built-cons chat chats s (new_request_id s).1 r (message_for (new_request_id s).0 r)
                (build chats (new_request_id s).1) (drawn s) (refl, f, refl, refl) rest)
        ]

    abbrev run : S → Result (List EnqueueResult) × S
    run = run_enqueue cache now new_request_id publish_work cmd

    abbrev targets_of : List Str
    targets_of = chats_of cache now new_request_id publish_work cmd

    published :
        (s : S) {q : Result (List (Str × WorkMessage)) × S}
        → build targets_of s ≡ q
        → run s ≡ published_all cache now new_request_id publish_work cmd q
    unfolding run_enqueue
    published s b = ap (published_all cache now new_request_id publish_work cmd) b

    -- Every chat has its message, and each message is put on the queue once, in order.
    abbrev pub PublishesAll : S → Type 0
    PublishesAll s =
        (pending : List (Str × WorkMessage)) × (s' : S) × (results : List EnqueueResult) × ((run
            s).0
          ≡ ok results)
        × AreFor targets_of pending
        × (queue_of s' ≡ queue_of s)
        × ArePublished pending s' results (run s).1

    -- Some chat has no route, and the queue is as it was.
    abbrev pub PublishesNothing : S → Type 0
    PublishesNothing s =
        (e : GoError) × ((run s).0 ≡ fail e)
        × Unrouted targets_of e
        × (queue_of (run s).1 ≡ queue_of s)

    -- The command publishes all or nothing: if some chat has no route it gives that chat's error and
    -- the queue is as it was; otherwise, starting from an unchanged queue, it puts one message for
    -- each chat on the queue, once and in order, each with the command's content and by its chat's
    -- own route, and reports for each its id or the queue's error. It holds of any view of the queue
    -- that drawing an id leaves as it is.
    pub run_enqueue-AllOrNothing : (s : S) → PublishesNothing s ⊎ PublishesAll s
    run_enqueue-AllOrNothing s =
        concluded (build targets_of s) (build_messages-Built targets_of s) refl
      where
        concluded :
            (q : Result (List (Str × WorkMessage)) × S)
            → Built targets_of s q
            → build targets_of s ≡ q
            → PublishesNothing s ⊎ PublishesAll s
        concluded (fail e, t) (k, inl (e', h, u)) b =
            let r = published s b in
            let same : e ≡ e' = ground arith in
            inl (
              e,
              ap (λ z. z.0) r,
              subst (Unrouted targets_of) (sym same) u,
              ap (λ z. queue_of z.1) r ∙ k,
            )
        concluded (fail e, t) (k, inr (pending, h, u)) b = cc
        concluded (ok pending, t) (k, inl (e', h, u)) b = cc
        concluded (ok pending, t) (k, inr (pending', h, u)) b =
            let r = published s b in
            let same : pending ≡ pending' = ground arith in
            inr (
              pending,
              t,
              (publish pending t).0,
              ap (λ z. z.0) r,
              subst (AreFor targets_of) (sym same) u,
              k,
              subst (λ z. ArePublished pending t (publish pending t).0 z) (sym (ap (λ z. z.1) r))
                  (publish-ArePublished pending t),
            )
