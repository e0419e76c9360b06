-- ===== src/Queue/Enqueue/Laws.antt =====
-- What is published.
use express_botx.Common.{
  Bool, Bool-cases, Option, Option-cases, [], arith, if◌then◌else◌, inl, inr, none, null, refl,
  some, sym, true, ℕ, ◌∙◌, ◌≡◌, ◌≢◌, ◌⊎◌,
}
use express_botx.Errors.{GoError, Result, Result-cases, fail, ok}
use express_botx.Queue.Catalog.{CatalogCache, get_catalog}
use express_botx.Queue.Enqueue.{
  EnqueueConfig, build_file_attachment_from_base64, enqueue_routed, enqueue_send, is_direct,
  known_bot, plain_route, published_as, queue_opts, serve_catalog, serve_chat, serve_route,
  work_message,
}
use express_botx.Queue.Message.{Routing, WorkMessage}
use express_botx.Server.Access.{chat_allowed, is_uuid}
use express_botx.Server.Config.{Context}
use express_botx.Server.PlainSend.Prepare.Laws.{not_null}
use express_botx.Server.PlainSend.Routing.Laws.{uuid-null}
use express_botx.Server.Send.{FilePayload, OptsPayload, SendPayload}
use express_botx.Text.{Str, codes, is_some, str_eq}

routed-HasBot :
    (q : Result Routing) (r : Routing) → known_bot q ≡ ok r → (q ≡ ok r) × (r.bot_id ≢ [])
routed-HasBot (fail e) r h = cc
routed-HasBot (ok q) r h = elim (Bool-cases (null q.bot_id)) [
  | inl y ↦ cc (rw y at h)
  | inr n ↦ let k = rw n at h in (k, λ z. ground arith)
]

serve_catalog-HasBot :
    (cache : Option CatalogCache) (now : ℕ) (alias bot_id chat_id : Str) (r : Routing)
    → serve_catalog cache now alias bot_id chat_id ≡ ok r
    → r.bot_id ≢ []
unfolding serve_catalog
serve_catalog-HasBot none now alias bot_id chat_id r h = cc
serve_catalog-HasBot (some cache) now alias bot_id chat_id r h =
    elim (Option-cases (get_catalog now cache)) [
      | inl n ↦ cc (rw (n, serve_catalog) at h)
      | inr (snap, e) ↦
          (routed-HasBot (serve_chat snap alias bot_id chat_id) r (rw (e, serve_catalog) at h)).1
    ]

-- Either the request's own ids serve, and the bot's is a UUID, or the catalog gave the route.
serve_route-cases :
    (cache : Option CatalogCache) (now : ℕ) (mode alias bot_id chat_id : Str) (r : Routing)
    → serve_route cache now mode alias bot_id chat_id ≡ ok r
    → ((is_uuid bot_id ≡ true) × (ok r ≡ ok (plain_route bot_id chat_id)))
      ⊎ (serve_catalog cache now alias bot_id chat_id ≡ ok r)
unfolding serve_route
serve_route-cases cache now mode alias bot_id chat_id r h =
    elim (Bool-cases (str_eq mode (codes "direct"))) [
      | inl y ↦ elim (Bool-cases (is_uuid bot_id)) [
        | inr n ↦ cc (rw (y, n) at h)
        | inl u ↦ elim (Bool-cases (is_uuid chat_id)) [
          | inr n ↦ cc (rw (y, u, n) at h)
          | inl v ↦ inl (u, sym (rw (y, u, v) at h))
        ]
      ]
      | inr n ↦ elim (Bool-cases (str_eq mode (codes "mixed"))) [
        | inl y ↦ elim (Bool-cases (is_direct bot_id chat_id)) [
          | inl d ↦ inl (ground arith, sym (rw (n, y, d) at h))
          | inr d ↦ inr (rw (n, y, d) at h)
        ]
        | inr m ↦ elim (Bool-cases (str_eq mode (codes "catalog"))) [
          | inl y ↦ inr (rw (n, m, y) at h)
          | inr k ↦ cc (rw (n, m, k) at h)
        ]
      ]
    ]

-- A message that is routed has a bot.
serve_route-HasBot :
    (cache : Option CatalogCache) (now : ℕ) (mode alias bot_id chat_id : Str) (r : Routing)
    → serve_route cache now mode alias bot_id chat_id ≡ ok r
    → r.bot_id ≢ []
serve_route-HasBot cache now mode alias bot_id chat_id r h =
    elim (serve_route-cases cache now mode alias bot_id chat_id r h) [
      | inl (u, e) ↦
          let same : r.bot_id ≡ bot_id = ground arith in
          λ z. not_null bot_id (uuid-null bot_id u) (sym same ∙ z)
      | inr k ↦ serve_catalog-HasBot cache now alias bot_id chat_id r k
    ]

module _ {S : Type 0} (to_lower : Str → Str) (ctx : Context) (cfg : EnqueueConfig) (now : ℕ)
    (new_request_id : S → Str × S) (publish_work : WorkMessage → S → Result (Unit {0}) × S) where
  abbrev route_of : SendPayload → Result Routing
  route_of p =
      serve_route cfg.catalog now (if null p.routing_mode then cfg.routing_mode else p.routing_mode)
        p.bot p.bot_id p.chat_id

  -- Nothing is published: the result is an error, and only an id was drawn.
  abbrev pub IsWithheld : S → Result Str × S → Type 0
  IsWithheld s result = ((e : GoError) × (result.0 ≡ fail e)) × (result.1 ≡ (new_request_id s).1)

  -- The message carries what the request asks to be sent, by the route and under the id.
  abbrev pub Carries : Str → Routing → SendPayload → WorkMessage → Type 0
  Carries request_id r p msg =
      (msg.request_id ≡ request_id)
      × (msg.routing ≡ r)
      × (msg.payload.message ≡ p.message)
      × (msg.payload.status ≡ p.status)
      × (msg.payload.metadata ≡ p.metadata)
      × (msg.payload.mentions ≡ p.mentions)
      × (msg.payload.opts.no_parse ≡ p.no_parse)
      × (is_some msg.payload.file ≡ is_some p.file)
      × (msg.reply_to ≡ cfg.reply_queue)

  queue_opts-no_parse :
      (no_parse : Bool) (opts : Option OptsPayload) → (queue_opts no_parse opts).no_parse ≡ no_parse
  queue_opts-no_parse no_parse none = refl
  queue_opts-no_parse no_parse (some o) = refl

  attached-is_some :
      (file : Option FilePayload)
      → is_some (elim file [
        | none ↦ none
        | some f ↦ some (build_file_attachment_from_base64 cfg.mime_type f)
      ])
        ≡ is_some file
  attached-is_some none = refl
  attached-is_some (some f) = refl

  work_message-Carries :
      (request_id : Str) (r : Routing) (p : SendPayload)
      → Carries request_id r p (work_message cfg request_id r p)
  work_message-Carries request_id r p = (
    refl,
    refl,
    refl,
    refl,
    refl,
    refl,
    queue_opts-no_parse p.no_parse p.opts,
    attached-is_some p.file,
    refl,
  )

  -- One message is published, for a bot, to a chat that is in the scope of the request's key.
  abbrev pub IsPublished : SendPayload → S → Result Str × S → Type 0
  IsPublished p s result =
      (r : Routing) × (route_of p ≡ ok r)
      × (r.bot_id ≢ [])
      × (r.chat_id ≢ [])
      × (chat_allowed to_lower ctx r.chat_id ≡ true)
      × Carries (new_request_id s).0 r p (work_message cfg (new_request_id s).0 r p)
      × (result
          ≡ published_as to_lower ctx cfg now new_request_id publish_work (new_request_id s).0
              (publish_work (work_message cfg (new_request_id s).0 r p) (new_request_id s).1))

  -- The send function of the asynchronous mode publishes one message, which carries the request's
  -- text, status, metadata and mentions, and a file if there is one, and whose chat, as the routing
  -- finally has it, is not empty and in the scope of the key, and whose bot is known; or it gives an
  -- error and publishes nothing.
  pub enqueue_send-IsPublished :
      (p : SendPayload) (s : S)
      → (let result = enqueue_send to_lower ctx cfg now new_request_id publish_work p s in
          IsWithheld s result ⊎ IsPublished p s result)
  enqueue_send-IsPublished p s = elim (Result-cases (route_of p)) [
    | inr (e, f) ↦ unfold enqueue_send in rw f (unfold enqueue_routed in inl ((e, refl), refl))
    | inl (r, f) ↦ elim (Bool-cases (null r.chat_id)) [
      | inl y ↦ unfold enqueue_send in rw f (unfold enqueue_routed in rw y (inl ((_, refl), refl)))
      | inr n ↦ elim (Bool-cases (chat_allowed to_lower ctx r.chat_id)) [
        | inr k ↦
            unfold enqueue_send in rw f (unfold enqueue_routed in rw (n, k) (inl ((_, refl), refl)))
        | inl k ↦
            unfold enqueue_send in
            rw f (
              unfold enqueue_routed in
              rw (n, k)
                (inr (
                  r,
                  refl,
                  serve_route-HasBot cfg.catalog now
                      (if null p.routing_mode then cfg.routing_mode else p.routing_mode) p.bot
                      p.bot_id p.chat_id r f,
                  not_null r.chat_id n,
                  k,
                  work_message-Carries (new_request_id s).0 r p,
                  refl,
                )))
      ]
    ]
  ]
