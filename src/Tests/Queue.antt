-- ===== src/Tests/Queue.antt =====
-- A catalog with one bot and one chat, bound to it.
use express_botx.Common.{
  List, [], arith, false, inr, none, refl, some, subst, true, ℕ, ◌++◌, ◌+◌, ◌∷◌, ◌≡◌, ◌⊎◌,
}
use express_botx.Errors.{Result, ok}
use express_botx.Queue.Catalog.{CatalogCache, CatalogSnapshot, get_catalog}
use express_botx.Queue.Command.{EnqueueCommand, cli_route, known_chat}
use express_botx.Queue.Command.Agreement.{AllNamed, NamesBots, cli_route-serve_route, route_found}
use express_botx.Queue.Command.Laws.{PublishesAll, PublishesNothing, run_enqueue-AllOrNothing}
use express_botx.Queue.Enqueue.{EnqueueConfig, enqueue_send, queue_opts, serve_route}
use express_botx.Queue.Enqueue.Laws.{IsPublished, IsWithheld, enqueue_send-IsPublished}
use express_botx.Queue.Message.{WorkMessage}
use express_botx.Server.Send.{SendPayload, text_payload}
use express_botx.Tests.Samples.{list_context, lower, ops, ops_uuid}
use express_botx.Text.{Str, codes}

abbrev b_one : Str
b_one = codes "b1"

abbrev small_catalog : CatalogSnapshot
small_catalog = record {
  revision = codes "1";
  generated_at = 10;
  bots = record { name = codes "alerts"; host = codes "h"; id = b_one } ∷ [];
  chats = record { name = ops; id = ops_uuid; bot = codes "alerts"; is_default = true } ∷ [];
}

abbrev fresh_cache : CatalogCache
fresh_cache = record { snapshot = some small_catalog; max_age = some 60 }

abbrev catalog_mode : Str
catalog_mode = codes "catalog"

abbrev queue_config : EnqueueConfig
queue_config = record {
  routing_mode = catalog_mode;
  catalog = some fresh_cache;
  reply_queue = codes "replies";
  mime_type = λ name. [];
}

-- The state counts the ids that were drawn, and keeps what is on the queue.
abbrev draw : ℕ × List WorkMessage → Str × (ℕ × List WorkMessage)
draw (n, q) = (n ∷ [], (n + 1, q))

abbrev put : WorkMessage → ℕ × List WorkMessage → Result (Unit {0}) × (ℕ × List WorkMessage)
put msg (n, q) = (ok tt, (n, q ++ msg ∷ []))

abbrev to_ops : SendPayload
to_ops = text_payload [] ops (codes "hello") (codes "ok")

enqueue_send-IsPublished_example :
    (let result = enqueue_send lower list_context queue_config 20 draw put to_ops (48, []) in
      IsWithheld lower list_context queue_config 20 draw put (48, []) result
      ⊎ IsPublished lower list_context queue_config 20 draw put to_ops (48, []) result)
enqueue_send-IsPublished_example =
    enqueue_send-IsPublished lower list_context queue_config 20 draw put to_ops (48, [])

cli_route-serve_route_example :
    route_found (known_chat (serve_route (some fresh_cache) 20 catalog_mode [] [] ops))
    ≡ route_found (cli_route (ok fresh_cache) 20 catalog_mode [] [] ops)
unfolding get_catalog
cli_route-serve_route_example =
    cli_route-serve_route fresh_cache 20 catalog_mode [] [] ops (inr (inr refl)) bots_named
  where
    bots_named : NamesBots fresh_cache 20
    bots_named snap e =
        let same : small_catalog ≡ snap = ground arith in
        subst (λ z. AllNamed z.bots) same ((λ h. ground arith), tt)

abbrev two_chat_command : EnqueueCommand
two_chat_command = record {
  mode = catalog_mode;
  bot_alias = [];
  bot_id = [];
  chat_id = codes "ops,dev";
  content = record {
    message = codes "hello";
    status = codes "ok";
    file = none;
    opts = queue_opts false none;
    metadata = [];
    mentions = [];
  };
  reply_queue = [];
}

abbrev on_queue : ℕ × List WorkMessage → List WorkMessage
on_queue (n, q) = q

run_enqueue-AllOrNothing_example :
    PublishesNothing (ok fresh_cache) 20 draw put two_chat_command on_queue (λ s. refl) (48, [])
    ⊎ PublishesAll (ok fresh_cache) 20 draw put two_chat_command on_queue (λ s. refl) (48, [])
run_enqueue-AllOrNothing_example =
    run_enqueue-AllOrNothing (ok fresh_cache) 20 draw put two_chat_command on_queue (λ s. refl)
      (48, [])
