-- ===== src/Queue/Command.antt =====
-- The `enqueue` command: the loops of `runEnqueue` over the chats, `resolveViaCatalog` and
-- `printEnqueueResults` (internal/cmd/enqueue.go). The cache with the catalog's file read, and the age
-- as time.ParseDuration gives it, are what the command finds.
pub mod Laws
pub mod Agreement
use express_botx.Common.{
  List, Option, [], if◌then◌else◌, none, not, null, some, ℕ, ◌&&◌, ◌++◌, ◌+◌, ◌==◌, ◌∷◌,
}
use express_botx.Errors.{Result, fail, new_error, ok, wrap_error}
use express_botx.MultiSend.ChatIds.{parse_chat_ids}
use express_botx.Queue.Catalog.{
  CatalogCache, CatalogSnapshot, get_catalog, resolve_bot, resolve_bot_by_id, resolve_chat,
}
use express_botx.Queue.Enqueue.{bound_bot, enriched, plain_route, routed_alias, routed_bot}
use express_botx.Queue.Message.{QueuePayload, Routing, WorkMessage}
use express_botx.Server.Access.{is_uuid}
use express_botx.Server.Bots.{quoted}
use express_botx.Text.{Str, codes, str_eq}

unfoldable pub cli_bot : CatalogSnapshot → Str → Str → Routing → Result Routing
cli_bot snap alias bot_id r =
    if not (null bot_id) && is_uuid bot_id
    then ok (enriched (record r { bot_id = bot_id }) (resolve_bot_by_id bot_id snap.bots))
    else if not (null bot_id) && not (is_uuid bot_id)
    then routed_alias (record r { bot_id = bot_id }) (resolve_bot snap bot_id)
    else if not (null alias)
    then routed_bot r (resolve_bot snap alias)
    else fail (new_error (codes "bot is required: provide --bot (alias) or --bot-id (UUID)"))

unfoldable pub cli_chat : CatalogSnapshot → Str → Str → Str → Result Routing
cli_chat snap alias bot_id chat_id =
    let r = record (plain_route [] chat_id) { catalog_revision = snap.revision } in
    if not (null chat_id) && not (is_uuid chat_id)
    then elim (resolve_chat snap chat_id) [
      | fail e ↦ fail e
      | ok chat ↦
          cli_bot snap (bound_bot alias bot_id chat) bot_id
            (record r { chat_alias = chat_id; chat_id = chat.id })
    ]
    else cli_bot snap alias bot_id r

-- The last check of `resolveViaCatalog`.
abbrev pub known_chat : Result Routing → Result Routing
known_chat (fail e) = fail e
known_chat (ok r) =
    if null r.chat_id then fail (new_error (codes "--chat-id is required")) else ok r

abbrev pub no_cached_snapshot : Str
no_cached_snapshot =
    codes
      "no valid catalog snapshot available; ensure worker is publishing catalog and cache_file is configured (catalog.cache_file), or use --routing-mode direct with --bot-id and --chat-id"

unfoldable pub resolve_via_catalog : Result CatalogCache → ℕ → Str → Str → Str → Result Routing
resolve_via_catalog (fail e) now alias bot_id chat_id =
    fail (wrap_error (codes "invalid catalog.max_age: ") e)
resolve_via_catalog (ok cache) now alias bot_id chat_id = elim (get_catalog now cache) [
  | none ↦ fail (new_error no_cached_snapshot)
  | some snap ↦ known_chat (cli_chat snap alias bot_id chat_id)
]

-- The `switch` over the mode; for any other mode the ids stay as they are.
unfoldable pub cli_route : Result CatalogCache → ℕ → Str → Str → Str → Str → Result Routing
cli_route cache now mode alias bot_id chat_id =
    if str_eq mode (codes "direct")
    then (if null bot_id
        then fail (new_error (codes "--bot-id is required for direct routing mode"))
        else if not (is_uuid bot_id)
        then fail (
            new_error (
              codes "--bot-id must be a valid UUID for direct routing mode, got " ++ quoted bot_id))
        else if null chat_id
        then fail (new_error (codes "--chat-id is required for direct routing mode"))
        else if not (is_uuid chat_id)
        then fail (
            new_error (
              codes "--chat-id must be a valid UUID for direct routing mode, got "
              ++ (quoted chat_id ++ codes "; use catalog or mixed mode for alias resolution")))
        else ok (plain_route bot_id chat_id))
    else if str_eq mode (codes "mixed")
    then (if ((not (null bot_id) && not (null chat_id)) && is_uuid bot_id) && is_uuid chat_id
        then ok (plain_route bot_id chat_id)
        else resolve_via_catalog cache now alias bot_id chat_id)
    else if str_eq mode (codes "catalog")
    then resolve_via_catalog cache now alias bot_id chat_id
    else ok (plain_route bot_id chat_id)

-- What the command sends, the same for every chat.
pub record EnqueueCommand : Type 0 where
  pub mode : Str
  pub bot_alias : Str
  pub bot_id : Str
  pub chat_id : Str
  pub content : QueuePayload
  pub reply_queue : Str

-- The outcome for one chat: the id of its message, or an error that is not empty.
pub record EnqueueResult : Type 0 where
  pub chat : Str
  pub request_id : Str
  pub error : Str

module _ {S : Type 0} (cache : Result CatalogCache) (now : ℕ) (new_request_id : S → Str × S)
    (publish_work : WorkMessage → S → Result (Unit {0}) × S) (cmd : EnqueueCommand) where
  -- The first loop: a message for every chat, or the first error.
  unfoldable pub build_messages : List Str → S → Result (List (Str × WorkMessage)) × S
  build_messages [] s = (ok [], s)
  build_messages (chat ∷ chats) s =
      elim (cli_route cache now cmd.mode cmd.bot_alias cmd.bot_id chat) [
        | fail e ↦ (fail e, s)
        | ok r ↦
            let (request_id, s') = new_request_id s in
            let (rest, s'') = build_messages chats s' in
            (
              elim rest [
                | fail e ↦ fail e
                | ok pending ↦ ok (
                    (
                      chat,
                      record {
                        request_id = request_id;
                        routing = r;
                        payload = cmd.content;
                        reply_to = cmd.reply_queue;
                      },
                    )
                    ∷ pending)
              ],
              s'',
            )
      ]

  abbrev pub outcome_of : Str → WorkMessage → Result (Unit {0}) → EnqueueResult
  outcome_of chat msg (ok _) = record { chat = chat; request_id = msg.request_id; error = [] }
  outcome_of chat msg (fail e) = record {
    chat = chat;
    request_id = [];
    error = codes "publishing to queue: " ++ e.message;
  }

  -- The second loop.
  unfoldable pub publish_pending : List (Str × WorkMessage) → S → List EnqueueResult × S
  publish_pending [] s = ([], s)
  publish_pending ((chat, msg) ∷ pending) s =
      let (published, s') = publish_work msg s in
      let (results, s'') = publish_pending pending s' in
      (outcome_of chat msg published ∷ results, s'')

  unfoldable pub count_published : List EnqueueResult → ℕ
  count_published [] = 0
  count_published (r ∷ rs) = (if null r.error then 1 else 0) + count_published rs

  -- The error that `printEnqueueResults` returns; the printing is left out.
  unfoldable pub exit_error : List EnqueueResult → Option Str
  exit_error results = if count_published results == 0 then some (exit_text results) else none
    where
      exit_text : List EnqueueResult → Str
      exit_text (r ∷ []) = r.error
      exit_text rs = codes "all chats failed"

  abbrev pub chats_of : List Str
  chats_of =
      let chats = parse_chat_ids cmd.chat_id in if null chats then cmd.chat_id ∷ [] else chats

  abbrev pub published_all : Result (List (Str × WorkMessage)) × S → Result (List EnqueueResult) × S
  published_all (fail e, s) = (fail e, s)
  published_all (ok pending, s) = let (results, s') = publish_pending pending s in (ok results, s')

  unfoldable pub run_enqueue : S → Result (List EnqueueResult) × S
  run_enqueue s = published_all (build_messages chats_of s)
