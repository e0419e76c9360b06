-- ===== src/Queue/Enqueue.antt =====
-- The two producers: the send function of `runServeEnqueue` (internal/cmd/serve.go), and the routing
-- of `runEnqueue` (internal/cmd/enqueue.go).
pub mod Laws
use express_botx.Common.{
  Bool, Option, [], false, if◌then◌else◌, none, not, null, some, ℕ, ◌&&◌, ◌++◌, ◌||◌, ◌∷◌,
}
use express_botx.Errors.{
  GoError, Result, chat_not_allowed, chat_unresolved, fail, new_error, not_allowed_text, ok,
  wrap_error,
}
use express_botx.Queue.Catalog.{
  BotEntry, CatalogCache, CatalogSnapshot, ChatEntry, get_catalog, resolve_bot, resolve_bot_by_id,
  resolve_chat,
}
use express_botx.Queue.Message.{FileAttachment, QueueOpts, Routing, WorkMessage}
use express_botx.Server.Access.{chat_allowed, is_uuid}
use express_botx.Server.Bots.{quoted}
use express_botx.Server.Config.{Context}
use express_botx.Server.Send.{FilePayload, OptsPayload, SendPayload}
use express_botx.Text.{Str, codes, str_eq}

-- What both lookups start with: no valid snapshot is an error.
abbrev pub plain_route : Str → Str → Routing
plain_route bot_id chat_id = record {
  host = [];
  bot_id = bot_id;
  chat_id = chat_id;
  bot_name = [];
  chat_alias = [];
  catalog_revision = [];
}

abbrev pub at_bot : Routing → BotEntry → Routing
at_bot r b = record r { bot_id = b.id; bot_name = b.name; host = b.host }

-- The name and the host of a bot that is known by its id.
abbrev pub enriched : Routing → Option BotEntry → Routing
enriched r none = r
enriched r (some b) = record r { bot_name = b.name; host = b.host }

abbrev pub no_snapshot : Str
no_snapshot =
    codes "no valid catalog snapshot available; use direct routing or wait for catalog update"

abbrev pub not_an_alias : Str → GoError → GoError
not_an_alias bot_id e =
    wrap_error
      (codes "bot_id "
        ++ (quoted bot_id ++ codes " is not a valid UUID and could not be resolved as alias: "))
      e

-- The bot that a chat is bound to serves where the request names none.
abbrev pub bound_bot : Str → Str → ChatEntry → Str
bound_bot alias bot_id chat =
    if (null alias && null bot_id) && not (null chat.bot) then chat.bot else alias

-- The send function's part: chat, then bot.
abbrev pub routed_bot : Routing → Result BotEntry → Result Routing
routed_bot r (fail e) = fail e
routed_bot r (ok b) = ok (at_bot r b)

abbrev pub routed_alias : Routing → Result BotEntry → Result Routing
routed_alias r (fail e) = fail (not_an_alias r.bot_id e)
routed_alias r (ok b) = ok (at_bot r b)

-- `r.bot_id` is the request's bot id.
unfoldable pub serve_bot : CatalogSnapshot → Str → Routing → Result Routing
serve_bot snap alias r =
    if null r.bot_id && not (null alias)
    then routed_bot r (resolve_bot snap alias)
    else if not (null r.bot_id) && is_uuid r.bot_id
    then ok (enriched r (resolve_bot_by_id r.bot_id snap.bots))
    else if not (null r.bot_id)
    then routed_alias r (resolve_bot snap r.bot_id)
    else ok r

abbrev pub unresolved_chat : GoError → GoError
unresolved_chat e = record {
  message = codes "unknown chat: " ++ e.message;
  wraps = chat_unresolved ∷ [];
}

unfoldable pub serve_chat : CatalogSnapshot → Str → Str → Str → Result Routing
serve_chat snap alias bot_id chat_id =
    let r = record (plain_route bot_id chat_id) { catalog_revision = snap.revision } in
    if not (null chat_id) && not (is_uuid chat_id)
    then elim (resolve_chat snap chat_id) [
      | fail e ↦ fail (unresolved_chat e)
      | ok chat ↦
          serve_bot snap (bound_bot alias bot_id chat)
            (record r { chat_alias = chat_id; chat_id = chat.id })
    ]
    else serve_bot snap alias r

-- The check after the lookups, which is only made where the catalog was used.
abbrev pub known_bot : Result Routing → Result Routing
known_bot (fail e) = fail e
known_bot (ok r) =
    if null r.bot_id
    then fail (
        new_error (
          codes
            "could not resolve bot: provide bot_id, bot alias, or use a chat with a catalog-bound bot"))
    else ok r

unfoldable pub serve_catalog : Option CatalogCache → ℕ → Str → Str → Str → Result Routing
serve_catalog none now alias bot_id chat_id =
    fail (new_error (codes "catalog routing requires catalog configuration (catalog.cache_file)"))
serve_catalog (some cache) now alias bot_id chat_id = elim (get_catalog now cache) [
  | none ↦ fail (new_error no_snapshot)
  | some snap ↦ known_bot (serve_chat snap alias bot_id chat_id)
]

abbrev pub is_direct : Str → Str → Bool
is_direct bot_id chat_id =
    not (null bot_id || null chat_id || not (is_uuid bot_id) || not (is_uuid chat_id))

-- The `switch` over the routing mode.
unfoldable pub serve_route : Option CatalogCache → ℕ → Str → Str → Str → Str → Result Routing
serve_route cache now mode alias bot_id chat_id =
    if str_eq mode (codes "direct")
    then (if not (is_uuid bot_id)
        then fail (new_error (codes "bot_id must be a valid UUID for direct routing mode"))
        else if not (is_uuid chat_id)
        then fail (
            new_error (
              codes
                "chat_id must be a valid UUID for direct routing mode; use catalog or mixed mode for alias resolution"))
        else ok (plain_route bot_id chat_id))
    else if str_eq mode (codes "mixed")
    then (if is_direct bot_id chat_id
        then ok (plain_route bot_id chat_id)
        else serve_catalog cache now alias bot_id chat_id)
    else if str_eq mode (codes "catalog")
    then serve_catalog cache now alias bot_id chat_id
    else fail (
        new_error (
          codes "invalid routing_mode "
          ++ (quoted mode ++ codes ": must be direct, catalog, or mixed")))

-- `BuildFileAttachmentFromBase64`; package mime's type for a file's name is a parameter.
abbrev pub build_file_attachment_from_base64 : (Str → Str) → FilePayload → FileAttachment
build_file_attachment_from_base64 mime_type f =
    let t = mime_type f.name in
    record {
      file_name = f.name;
      file_data =
          codes "data:"
          ++ ((if null t then codes "application/octet-stream" else t)
              ++ (codes ";base64," ++ f.data_base64));
    }

abbrev pub queue_opts : Bool → Option OptsPayload → QueueOpts
queue_opts no_parse none = record {
  silent = false;
  stealth = false;
  force_dnd = false;
  no_notify = false;
  no_parse = no_parse;
}
queue_opts no_parse (some o) = record {
  silent = o.silent;
  stealth = o.stealth;
  force_dnd = o.force_dnd;
  no_notify = o.no_notify;
  no_parse = no_parse;
}

-- What the send function is closed over.
pub record EnqueueConfig : Type 0 where
  pub routing_mode : Str
  pub catalog : Option CatalogCache
  pub reply_queue : Str
  pub mime_type : Str → Str

abbrev pub work_message : EnqueueConfig → Str → Routing → SendPayload → WorkMessage
work_message cfg request_id r p = record {
  request_id = request_id;
  routing = r;
  payload = record {
    message = p.message;
    status = p.status;
    file = elim p.file [
      | none ↦ none
      | some f ↦ some (build_file_attachment_from_base64 cfg.mime_type f)
    ];
    opts = queue_opts p.no_parse p.opts;
    metadata = p.metadata;
    mentions = p.mentions;
  };
  reply_to = cfg.reply_queue;
}

module _ {S : Type 0} (to_lower : Str → Str) (ctx : Context) (cfg : EnqueueConfig) (now : ℕ)
    (new_request_id : S → Str × S) (publish_work : WorkMessage → S → Result (Unit {0}) × S) where
  abbrev pub published_as : Str → Result (Unit {0}) × S → Result Str × S
  published_as request_id (fail e, s) = (fail (wrap_error (codes "publishing to queue: ") e), s)
  published_as request_id (ok _, s) = (ok request_id, s)

  -- From the routing on.
  unfoldable pub enqueue_routed : SendPayload → Str → Result Routing → S → Result Str × S
  enqueue_routed p request_id (fail e) s = (fail e, s)
  enqueue_routed p request_id (ok r) s =
      if null r.chat_id
      then (fail (new_error (codes "chat_id is required")), s)
      else if not (chat_allowed to_lower ctx r.chat_id)
      then (fail (record { message = not_allowed_text; wraps = chat_not_allowed ∷ [] }), s)
      else published_as request_id (publish_work (work_message cfg request_id r p) s)

  -- The send function.
  unfoldable pub enqueue_send : SendPayload → S → Result Str × S
  enqueue_send p s =
      let (request_id, s') = new_request_id s in
      enqueue_routed p request_id
        (serve_route cfg.catalog now
          (if null p.routing_mode then cfg.routing_mode else p.routing_mode) p.bot p.bot_id
          p.chat_id)
        s'
