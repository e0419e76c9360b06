-- ===== src/Queue/Command/Agreement.antt =====
-- The command and the server resolve alike.
use express_botx.Common.{
  All, Bool-cases, List, Option, Option-cases, [], ap, arith, false, inl, inr, none, not, null,
  null-false, refl, some, sym, ℕ, ◌&&◌, ◌∙◌, ◌∷◌, ◌≡◌, ◌≢◌, ◌⊎◌,
}
use express_botx.Errors.{Result, Result-cases, fail, new_error, ok}
use express_botx.Queue.Catalog.{
  BotEntry, CatalogCache, CatalogSnapshot, find_bot, get_catalog, resolve_bot, resolve_bot_by_id,
  resolve_chat,
}
use express_botx.Queue.Command.{
  cli_bot, cli_chat, cli_route, known_chat, no_cached_snapshot, resolve_via_catalog,
}
use express_botx.Queue.Enqueue.{
  bound_bot, enriched, known_bot, no_snapshot, plain_route, routed_alias, routed_bot, serve_bot,
  serve_catalog, serve_chat, serve_route,
}
use express_botx.Queue.Message.{Routing}
use express_botx.Server.Access.{is_uuid}
use express_botx.Server.PlainSend.Routing.Laws.{uuid-null}
use express_botx.Text.{Str, codes, str_eq}

-- The route of a result; the texts of the errors differ.
abbrev pub route_found : Result Routing → Option Routing
route_found (ok r) = some r
route_found (fail e) = none

abbrev pub AllNamed : List BotEntry → Type 0
AllNamed bots = All (λ b. b.id ≢ []) bots

find_bot-named :
    (alias : Str) (bots : List BotEntry) (b : BotEntry)
    → AllNamed bots
    → find_bot alias bots ≡ some b
    → b.id ≢ []
unfolding find_bot
find_bot-named alias [] b n h = cc
find_bot-named alias (c ∷ bots) b (m, n) h = elim (Bool-cases (str_eq c.name alias)) [
  | inl y ↦ let k = rw y at h in let e : c.id ≡ b.id = ground arith in λ z. m (e ∙ z)
  | inr k ↦ find_bot-named alias bots b n (rw k at h)
]

resolve_bot-named :
    (snap : CatalogSnapshot) (alias : Str) (b : BotEntry)
    → AllNamed snap.bots
    → resolve_bot snap alias ≡ ok b
    → b.id ≢ []
resolve_bot-named snap alias b n h = elim (Option-cases (find_bot alias snap.bots)) [
  | inl e ↦ elim (Bool-cases (null snap.bots)) [
    | inl y ↦ unfold resolve_bot in cc (rw (e, resolve_bot, y) at h)
    | inr y ↦ unfold resolve_bot in cc (rw (e, resolve_bot, y) at h)
  ]
  | inr (c, e) ↦
      unfold resolve_bot in
      let k = rw (e, resolve_bot) at h in
      let same : c.id ≡ b.id = ground arith in λ z. find_bot-named alias snap.bots c n e (same ∙ z)
]

routed_bot-route_found :
    (r : Routing) (bot_id : Str) (q : Result BotEntry)
    → ((b : BotEntry) → q ≡ ok b → b.id ≢ [])
    → route_found (known_bot (routed_bot (record r { bot_id = bot_id }) q))
      ≡ route_found (routed_bot r q)
routed_bot-route_found r bot_id (fail e) n = refl
routed_bot-route_found r bot_id (ok b) n = let k = null-false b.id (n b refl) in rw k refl

routed_alias-route_found :
    (r : Routing) (q : Result BotEntry)
    → ((b : BotEntry) → q ≡ ok b → b.id ≢ [])
    → route_found (known_bot (routed_alias r q)) ≡ route_found (routed_alias r q)
routed_alias-route_found r (fail e) n = refl
routed_alias-route_found r (ok b) n = let k = null-false b.id (n b refl) in rw k refl

enriched-route_found :
    (r : Routing) (q : Option BotEntry)
    → null r.bot_id ≡ false
    → route_found (known_bot (ok (enriched r q))) ≡ route_found (ok (enriched r q))
enriched-route_found r none n = rw n refl
enriched-route_found r (some b) n = rw n refl

bot-route_found :
    (snap : CatalogSnapshot) (alias bot_id : Str) (r : Routing)
    → AllNamed snap.bots
    → route_found (known_bot (serve_bot snap alias (record r { bot_id = bot_id })))
      ≡ route_found (cli_bot snap alias bot_id r)
unfolding serve_bot cli_bot
bot-route_found snap alias bot_id r n = elim (Bool-cases (null bot_id)) [
  | inl y ↦ elim (Bool-cases (null alias)) [
    | inl z ↦ rw (y, z) (rw y refl)
    | inr z ↦
        rw (y, z)
          (routed_bot-route_found r bot_id (resolve_bot snap alias)
            (λ b. resolve_bot-named snap alias b n))
  ]
  | inr y ↦ elim (Bool-cases (is_uuid bot_id)) [
    | inl u ↦
        rw (y, u)
          (enriched-route_found (record r { bot_id = bot_id }) (resolve_bot_by_id bot_id snap.bots)
            y)
    | inr u ↦
        rw (y, u)
          (routed_alias-route_found (record r { bot_id = bot_id }) (resolve_bot snap bot_id)
            (λ b. resolve_bot-named snap bot_id b n))
  ]
]

chat-route_found :
    (snap : CatalogSnapshot) (alias bot_id chat_id : Str)
    → AllNamed snap.bots
    → route_found (known_bot (serve_chat snap alias bot_id chat_id))
      ≡ route_found (cli_chat snap alias bot_id chat_id)
unfolding serve_chat cli_chat
chat-route_found snap alias bot_id chat_id n =
    let r = record (plain_route [] chat_id) { catalog_revision = snap.revision } in
    elim (Bool-cases (not (null chat_id) && not (is_uuid chat_id))) [
      | inr y ↦ rw y (bot-route_found snap alias bot_id r n)
      | inl y ↦ elim (Result-cases (resolve_chat snap chat_id)) [
        | inr (e, f) ↦ rw (y, f) refl
        | inl (chat, f) ↦
            rw (y, f)
              (bot-route_found snap (bound_bot alias bot_id chat) bot_id
                (record r { chat_alias = chat_id; chat_id = chat.id }) n)
      ]
    ]

known_chat-route_found :
    (a b : Result Routing)
    → route_found a ≡ route_found b
    → route_found (known_chat a) ≡ route_found (known_chat b)
known_chat-route_found (ok a) (ok b) h =
    let e : a ≡ b = ground arith in ap (λ z. route_found (known_chat (ok z))) e
known_chat-route_found (ok a) (fail e) h = cc
known_chat-route_found (fail e) (ok b) h = cc
known_chat-route_found (fail e) (fail e') h = refl

-- Every bot of the valid snapshot, if there is one, has an id.
abbrev pub NamesBots : CatalogCache → ℕ → Type 0
NamesBots cache now =
    (snap : CatalogSnapshot) → get_catalog now cache ≡ some snap → AllNamed snap.bots

catalog-route_found :
    (cache : CatalogCache) (now : ℕ) (alias bot_id chat_id : Str)
    → NamesBots cache now
    → route_found (known_chat (serve_catalog (some cache) now alias bot_id chat_id))
      ≡ route_found (resolve_via_catalog (ok cache) now alias bot_id chat_id)
catalog-route_found cache now alias bot_id chat_id n = elim (Option-cases (get_catalog now cache)) [
  | inl e ↦
      let a : serve_catalog (some cache) now alias bot_id chat_id ≡ fail (new_error no_snapshot) =
        unfold serve_catalog in rw (e, serve_catalog) refl in
      let b : resolve_via_catalog (ok cache) now alias bot_id chat_id
          ≡ fail (new_error no_cached_snapshot) =
        unfold resolve_via_catalog in rw (e, resolve_via_catalog) refl in
      ap (λ z. route_found (known_chat z)) a ∙ sym (ap route_found b)
  | inr (snap, e) ↦
      let s = serve_chat snap alias bot_id chat_id in
      let c = cli_chat snap alias bot_id chat_id in
      let a : serve_catalog (some cache) now alias bot_id chat_id ≡ known_bot s =
        unfold serve_catalog in rw (e, serve_catalog) refl in
      let b : resolve_via_catalog (ok cache) now alias bot_id chat_id ≡ known_chat c =
        unfold resolve_via_catalog in rw (e, resolve_via_catalog) refl in
      ap (λ z. route_found (known_chat z)) a
      ∙ known_chat-route_found (known_bot s) c
          (chat-route_found snap alias bot_id chat_id (n snap e))
      ∙ sym (ap route_found b)
]

abbrev pub IsMode : Str → Type 0
IsMode mode = (mode ≡ codes "direct") ⊎ (mode ≡ codes "mixed") ⊎ (mode ≡ codes "catalog")

-- In every routing mode, from one catalog whose bots have ids, the command `enqueue` and the server
-- send a message by the same route, or both refuse it; a route without a chat counts as refused.
pub cli_route-serve_route :
    (cache : CatalogCache) (now : ℕ) (mode alias bot_id chat_id : Str)
    → IsMode mode
    → NamesBots cache now
    → route_found (known_chat (serve_route (some cache) now mode alias bot_id chat_id))
      ≡ route_found (cli_route (ok cache) now mode alias bot_id chat_id)
unfolding serve_route cli_route str_eq
cli_route-serve_route cache now mode alias bot_id chat_id (inl d) n =
    rw d (elim (Bool-cases (is_uuid bot_id)) [
      | inr u ↦ elim (Bool-cases (null bot_id)) [ inl k ↦ rw (u, k) refl | inr k ↦ rw (u, k) refl ]
      | inl u ↦
          let k = uuid-null bot_id u in
          elim (Bool-cases (is_uuid chat_id)) [
            | inr v ↦ elim (Bool-cases (null chat_id)) [
              | inl l ↦ rw (k, u, v, l) refl
              | inr l ↦ rw (k, u, v, l) refl
            ]
            | inl v ↦ let l = uuid-null chat_id v in rw (k, u, v, l) refl
          ]
    ])
cli_route-serve_route cache now mode alias bot_id chat_id (inr (inl m)) n =
    rw m (elim (Bool-cases (null bot_id)) [
      | inl k ↦ rw k (catalog-route_found cache now alias bot_id chat_id n)
      | inr k ↦ elim (Bool-cases (null chat_id)) [
        | inl l ↦ rw (k, l) (catalog-route_found cache now alias bot_id chat_id n)
        | inr l ↦ elim (Bool-cases (is_uuid bot_id)) [
          | inr u ↦ rw (k, l, u) (catalog-route_found cache now alias bot_id chat_id n)
          | inl u ↦ elim (Bool-cases (is_uuid chat_id)) [
            | inr v ↦ rw (k, l, u, v) (catalog-route_found cache now alias bot_id chat_id n)
            | inl v ↦ rw (k, l, u, v) (rw l refl)
          ]
        ]
      ]
    ])
cli_route-serve_route cache now mode alias bot_id chat_id (inr (inr c)) n =
    rw c (catalog-route_found cache now alias bot_id chat_id n)
