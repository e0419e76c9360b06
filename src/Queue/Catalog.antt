-- ===== src/Queue/Catalog.antt =====
-- internal/queue/catalog.go: the snapshot of bots and chats, its lookups, and the cache. The file that
-- the cache is kept in is not modelled.
use express_botx.Common.{
  Bool, List, Option, [], false, if◌then◌else◌, ltb, map, none, null, some, ℕ, ◌++◌, ◌+◌, ◌∷◌,
}
use express_botx.Errors.{Result, fail, new_error, ok}
use express_botx.Server.Bots.{quoted}
use express_botx.Text.{Str, codes, join, sort_strings, str_eq}

pub record BotEntry : Type 0 where
  pub name : Str
  pub host : Str
  pub id : Str

pub record ChatEntry : Type 0 where
  pub name : Str
  pub id : Str
  pub bot : Str
  pub is_default : Bool

-- `generated_at` is a time in nanoseconds.
pub record CatalogSnapshot : Type 0 where
  pub revision : Str
  pub generated_at : ℕ
  pub bots : List BotEntry
  pub chats : List ChatEntry

abbrev pub join_sorted : List Str → Str
join_sorted names = join (codes ", ") (sort_strings names)

unfoldable pub find_bot : Str → List BotEntry → Option BotEntry
unfolding str_eq
find_bot alias [] = none
find_bot alias (b ∷ bots) = if str_eq b.name alias then some b else find_bot alias bots

unfoldable pub find_chat : Str → List ChatEntry → Option ChatEntry
unfolding str_eq
find_chat alias [] = none
find_chat alias (c ∷ chats) = if str_eq c.name alias then some c else find_chat alias chats

unfoldable pub resolve_bot : CatalogSnapshot → Str → Result BotEntry
unfolding find_bot sort_strings join
resolve_bot snap alias = elim (find_bot alias snap.bots) [
  | some b ↦ ok b
  | none ↦
      if null snap.bots
      then fail
          (new_error (codes "unknown bot " ++ (quoted alias ++ codes " (catalog has no bots)")))
      else fail (
          new_error (
            codes "unknown bot "
            ++ (quoted alias
                ++ (codes ", available in catalog: "
                    ++ join_sorted (map (λ b. b.name) snap.bots)))))
]

unfoldable pub resolve_chat : CatalogSnapshot → Str → Result ChatEntry
unfolding find_chat sort_strings join
resolve_chat snap alias = elim (find_chat alias snap.chats) [
  | some c ↦ ok c
  | none ↦
      if null snap.chats
      then fail
          (new_error (codes "unknown chat " ++ (quoted alias ++ codes " (catalog has no chats)")))
      else fail (
          new_error (
            codes "unknown chat alias "
            ++ (quoted alias
                ++ (codes ", available in catalog: "
                    ++ join_sorted (map (λ c. c.name) snap.chats)))))
]

-- `DefaultChat`
unfoldable pub default_chat_of : List ChatEntry → Option ChatEntry
default_chat_of [] = none
default_chat_of (c ∷ chats) = if c.is_default then some c else default_chat_of chats

-- `ResolveBotByID`
unfoldable pub resolve_bot_by_id : Str → List BotEntry → Option BotEntry
unfolding str_eq
resolve_bot_by_id bot_id [] = none
resolve_bot_by_id bot_id (b ∷ bots) =
    if str_eq b.id bot_id then some b else resolve_bot_by_id bot_id bots

-- No age stands for an age that is not positive: a snapshot that does not expire.
pub record CatalogCache : Type 0 where
  pub snapshot : Option CatalogSnapshot
  pub max_age : Option ℕ

-- `Update`
unfoldable pub update_catalog : CatalogSnapshot → CatalogCache → CatalogCache
update_catalog snap cache = record cache { snapshot = some snap }

abbrev pub is_stale : Option ℕ → ℕ → CatalogSnapshot → Bool
is_stale none now snap = false
is_stale (some age) now snap = ltb (snap.generated_at + age) now

-- `Get` at a time.
unfoldable pub get_catalog : ℕ → CatalogCache → Option CatalogSnapshot
get_catalog now cache = elim cache.snapshot [
  | none ↦ none
  | some snap ↦ if is_stale cache.max_age now snap then none else some snap
]
