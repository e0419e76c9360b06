-- ===== src/Settings/Chats.antt =====
-- The chats of a configuration, and how a reference to one is resolved.
use express_botx.Common.{
  Bool, List, Option, [], if◌then◌else◌, length, ltb, map, none, not, null, some, ◌&&◌, ◌++◌, ◌∷◌,
}
use express_botx.Errors.{GoError, Result, fail, new_error, ok}
use express_botx.Server.Access.{is_uuid}
use express_botx.Server.Bots.{quoted}
use express_botx.Server.Config.{get_key}
use express_botx.Text.{Str, codes, join, sort_strings}

pub record ChatConfig : Type 0 where
  pub id : Str
  pub bot : Str
  pub is_default : Bool

unfoldable pub sorted_map_keys {ℓ} : {V : Type ℓ} → List (Str × V) → List Str
unfolding sort_strings
sorted_map_keys m = sort_strings (map (λ e. e.0) m)

abbrev pub no_id : Str → GoError
no_id alias = new_error (codes "chat alias " ++ (quoted alias ++ codes " has no id"))

abbrev pub with_id : Str → ChatConfig → Result (Str × Str)
with_id alias chat = if null chat.id then fail (no_id alias) else ok (chat.id, chat.bot)

-- The id of the chat, and the bot that its alias is bound to.
unfoldable pub resolve_chat_ref : List (Str × ChatConfig) → Str → Result (Str × Str)
unfolding get_key sorted_map_keys join
resolve_chat_ref chats ref = if is_uuid ref then ok (ref, []) else elim (get_key chats ref) [
  | some chat ↦ with_id ref chat
  | none ↦
      if null chats
      then fail
          (new_error (codes "unknown chat " ++ (quoted ref ++ codes " (no aliases configured)")))
      else fail (
          new_error (
            codes "unknown chat alias "
            ++ (quoted ref
                ++ (codes ", available: " ++ join (codes ", ") (sorted_map_keys chats)))))
]

unfoldable pub resolve_chat_alias : List (Str × ChatConfig) → Str → Result Str
resolve_chat_alias chats chat =
    if null chat
    then fail (new_error (codes "chat is required"))
    else elim (resolve_chat_ref chats chat) [ fail e ↦ fail e | ok found ↦ ok found.0 ]

-- `DefaultChat`: the first chat so marked.
unfoldable pub marked_default : List (Str × ChatConfig) → Option (Str × ChatConfig)
marked_default [] = none
marked_default ((alias, chat) ∷ chats) =
    if chat.is_default then some (alias, chat) else marked_default chats

unfoldable pub default_aliases : List (Str × ChatConfig) → List Str
default_aliases [] = []
default_aliases ((alias, chat) ∷ chats) =
    let rest = default_aliases chats in if chat.is_default then alias ∷ rest else rest

-- `ValidateDefaultChat`: the error, if any.
unfoldable pub validate_default_chat : List (Str × ChatConfig) → Option GoError
unfolding default_aliases sort_strings join
validate_default_chat chats =
    if ltb 1 (length (default_aliases chats))
    then some (
        new_error (
          codes "multiple chats marked as default: "
          ++ (join (codes ", ") (sort_strings (default_aliases chats))
              ++ codes " — only one allowed")))
    else none

-- The end of `RequireChatIDWithBot`, for a chat that was not asked for.
unfoldable pub implied_chat : List (Str × ChatConfig) → Result (Str × Str)
unfolding marked_default sorted_map_keys join
implied_chat [] = fail (
    new_error
      (codes "chat is required: use --chat-id or configure aliases in config (chats section)"))
implied_chat ((alias, chat) ∷ []) = with_id alias chat
implied_chat (a ∷ b ∷ chats) = elim (marked_default (a ∷ b ∷ chats)) [
  | some found ↦ with_id found.0 found.1
  | none ↦ fail (
      new_error (
        codes "multiple chats configured, specify one with --chat-id: "
        ++ join (codes ", ") (sorted_map_keys (a ∷ b ∷ chats))))
]

-- `RequireChatIDWithBot`: the id of the chat and its bot.
unfoldable pub require_chat_id_with_bot : List (Str × ChatConfig) → Str → Result (Str × Str)
unfolding implied_chat
require_chat_id_with_bot chats chat_id =
    if null chat_id then implied_chat chats else resolve_chat_ref chats chat_id

unfoldable pub single_or_default_chat_alias : List (Str × ChatConfig) → Option Str
unfolding marked_default
single_or_default_chat_alias ((alias, chat) ∷ []) = some alias
single_or_default_chat_alias chats = elim (marked_default chats) [
  | none ↦ none
  | some found ↦ if not (null found.0) && not (null found.1.id) then some found.0 else none
]
