-- ===== src/MultiSend/ChatIds.antt =====
-- `parseChatIDs` and `sameChats`.
pub mod Laws
use express_botx.Common.{
  Bool, List, [], false, if◌then◌else◌, length, not, null, true, ◌++◌, ◌==◌, ◌∷◌,
}
use express_botx.Text.{Str, elem, split, trim_space}

-- The variables of the loop of `parseChatIDs` are `seen` and `out`.
chat_ids_loop : List Str → List Str → List Str → List Str
chat_ids_loop seen out [] = out
chat_ids_loop seen out (p ∷ ps) =
    let chat = trim_space p in
    let skipped = chat_ids_loop seen out ps in
    let kept = chat_ids_loop (chat ∷ seen) (out ++ chat ∷ []) ps in
    if null chat then skipped else if elem chat seen then skipped else kept

unfoldable pub parse_chat_ids : Str → List Str
unfolding chat_ids_loop split trim_space elem
parse_chat_ids raw = chat_ids_loop [] [] (split b',' raw)

-- The second loop of `sameChats`: every chat of the list is a key of the set.
unfoldable pub all_in : List Str → List Str → Bool
unfolding elem
all_in set [] = true
all_in set (c ∷ cs) = if not (elem c set) then false else all_in set cs

unfoldable pub same_chats : List Str → List Str → Bool
unfolding all_in
same_chats a b = if not (length a == length b) then false else all_in a b
