-- ===== src/Settings/Keys.antt =====
-- The API keys: `resolveAPIKeys`, `resolveKeyScope` and `checkKeyCollisions` of
-- internal/cmd/serve.go. The resolving of secrets is a parameter.
pub mod Laws
pub mod Scope
use express_botx.Common.{Bool, List, Option, [], if◌then◌else◌, none, null, some, ◌&&◌, ◌++◌, ◌∷◌}
use express_botx.Errors.{GoError, Result, fail, new_error, ok}
use express_botx.Server.Bots.{quoted}
use express_botx.Server.Config.{ResolvedKey, get_key}
use express_botx.Settings.Chats.{ChatConfig, resolve_chat_ref}
use express_botx.Text.{Str, codes, is_some}

-- `chats` is absent, or a list that may be empty.
pub record ApiKeyConfig : Type 0 where
  pub name : Str
  pub key : Str
  pub chats : Option (List Str)
  pub chats_where_member : Bool
  pub allow_query_auth : Bool

abbrev pub key_error : Str → Str → GoError
key_error name text = new_error (codes "key " ++ (quoted name ++ (codes ": " ++ text)))

module _ (to_lower : Str → Str) (chats : List (Str × ChatConfig)) where
  unfoldable pub scope_ids : Str → List Str → Result (List Str)
  scope_ids name [] = ok []
  scope_ids name (c ∷ refs) = elim (resolve_chat_ref chats c) [
    | fail e ↦ fail (record e { message = (key_error name e.message).message })
    | ok found ↦ elim (scope_ids name refs) [
      | fail e ↦ fail e
      | ok scope ↦ ok (to_lower found.0 ∷ scope)
    ]
  ]

  unfoldable pub resolve_key_scope : ApiKeyConfig → Result (List Str)
  resolve_key_scope k = elim k.chats [
    | none ↦ ok []
    | some refs ↦
        if null refs
        then fail (
            key_error k.name
              (codes "chats must not be empty; omit the field to leave the key unrestricted"))
        else scope_ids k.name refs
  ]

  abbrev pub only_chat : Option (List Str) → Str
  only_chat (some (c ∷ [])) = c
  only_chat _ = []

  module _ (resolve_secret : Str → Result Str) where
    -- One round of the loop.
    unfoldable pub resolve_api_key : ApiKeyConfig → Result ResolvedKey
    resolve_api_key k = elim (resolve_secret k.key) [
      | fail e ↦ fail (record e { message = (key_error k.name e.message).message })
      | ok value ↦
          if k.chats_where_member && is_some k.chats
          then fail (key_error k.name (codes "chats_where_member cannot be combined with chats"))
          else elim (resolve_key_scope k) [
            | fail e ↦ fail e
            | ok scope ↦ ok (record {
              name = k.name;
              key = value;
              chats = scope;
              chats_where_member = k.chats_where_member;
              default_chat = only_chat k.chats;
              allow_query_auth = k.allow_query_auth;
            })
          ]
    ]

    unfoldable pub resolve_api_keys : List ApiKeyConfig → Result (List ResolvedKey)
    resolve_api_keys [] = ok []
    resolve_api_keys (k ∷ keys) = elim (resolve_api_key k) [
      | fail e ↦ fail e
      | ok resolved ↦ elim (resolve_api_keys keys) [
        | fail e ↦ fail e
        | ok rest ↦ ok (resolved ∷ rest)
      ]
    ]

-- The loop of `checkKeyCollisions`, with the names by value.
unfoldable pub collision : List (Str × Str) → List ResolvedKey → Option GoError
unfolding get_key
collision seen [] = none
collision seen (k ∷ keys) = elim (get_key seen k.key) [
  | some owner ↦ some (
      new_error (
        codes "API keys "
        ++ (quoted owner
            ++ (codes " and "
                ++ (quoted k.name
                    ++ codes
                        " resolve to the same value: one would silently replace the other's chat scope")))))
  | none ↦ collision ((k.key, k.name) ∷ seen) keys
]

unfoldable pub check_key_collisions : List ResolvedKey → Option GoError
unfolding collision
check_key_collisions keys = collision [] keys
