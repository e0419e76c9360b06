-- ===== src/Server/Access.antt =====
-- Chat scopes: `Scoped`, `ChatAllowed`, `authorizeTargets` and the answers that keep a scope
-- confidential (internal/server/auth.go). `strings.ToLower` is a parameter.
pub mod Laws
pub mod Refusals
use express_botx.Common.{
  Bool, List, Option, [], false, if◌then◌else◌, leb, length, ltb, none, not, null, some, true, ℕ,
  ◌&&◌, ◌++◌, ◌==◌, ◌||◌, ◌∷◌,
}
use express_botx.Errors.{
  ChatResult, GoError, Result, fail, is_error, membership_unavailable, not_allowed_text, ok,
  unavailable_text,
}
use express_botx.MultiSend.Fanout.{SendError}
use express_botx.MultiSend.Response.{Reply, write_access_error, write_error}
use express_botx.Server.Bots.{resolve_request_bot}
use express_botx.Server.Config.{Config, Context}
use express_botx.Server.Membership.{check}
use express_botx.Text.{Str, codes, elem, split}

abbrev pub scoped : Context → Bool
scoped ctx = ltb 0 (length ctx.key_scope) || ctx.member_scope

-- Eight, four, four, four and twelve hexadecimal digits.
unfoldable pub is_hex : ℕ → Bool
is_hex c = (leb b'0' c && leb c b'9') || (leb b'a' c && leb c b'f') || (leb b'A' c && leb c b'F')

all_hex : Str → Bool
all_hex [] = true
all_hex (c ∷ s) = is_hex c && all_hex s

uuid_parts : List ℕ → List Str → Bool
uuid_parts [] [] = true
uuid_parts (n ∷ ns) (p ∷ ps) = (length p == n && all_hex p) && uuid_parts ns ps
uuid_parts [] (p ∷ ps) = false
uuid_parts (n ∷ ns) [] = false

unfoldable pub is_uuid : Str → Bool
unfolding uuid_parts all_hex is_hex split
is_uuid s = uuid_parts (8 ∷ 4 ∷ 4 ∷ 4 ∷ 12 ∷ []) (split b'-' s)

abbrev pub forbidden : Reply
forbidden = write_error 403 not_allowed_text

unfoldable pub deny_chat : Context → GoError → Str → Reply
deny_chat ctx err stage =
    if scoped ctx
    then write_error 403 not_allowed_text
    else write_error 400 (if null stage then err.message else stage ++ (codes ": " ++ err.message))

unfoldable pub delivery_error : Context → Str → GoError → Str
delivery_error ctx stage err = if scoped ctx then stage else stage ++ (codes ": " ++ err.message)

sanitize : List SendError → List SendError
sanitize [] = []
sanitize (e ∷ es) = record e { error = not_allowed_text } ∷ sanitize es

unfoldable pub sanitize_errors : Context → List SendError → List SendError
unfolding sanitize
sanitize_errors ctx errs = if not (scoped ctx) || length errs == 0 then errs else sanitize errs

module _ (to_lower : Str → Str) where
  unfoldable pub chat_allowed : Context → Str → Bool
  chat_allowed ctx resolved =
      if ctx.member_scope
      then false
      else if length ctx.key_scope == 0
      then true
      else elem (to_lower resolved) ctx.key_scope

  module _ (chats : Str → Result ChatResult) (ctx : Context) where
    -- What the loop of `authorizeTargets` makes of one target; `none` lets it go on.
    unfoldable pub target_refusal : Bool → Str → Option Reply
    target_refusal false target =
        if is_uuid target && not (chat_allowed ctx target) then some forbidden else none
    target_refusal true target = elim (chats target) [
      | fail err ↦ some (deny_chat ctx err [])
      | ok chat ↦ if not (chat_allowed ctx chat.chat_id) then some forbidden else none
    ]

    unfoldable pub authorize_list : Bool → List Str → Option Reply
    authorize_list resolve [] = none
    authorize_list resolve (target ∷ targets) = elim (target_refusal resolve target) [
      | some reply ↦ some reply
      | none ↦ authorize_list resolve targets
    ]

    -- What the loop of `authorizeMembership` makes of one target: the chat has to resolve to a
    -- UUID, a bot to be found, and that bot to be a member. The check may change a state `S`, its
    -- cache.
    module _ {S : Type 0} (cfg : Config) (request_bot : Str)
        (check : Str → Str → S → Result (Unit {0}) × S) where
      unfoldable pub check_answer : Result (Unit {0}) × S → Option Reply × S
      check_answer (ok _, s) = (none, s)
      check_answer (fail err, s) = (
        if is_error err membership_unavailable
            then some (write_access_error 503 unavailable_text)
            else some forbidden,
        s,
      )

      unfoldable pub membership_refusal : Str → S → Option Reply × S
      unfolding check_answer
      membership_refusal target s = elim (chats target) [
        | fail err ↦ (some (deny_chat ctx err []), s)
        | ok chat ↦
            if not (is_uuid chat.chat_id)
            then (some forbidden, s)
            else elim (resolve_request_bot cfg ctx request_bot chat.bot) [
              | fail err ↦
                  (some (write_error 400 (codes "bot could not be resolved for this chat")), s)
              | ok bot ↦ check_answer (check bot chat.chat_id s)
            ]
      ]

      unfoldable pub membership_loop : List Str → S → Option Reply × S
      membership_loop [] s = (none, s)
      membership_loop (target ∷ targets) s =
          let (refusal, s') = membership_refusal target s in
          elim refusal [ some reply ↦ (some reply, s') | none ↦ membership_loop targets s' ]

    -- `authorizeMembership`. The check is absent where the server was built without one.
    module _ {S : Type 0} (cfg : Config) (gate : Option (Str → Str → S → Result (Unit {0}) × S))
        (request_bot : Str) where
      unfoldable pub authorize_membership : List Str → Bool → S → Option Reply × S
      authorize_membership targets false s = (some forbidden, s)
      authorize_membership targets true s = elim gate [
        | none ↦ (some (write_access_error 503 unavailable_text), s)
        | some check ↦ membership_loop cfg request_bot check targets s
      ]

      -- `none` is the source's `true`: the request may go on. Otherwise the answer has been
      -- written.
      unfoldable pub authorize_targets : List Str → Bool → S → Option Reply × S
      authorize_targets targets resolve s =
          if not (scoped ctx)
          then (none, s)
          else if ctx.member_scope
          then authorize_membership targets resolve s
          else (authorize_list resolve targets, s)

-- `defaultSendChat`
unfoldable pub default_send_chat : (Str → Str) → (Str → Result ChatResult) → Config → Context → Str
default_send_chat to_lower chats cfg ctx =
    if null ctx.default_chat
    then cfg.default_chat_alias
    else if null cfg.default_chat_alias
    then ctx.default_chat
    else if cfg.async_mode
    then cfg.default_chat_alias
    else elim (chats cfg.default_chat_alias) [
      | fail err ↦ ctx.default_chat
      | ok chat ↦
          if chat_allowed to_lower ctx chat.chat_id
          then cfg.default_chat_alias
          else ctx.default_chat
    ]
