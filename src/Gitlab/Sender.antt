-- ===== src/Gitlab/Sender.antt =====
-- Senders: which token belongs to which sender, and which chats a sender may address
-- (`resolveGitlabAuth` and `senderScopeTargets` of internal/server/handler_gitlab.go).
pub mod Laws
use express_botx.Common.{
  Bool, List, Option, [], if◌then◌else◌, inl, inr, none, not, null, some, ◌&&◌, ◌++◌, ◌∷◌, ◌⊎◌,
}
use express_botx.Errors.{ChatResult, Result, fail, ok}
use express_botx.Gitlab.Routing.Engine.{CompiledRoute}
use express_botx.Gitlab.Templates.{GitlabTemplates}
use express_botx.Server.Config.{get_key}
use express_botx.Text.{Str, elem, is_some, str_eq}

pub record GitlabTarget : Type 0 where
  pub target : Str
  pub bot : Str

unfoldable pub bot_conflict : GitlabTarget → Str → Str → Bool
bot_conflict t ref ref_bot =
    not (str_eq ref t.target)
    && not (null ref_bot)
    && not (null t.bot)
    && not (str_eq ref_bot t.bot)

pub record GitlabSender (T : Type 0) : Type 0 where
  pub label : Str
  pub secret : Str
  pub scope : List (Str × GitlabTarget)
  pub targets : List Str
  pub only : List Str
  pub exclude : List Str
  pub error_events : List Str
  pub templates : GitlabTemplates T
  pub routes : List CompiledRoute

-- The loop goes through every sender, and keeps the first hit. Two byte strings compare equal
-- under `subtle.ConstantTimeCompare` exactly if they are equal.
unfoldable pub auth_loop :
    {T : Type 0} → Str → Option (GitlabSender T) → List (GitlabSender T) → Option (GitlabSender T)
auth_loop token matched [] = matched
auth_loop token matched (sender ∷ senders) =
    auth_loop token
      (if (not (null sender.secret) && str_eq token sender.secret) && not (is_some matched)
        then some sender
        else matched)
      senders

unfoldable pub resolve_gitlab_auth :
    {T : Type 0} → List (GitlabSender T) → Str → Option (GitlabSender T)
unfolding auth_loop
resolve_gitlab_auth senders token = if null token then none else auth_loop token none senders

-- Why a chat selection is refused.
pub data Reject : Type 0 where
  outside : Str → Reject
  bound_elsewhere : Str → Str → GitlabTarget → Reject

pub data ScopeAnswer : Type 0 where
  in_scope : List Str → ScopeAnswer
  rejected : Reject → ScopeAnswer

module _ (chats : Str → Result ChatResult) (scope : List (Str × GitlabTarget)) where
  -- The canonical UUID of a reference, and the bot that an alias is bound to.
  unfoldable pub canonicalize : Str → Option (Str × Str)
  canonicalize ref = elim (get_key scope ref) [
    | some _ ↦ some (ref, [])
    | none ↦ elim (chats ref) [
      | fail err ↦ none
      | ok resolved ↦ if null resolved.chat_id then none else some (resolved.chat_id, resolved.bot)
    ]
  ]

  -- The tests that one reference has to pass: its canonical UUID and its entry in the scope.
  unfoldable pub admit : Str → Reject ⊎ (Str × GitlabTarget)
  admit ref = elim (canonicalize ref) [
    | none ↦ inl (outside ref)
    | some (canonical, ref_bot) ↦ elim (get_key scope canonical) [
      | none ↦ inl (outside ref)
      | some entry ↦
          if bot_conflict entry ref ref_bot
          then inl (bound_elsewhere ref ref_bot entry)
          else inr (canonical, entry)
    ]
  ]

  unfoldable pub scope_loop : List Str → List Str → List Str → ScopeAnswer
  scope_loop seen targets [] = in_scope targets
  scope_loop seen targets (ref ∷ refs) = elim (admit ref) [
    | inl why ↦ rejected why
    | inr (canonical, entry) ↦
        if elem canonical seen
        then scope_loop seen targets refs
        else scope_loop (canonical ∷ seen) (targets ++ entry.target ∷ []) refs
  ]

  unfoldable pub sender_scope_targets : List Str → ScopeAnswer
  unfolding scope_loop admit canonicalize bot_conflict
  sender_scope_targets requested = scope_loop [] [] requested
