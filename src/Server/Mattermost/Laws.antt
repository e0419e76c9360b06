-- ===== src/Server/Mattermost/Laws.antt =====
-- When a post is created, and when it is edited.
use express_botx.Common.{Option, [], false, none, some, true, ◌∷◌, ◌≡◌, ◌≢◌, ◌≤◌, ◌⊎◌}
use express_botx.Errors.{ChatResult, Result, ok}
use express_botx.MultiSend.Response.{Reply}
use express_botx.Server.Access.{authorize_targets, scoped}
use express_botx.Server.Alerts.Alertmanager.{WebhookBody, body_read}
use express_botx.Server.Bots.{resolve_request_bot}
use express_botx.Server.Config.{Config, Context}
use express_botx.Server.Mattermost.Posts.{
  EditPayload, MattermostRequest, PostReady, edit_reply, post_ready, post_refused,
  prepare_mattermost_post, status_for, target_of,
}
use express_botx.Server.Mattermost.Render.{MattermostConfig, MattermostPost, render_mattermost_post}
use express_botx.Text.{Str, trim_space}

module _ {S : Type 0} (to_lower : Str → Str) (chats : Str → Result ChatResult) (cfg : Config)
    (ctx : Context) (gate : Option (Str → Str → S → Result (Unit {0}) × S)) where
  abbrev prepare : Option MattermostConfig → WebhookBody MattermostPost → S → PostReady × S
  prepare = prepare_mattermost_post to_lower chats cfg ctx gate

  abbrev authorized : Str → S → Option Reply × S
  authorized target = authorize_targets to_lower chats ctx cfg gate [] (target ∷ []) true

  -- An error, with no effect but the check of the one chat.
  abbrev pub IsTurnedAway : S → Reply × S → Type 0
  IsTurnedAway s result =
      (400 ≤ result.0.status)
      × ((result.1 ≡ s) ⊎ ((target : Str) × (result.1 ≡ (authorized target s).1)))

  -- The chat of the post, or else the single one, passed the check; it and its bot were found; and
  -- the text is what the post renders to.
  abbrev pub IsPrepared :
      Option MattermostConfig → WebhookBody MattermostPost → MattermostRequest → S → S → Type 0
  IsPrepared configured body req s s' =
      (mm : MattermostConfig) × (chat : ChatResult) × (configured ≡ some mm)
      × (body ≡ body_read req.post)
      × (req.target ≡ target_of to_lower chats cfg ctx gate mm req.post)
      × (authorized req.target s ≡ (none, s'))
      × (chats req.target ≡ ok chat)
      × (req.chat_id ≡ chat.chat_id)
      × (resolve_request_bot cfg ctx [] chat.bot ≡ ok req.bot)
      × (req.message ≡ render_mattermost_post to_lower mm req.post)
      × (req.message ≢ [])

  abbrev PreparedOrNot :
      Option MattermostConfig → WebhookBody MattermostPost → S → PostReady × S → Type 0
  PreparedOrNot mm body s (post_refused reply, s') = IsTurnedAway s (reply, s')
  PreparedOrNot mm body s (post_ready req, s') = IsPrepared mm body req s s'

  module _ (mm : MattermostConfig) (post : MattermostPost) (s : S) where
    abbrev chat_target : Str
    chat_target = target_of to_lower chats cfg ctx gate mm post

    abbrev rendered : Str
    rendered = render_mattermost_post to_lower mm post

  -- The post with that ID was given the text and the status of a prepared one.
  abbrev pub IsEdited :
      Option MattermostConfig
      → Option (EditPayload → S → Result (Unit {0}) × S)
      → Str
      → WebhookBody MattermostPost
      → S
      → Reply × S
      → Type 0
  IsEdited configured editor post_id body s result =
      (edit : EditPayload → S → Result (Unit {0}) × S) × (req : MattermostRequest) × (s' : S)
      × (editor ≡ some edit)
      × (trim_space post_id ≢ [])
      × (scoped ctx ≡ false)
      × IsPrepared configured body req s s'
      × (result
          ≡ edit_reply to_lower chats cfg ctx gate (trim_space post_id) req.post.channel_id (
              edit
                (record {
                  bot = req.bot;
                  sync_id = trim_space post_id;
                  message = req.message;
                  status = status_for to_lower chats cfg ctx gate configured req.post;
                })
                s'))
