-- ===== src/Server/Mattermost/Posts.antt =====
-- The handlers: a post is prepared, then create_reply or edit_reply.
use express_botx.Common.{Option, [], false, if◌then◌else◌, none, null, some, true, ◌++◌, ◌∷◌}
use express_botx.Errors.{ChatResult, GoError, Result, fail, ok}
use express_botx.MultiSend.Response.{
  Reply, authorization_failure, post_body, write_access_error, write_error,
}
use express_botx.Server.Access.{authorize_targets, delivery_error, deny_chat, scoped}
use express_botx.Server.Alerts.Alertmanager.{WebhookBody, body_invalid, body_read, body_unreadable}
use express_botx.Server.Alerts.Delivery.{single_chat}
use express_botx.Server.Bots.{resolve_request_bot}
use express_botx.Server.Config.{Config, Context}
use express_botx.Server.Mattermost.Render.{
  MattermostConfig, MattermostPost, render_mattermost_post, resolve_mattermost_status,
}
use express_botx.Server.Send.{SendPayload, text_payload}
use express_botx.Text.{Str, codes, trim_space}

pub record MattermostRequest : Type 0 where
  pub post : MattermostPost
  pub target : Str
  pub chat_id : Str
  pub bot : Str
  pub message : Str

pub record EditPayload : Type 0 where
  pub bot : Str
  pub sync_id : Str
  pub message : Str
  pub status : Str

pub data PostReady : Type 0 where
  post_refused : Reply → PostReady
  post_ready : MattermostRequest → PostReady

-- `writeMattermostPost`
abbrev pub post_reply : Str → Str → Reply
post_reply id channel_id = record {
  status = 200;
  retry_after = false;
  body = post_body id channel_id;
}

module _ {S : Type 0} (to_lower : Str → Str) (chats : Str → Result ChatResult) (cfg : Config)
    (ctx : Context) (gate : Option (Str → Str → S → Result (Unit {0}) × S)) where
  -- What follows the authorization.
  unfoldable pub addressed : MattermostPost → Str → Str → PostReady
  addressed post target msg = elim (chats target) [
    | fail err ↦ post_refused (deny_chat ctx err (codes "resolving chat"))
    | ok chat ↦ elim (resolve_request_bot cfg ctx [] chat.bot) [
      | fail err ↦ post_refused (write_error 400 err.message)
      | ok name ↦ post_ready (record {
        post = post;
        target = target;
        chat_id = chat.chat_id;
        bot = name;
        message = msg;
      })
    ]
  ]

  abbrev pub post_authorized : PostReady → Option Reply × S → PostReady × S
  post_authorized ready (some reply, s) = (post_refused reply, s)
  post_authorized ready (none, s) = (ready, s)

  abbrev pub target_of : MattermostConfig → MattermostPost → Str
  target_of mm post =
      let channel = trim_space post.channel_id in
      if null channel
      then single_chat mm.default_chat_id cfg.default_chat_alias mm.fallback_chat_id
      else channel

  unfoldable pub prepare_read : MattermostConfig → MattermostPost → S → PostReady × S
  prepare_read mm post s =
      let target = target_of mm post in
      let msg = render_mattermost_post to_lower mm post in
      if null target
      then (
        post_refused (
            write_error 400 (
              codes
                "channel_id is required: send it in the body or set server.mattermost.default_chat_id")),
        s,
      )
      else if null msg
      then (
        post_refused (
            write_error 400
              (codes "no content in payload: message and props.attachments are both empty")),
        s,
      )
      else post_authorized (addressed post target msg)
          (authorize_targets to_lower chats ctx cfg gate [] (target ∷ []) true s)

  unfoldable pub prepare_mattermost_post :
      Option MattermostConfig → WebhookBody MattermostPost → S → PostReady × S
  prepare_mattermost_post none body s =
      (post_refused (write_error 500 (codes "mattermost not configured")), s)
  prepare_mattermost_post (some mm) (body_unreadable why) s =
      (post_refused (write_error 400 (codes "cannot read request body: " ++ why)), s)
  prepare_mattermost_post (some mm) (body_invalid why) s =
      (post_refused (write_error 400 (codes "invalid JSON: " ++ why)), s)
  prepare_mattermost_post (some mm) (body_read post) s = prepare_read mm post s

  abbrev pub status_for : Option MattermostConfig → MattermostPost → Str
  status_for none post = codes "ok"
  status_for (some mm) post = resolve_mattermost_status to_lower mm post

  abbrev pub send_failure : GoError → Reply
  send_failure err =
      elim (authorization_failure (record { chat = []; error = []; cause = err } ∷ [])) [
        | some found ↦ write_access_error found.0 found.1
        | none ↦ write_error 502 (delivery_error ctx (codes "sending") err)
      ]

  abbrev pub create_reply : Str → Result Str × S → Reply × S
  create_reply channel (fail err, s) = (send_failure err, s)
  create_reply channel (ok sync, s) = (
    if null sync
        then write_error 502
            (codes "upstream accepted the message without a sync_id, so it could never be updated")
        else post_reply sync channel,
    s,
  )

  -- `handleMattermostCreatePost`
  unfoldable pub create_prepared :
      Option MattermostConfig → (SendPayload → S → Result Str × S) → PostReady × S → Reply × S
  create_prepared mm send (post_refused reply, s) = (reply, s)
  create_prepared mm send (post_ready req, s) =
      create_reply req.post.channel_id
        (send (text_payload req.bot req.chat_id req.message (status_for mm req.post)) s)

  unfoldable pub create_post :
      Option MattermostConfig
      → (SendPayload → S → Result Str × S)
      → WebhookBody MattermostPost
      → S
      → Reply × S
  create_post mm send body s = create_prepared mm send (prepare_mattermost_post mm body s)

  abbrev pub edit_reply : Str → Str → Result (Unit {0}) × S → Reply × S
  edit_reply id channel (fail err, s) =
      (write_error 502 (delivery_error ctx (codes "editing") err), s)
  edit_reply id channel (ok _, s) = (post_reply id channel, s)

  -- `handleMattermostUpdatePost`
  unfoldable pub update_prepared :
      Option MattermostConfig
      → (EditPayload → S → Result (Unit {0}) × S)
      → Str
      → PostReady × S
      → Reply × S
  update_prepared mm edit id (post_refused reply, s) = (reply, s)
  update_prepared mm edit id (post_ready req, s) = edit_reply id req.post.channel_id (
      edit
        (record {
          bot = req.bot;
          sync_id = id;
          message = req.message;
          status = status_for mm req.post;
        })
        s)

  unfoldable pub update_post :
      Option MattermostConfig
      → Option (EditPayload → S → Result (Unit {0}) × S)
      → Str
      → WebhookBody MattermostPost
      → S
      → Reply × S
  update_post mm editor post_id body s =
      let id = trim_space post_id in
      if null id then (write_error 400 (codes "post_id is required"), s) else elim editor [
        | none ↦ (write_error 501 (codes "editing messages is not supported in this mode"), s)
        | some edit ↦
            if scoped ctx
            then (
              write_error 403 (
                  codes
                    "editing a post is not available to a chat-scoped key: a post_id does not carry the chat it lives in, so the scope cannot be applied"),
              s,
            )
            else update_prepared mm edit id (prepare_mattermost_post mm body s)
      ]
