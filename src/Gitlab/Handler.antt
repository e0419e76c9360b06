-- ===== src/Gitlab/Handler.antt =====
-- `handleGitlab` of internal/server/handler_gitlab.go.
pub mod Laws
use express_botx.Common.{List, Option, [], false, if◌then◌else◌, none, not, null, some, ◌++◌}
use express_botx.Errors.{ChatResult, Result, fail, ok}
use express_botx.Gitlab.Payload.{Fields, GitlabView, event_matches, normalize_gitlab, passes_filter}
use express_botx.Gitlab.Routing.Engine.{evaluate_routes}
use express_botx.Gitlab.Sender.{
  GitlabSender, Reject, ScopeAnswer, bound_elsewhere, in_scope, outside, rejected,
  resolve_gitlab_auth, sender_scope_targets,
}
use express_botx.Gitlab.Templates.{select_template}
use express_botx.MultiSend.ChatIds.{parse_chat_ids}
use express_botx.MultiSend.Fanout.{Fanout}
use express_botx.MultiSend.Response.{Reply, ignored, write_error, write_multi_send}
use express_botx.Server.Bots.{quoted}
use express_botx.Server.Config.{Config, Context}
use express_botx.Server.Send.{SendPayload, fanout_send}
use express_botx.Text.{Str, codes, trim_space}

-- What the body of a request turns out to be: unreadable, no JSON object, or the payload.
pub data RequestBody : Type 0 where
  unreadable : Str → RequestBody
  invalid_json : Str → RequestBody
  payload : Fields → RequestBody

-- `query_chat` is the query parameter `chat_id`, if it is there at all.
pub record GitlabRequest : Type 0 where
  pub token : Str
  pub body : RequestBody
  pub query_chat : Option Str

abbrev pub reject_text : Reject → Str
reject_text (outside ref) =
    codes "chat " ++ (quoted ref ++ codes " is outside this token's allowed chats")
reject_text (bound_elsewhere ref ref_bot entry) =
    codes "chat "
    ++ (quoted ref
        ++ (codes " is bound to bot "
            ++ (quoted ref_bot
                ++ (codes ", but this token delivers to that chat via "
                    ++ (quoted entry.target
                        ++ (codes " (bot " ++ (quoted entry.bot ++ codes ")")))))))

abbrev pub write_ignored : Str → Str → Reply
write_ignored key reason = record { status = 200; retry_after = false; body = ignored key reason }

-- Where an accepted event goes, or the answer that ends the request.
pub data Destination : Type 0 where
  answer : Reply → Destination
  deliver_to : List Str → Destination

abbrev by_scope : ScopeAnswer → Destination
by_scope (rejected why) = answer (write_error 403 (reject_text why))
by_scope (in_scope targets) = deliver_to targets

module _ {T : Type 0} (chats : Str → Result ChatResult) where
  unfoldable pub by_routes : GitlabSender T → GitlabView → Destination
  by_routes sender view =
      if null sender.routes
      then deliver_to sender.targets
      else let e = evaluate_routes sender.routes view in
        if not e.matched
        then answer (write_ignored view.event_key (codes "no route matched"))
        else deliver_to e.chats

  -- The `switch` over the query's chats and the sender's routes.
  unfoldable pub destination : GitlabSender T → GitlabView → Option Str → Destination
  destination sender view none = by_routes sender view
  destination sender view (some value) =
      if null (parse_chat_ids value)
      then answer
          (write_error 400 (codes "chat_id is empty: provide at least one chat, or omit chat_id"))
      else by_scope (sender_scope_targets chats sender.scope (parse_chat_ids value))

abbrev deliver_reply : {S : Type 0} → Fanout S → Reply × S
deliver_reply f = (write_multi_send f.results f.errs 200, f.state)

-- The end of the handler: the rendered event goes to its destination.
finish : {S : Type 0} → (List Str → S → Fanout S) → Destination → S → Reply × S
finish fan_out (answer reply) s = (reply, s)
finish fan_out (deliver_to targets) s = deliver_reply (fan_out targets s)

abbrev status_word : {T : Type 0} → GitlabSender T → GitlabView → Str
status_word sender view =
    if event_matches view.kind view.event_key sender.error_events then codes "error" else codes "ok"

module _ {T S : Type 0} (chats : Str → Result ChatResult) (cfg : Config) (ctx : Context)
    (execute : T → GitlabView → Result Str) (send : SendPayload → S → Result Str × S) where
  rendered : GitlabSender T → GitlabView → Option Str → Result Str → S → Reply × S
  rendered sender view query (fail err) s =
      (write_error 400 (codes "template error: " ++ err.message), s)
  rendered sender view query (ok msg) s =
      if null (trim_space msg)
      then (write_ignored view.event_key (codes "empty message"), s)
      else finish
          (λ targets. fanout_send chats cfg ctx send targets [] msg (status_word sender view))
          (destination chats sender view query) s

  accepted : GitlabSender T → GitlabView → Option Str → S → Reply × S
  accepted sender view query s =
      if not (passes_filter view.kind view.event_key sender.only sender.exclude)
      then (write_ignored view.event_key (codes "event filtered"), s)
      else rendered sender view query
          (execute (select_template sender.templates view.kind view.event_key) view) s

  decoded : GitlabSender T → RequestBody → Option Str → S → Reply × S
  decoded sender (unreadable why) query s =
      (write_error 400 (codes "cannot read request body: " ++ why), s)
  decoded sender (invalid_json why) query s = (write_error 400 (codes "invalid JSON: " ++ why), s)
  decoded sender (payload raw) query s = accepted sender (normalize_gitlab raw) query s

  -- `none` for the senders is the source's nil configuration.
  unfoldable pub handle_gitlab : Option (List (GitlabSender T)) → GitlabRequest → S → Reply × S
  unfolding decoded accepted rendered finish
  handle_gitlab none r s = (write_error 500 (codes "gitlab not configured"), s)
  handle_gitlab (some senders) r s = elim (resolve_gitlab_auth senders r.token) [
    | none ↦ (write_error 401 (codes "invalid gitlab token"), s)
    | some sender ↦ decoded sender r.body r.query_chat s
  ]
