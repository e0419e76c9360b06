-- ===== src/Tests/Gitlab.antt =====
-- A GitLab sender with one rule, and a push event to it.
use express_botx.Common.{
  All, Bool, List, Option, [], none, refl, some, true, ℕ, ◌+◌, ◌↔◌, ◌∷◌, ◌≡◌, ◌⊎◌,
}
use express_botx.Errors.{Result, ok}
use express_botx.Gitlab.Glob.{glob_match}
use express_botx.Gitlab.Glob.Laws.{glob_match_iff}
use express_botx.Gitlab.Glob.Spec.{Matches}
use express_botx.Gitlab.Handler.{GitlabRequest, destination, handle_gitlab, payload}
use express_botx.Gitlab.Handler.Laws.{Allowed, Sends, destination-Allowed, handle_gitlab-Sends}
use express_botx.Gitlab.Payload.{Fields, GitlabView, field, no_fields, normalize_gitlab, text}
use express_botx.Gitlab.Routing.Compile.{RouteConfig}
use express_botx.Gitlab.Routing.Engine.{CompiledRoute, evaluate_routes, glob, on_event, on_values}
use express_botx.Gitlab.Routing.Evaluate.{Fires, evaluate_routes-chats_iff}
use express_botx.Gitlab.Sender.{GitlabSender, GitlabTarget, sender_scope_targets}
use express_botx.Gitlab.Sender.Laws.{Delivered, Reached, sender_scope_targets-Reached}
use express_botx.MultiSend.ChatIds.{parse_chat_ids}
use express_botx.MultiSend.Response.{Reply}
use express_botx.Server.Config.{background, get_key}
use express_botx.Server.Send.{SendPayload}
use express_botx.Tests.Samples.{directory, ops, ops_uuid, two_bots}
use express_botx.Text.{Str, codes, elem, split, str_eq, trim_space}

glob_match_iff_example :
    (glob_match (codes "release-*") (codes "release-1.2") ≡ true)
    ↔ Matches (codes "release-*") (codes "release-1.2")
glob_match_iff_example = glob_match_iff (codes "release-*") (codes "release-1.2")

-- The template type is the text itself.
abbrev by_text : Str → GitlabView → Result Str
by_text t view = ok t

abbrev no_regexps : Str → Option (Str → Bool)
no_regexps expression = none

abbrev push_rule : RouteConfig
push_rule = record {
  selectors = (codes "kind", codes "pu*" ∷ []) ∷ (codes "event", codes "push" ∷ []) ∷ [];
  chats = ops ∷ [];
  stop = true;
}

abbrev push_route : CompiledRoute
push_route = record {
  conds = on_event (codes "push" ∷ []) ∷ on_values (codes "kind") (glob (codes "pu*") ∷ []) ∷ [];
  chats = ops ∷ [];
  stop = true;
}

abbrev push_fields : Fields
push_fields = field (codes "object_kind") (text (codes "push")) no_fields

abbrev push_view : GitlabView
push_view = normalize_gitlab push_fields

evaluate_routes-chats_iff_example :
    (elem ops (evaluate_routes (push_route ∷ []) push_view).chats ≡ true)
    ↔ ((r : CompiledRoute) × Fires (push_route ∷ []) push_view r × (elem ops r.chats ≡ true))
evaluate_routes-chats_iff_example = evaluate_routes-chats_iff (push_route ∷ []) push_view ops

abbrev own_scope : List (Str × GitlabTarget)
own_scope = (ops_uuid, record { target = ops; bot = [] }) ∷ []

abbrev push_sender : GitlabSender Str
push_sender = record {
  label = codes "main";
  secret = codes "token";
  scope = own_scope;
  targets = ops ∷ [];
  only = [];
  exclude = [];
  error_events = [];
  templates = record { by_key = []; fallback = codes "pushed" };
  routes = push_route ∷ [];
}

sender_scope_targets-Reached_example :
    All (Reached directory own_scope (ops ∷ ops_uuid ∷ [])) (ops ∷ [])
    × All (Delivered directory own_scope (ops ∷ [])) (ops ∷ ops_uuid ∷ [])
unfolding sender_scope_targets get_key str_eq elem
sender_scope_targets-Reached_example =
    sender_scope_targets-Reached directory own_scope (ops ∷ ops_uuid ∷ []) (ops ∷ []) refl

destination-Allowed_example : Allowed directory push_sender push_view (some ops_uuid) ops
unfolding destination parse_chat_ids sender_scope_targets get_key str_eq elem split trim_space
destination-Allowed_example =
    destination-Allowed directory push_sender push_view (some ops_uuid) (ops ∷ []) ops refl refl

-- Sending succeeds and is counted.
abbrev send_counted : SendPayload → ℕ → Result Str × ℕ
send_counted p n = (ok (codes "sync"), n + 1)

abbrev push_request : GitlabRequest
push_request = record { token = codes "token"; body = payload push_fields; query_chat = none }

abbrev push_result : Reply × ℕ
push_result =
    handle_gitlab directory two_bots background by_text send_counted (some (push_sender ∷ []))
      push_request 0

handle_gitlab-Sends_example :
    (push_result.1 ≡ 0)
    ⊎ Sends directory two_bots background by_text send_counted
        (push_sender ∷ [])
        push_request
        0
        push_result
handle_gitlab-Sends_example =
    handle_gitlab-Sends directory two_bots background by_text send_counted (push_sender ∷ [])
      push_request 0
