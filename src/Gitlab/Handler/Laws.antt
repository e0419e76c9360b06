-- ===== src/Gitlab/Handler/Laws.antt =====
-- What a GitLab event can reach, and when anything is sent at all.
use express_botx.Common.{
  All, Bool-cases, List, Option, Option-cases, [], arith, inl, inr, none, null, refl, some, true,
  ◌∷◌, ◌≡◌, ◌≢◌, ◌⊎◌,
}
use express_botx.Errors.{ChatResult, Result, fail, ok}
use express_botx.Gitlab.Handler.{
  Destination, GitlabRequest, RequestBody, accepted, answer, by_routes, decoded, deliver_reply,
  deliver_to, destination, finish, handle_gitlab, invalid_json, payload, rendered, status_word,
  unreadable,
}
use express_botx.Gitlab.Payload.{Fields, GitlabView, normalize_gitlab, passes_filter}
use express_botx.Gitlab.Routing.Engine.{CompiledRoute, evaluate_routes}
use express_botx.Gitlab.Routing.Evaluate.{Fires, evaluate_routes-chats_iff}
use express_botx.Gitlab.Sender.{
  GitlabSender, Reject, ScopeAnswer, in_scope, rejected, resolve_gitlab_auth, sender_scope_targets,
}
use express_botx.Gitlab.Sender.Laws.{
  FirstWith, Reached, resolve_gitlab_auth-FirstWith, sender_scope_targets-Reached,
}
use express_botx.Gitlab.Templates.{select_template}
use express_botx.MultiSend.ChatIds.{parse_chat_ids}
use express_botx.MultiSend.Fanout.{Fanout}
use express_botx.MultiSend.Response.{Reply}
use express_botx.Server.Config.{Config, Context}
use express_botx.Server.Send.{SendPayload, fanout_send}
use express_botx.Text.{Str, elem, str_eq, trim_space}
use express_botx.Text.Equality.{str_eq→eq}

module _ {T : Type 0} (chats : Str → Result ChatResult) (sender : GitlabSender T)
    (view : GitlabView) where
  -- Where an event of this sender may go: with no chat asked for, to the chats of the rules that
  -- fire, or to all of the sender's targets if it has no rules; with chats asked for, to the
  -- sender's own targets for them.
  abbrev pub Allowed : Option Str → Str → Type 0
  Allowed none t =
      ((sender.routes ≡ []) × (elem t sender.targets ≡ true))
      ⊎ ((r : CompiledRoute) × Fires sender.routes view r × (elem t r.chats ≡ true))
  Allowed (some value) t = Reached chats sender.scope (parse_chat_ids value) t

  by_routes-Allowed :
      (targets : List Str) (t : Str)
      → by_routes chats sender view ≡ deliver_to targets
      → elem t targets ≡ true
      → Allowed none t
  unfolding by_routes
  by_routes-Allowed targets t h i = elim (Bool-cases (null sender.routes)) [
    | inl y ↦ let e : sender.targets ≡ targets = ground arith in inl (ground arith, rw e i)
    | inr n ↦ elim (Bool-cases (evaluate_routes sender.routes view).matched) [
      | inr m ↦ cc (rw (n, by_routes, m) at h)
      | inl m ↦
          let e : (evaluate_routes sender.routes view).chats ≡ targets = ground arith in
          inr ((evaluate_routes-chats_iff sender.routes view t).0 (rw e i))
    ]
  ]

  Reached-elem :
      (refs out : List Str) (t : Str)
      → All (Reached chats sender.scope refs) out
      → elem t out ≡ true
      → Reached chats sender.scope refs t
  unfolding elem
  Reached-elem refs [] t h i = cc
  Reached-elem refs (o ∷ out) t (h, hs) i = elim (Bool-cases (str_eq o t)) [
    | inl y ↦ rw (← str_eq→eq o t y) h
    | inr n ↦ Reached-elem refs out t hs (rw n at i)
  ]

  -- Every chat that an event is delivered to is one that it may go to.
  pub destination-Allowed :
      (query : Option Str) (targets : List Str) (t : Str)
      → destination chats sender view query ≡ deliver_to targets
      → elem t targets ≡ true
      → Allowed query t
  unfolding destination
  destination-Allowed none targets t h i = by_routes-Allowed targets t h i
  destination-Allowed (some value) targets t h i =
      elim (scope_cases (sender_scope_targets chats sender.scope (parse_chat_ids value))) [
        | inl (out, e) ↦
            let same : out ≡ targets = ground arith in
            Reached-elem (parse_chat_ids value) targets t
              (rw (← same)
                (sender_scope_targets-Reached chats sender.scope (parse_chat_ids value) out e).0)
              i
        | inr (why, e) ↦ ground arith
      ]
    where
      scope_cases :
          (a : ScopeAnswer)
          → ((out : List Str) × (a ≡ in_scope out)) ⊎ ((why : Reject) × (a ≡ rejected why))
      scope_cases (in_scope out) = inl (out, refl)
      scope_cases (rejected why) = inr (why, refl)

module _ {T S : Type 0} (chats : Str → Result ChatResult) (cfg : Config) (ctx : Context)
    (execute : T → GitlabView → Result Str) (send : SendPayload → S → Result Str × S) where
  -- The request is answered without sending anything, or it is a genuine event: its token is a
  -- sender's, the sender's filter lets it pass, it renders to a text that is not blank, and the
  -- answer is that of one fan-out to its destination.
  abbrev pub Sends : List (GitlabSender T) → GitlabRequest → S → Reply × S → Type 0
  Sends senders r s result =
      (sender : GitlabSender T) × (raw : Fields) × (msg : Str) × (targets : List Str) × FirstWith
        r.token senders sender
      × (r.body ≡ payload raw)
      × (passes_filter (normalize_gitlab raw).kind (normalize_gitlab raw).event_key sender.only
            sender.exclude
          ≡ true)
      × (execute
            (select_template sender.templates (normalize_gitlab raw).kind
              (normalize_gitlab raw).event_key)
            (normalize_gitlab raw)
          ≡ ok msg)
      × (trim_space msg ≢ [])
      × (destination chats sender (normalize_gitlab raw) r.query_chat ≡ deliver_to targets)
      × (result
          ≡ deliver_reply (
              fanout_send chats cfg ctx send targets [] msg
                (status_word sender (normalize_gitlab raw)) s))

  abbrev Quiet : S → Reply × S → Type 0
  Quiet s result = result.1 ≡ s

  finish-cases :
      (fan_out : List Str → S → Fanout S) (d : Destination) (s : S)
      → Quiet s (finish fan_out d s)
        ⊎ ((targets : List Str) × (d ≡ deliver_to targets)
            × (finish fan_out d s ≡ deliver_reply (fan_out targets s)))
  unfolding finish
  finish-cases fan_out (answer reply) s = inl refl
  finish-cases fan_out (deliver_to targets) s = inr (targets, refl, refl)

  abbrev FanOut : GitlabSender T → GitlabView → Option Str → Result Str → S → Reply × S → Type 0
  FanOut sender view query m s result =
      (msg : Str) × (targets : List Str) × (m ≡ ok msg)
      × (trim_space msg ≢ [])
      × (destination chats sender view query ≡ deliver_to targets)
      × (result
          ≡ deliver_reply
              (fanout_send chats cfg ctx send targets [] msg (status_word sender view) s))

  rendered-cases :
      (sender : GitlabSender T) (view : GitlabView) (query : Option Str) (m : Result Str) (s : S)
      → Quiet s (rendered chats cfg ctx execute send sender view query m s)
        ⊎ FanOut sender view query m s (rendered chats cfg ctx execute send sender view query m s)
  unfolding rendered
  rendered-cases sender view query (fail err) s = inl refl
  rendered-cases sender view query (ok msg) s = elim (Bool-cases (null (trim_space msg))) [
    | inl e ↦ rw e (inl refl)
    | inr e ↦
        let fan_out = λ (targets : List Str).
          fanout_send chats cfg ctx send targets [] msg (status_word sender view) in
        rw e (elim (finish-cases fan_out (destination chats sender view query) s) [
          | inl q ↦ inl q
          | inr (targets, d, f) ↦ inr (msg, targets, refl, (λ z. ground arith), d, f)
        ])
  ]

  decoded-cases :
      (sender : GitlabSender T) (body : RequestBody) (query : Option Str) (s : S)
      → Quiet s (decoded chats cfg ctx execute send sender body query s)
        ⊎ ((raw : Fields) × (body ≡ payload raw)
            × (passes_filter
                  (normalize_gitlab raw).kind
                  (normalize_gitlab raw).event_key
                  sender.only
                  sender.exclude
                ≡ true)
            × FanOut sender
                (normalize_gitlab raw)
                query
                (execute
                  (select_template sender.templates
                    (normalize_gitlab raw).kind
                    (normalize_gitlab raw).event_key)
                  (normalize_gitlab raw))
                s
                (decoded chats cfg ctx execute send sender body query s))
  unfolding decoded accepted
  decoded-cases sender (unreadable why) query s = inl refl
  decoded-cases sender (invalid_json why) query s = inl refl
  decoded-cases sender (payload raw) query s =
      let view = normalize_gitlab raw in
      elim (Bool-cases (passes_filter view.kind view.event_key sender.only sender.exclude)) [
        | inr n ↦ rw n (inl refl)
        | inl y ↦
            rw y
              (elim (rendered-cases sender view query
                (execute (select_template sender.templates view.kind view.event_key) view) s) [
                  | inl q ↦ inl q
                  | inr f ↦ inr (raw, refl, y, f)
                ])
      ]

-- For any request, either nothing is sent (the state that sending works on is untouched), or the
-- token is a sender's, the payload passes that sender's filter and renders to a text that is not
-- blank, and the whole effect and the answer are those of one fan-out to the destination.
pub handle_gitlab-Sends :
    {T S : Type 0} (chats : Str → Result ChatResult) (cfg : Config) (ctx : Context)
    (execute : T → GitlabView → Result Str) (send : SendPayload → S → Result Str × S)
    (senders : List (GitlabSender T)) (r : GitlabRequest) (s : S)
    → ((handle_gitlab chats cfg ctx execute send (some senders) r s).1 ≡ s)
      ⊎ Sends chats cfg ctx execute send senders r s
          (handle_gitlab chats cfg ctx execute send (some senders) r s)
unfolding handle_gitlab
handle_gitlab-Sends chats cfg ctx execute send senders r s =
    elim (Option-cases (resolve_gitlab_auth senders r.token)) [
      | inl e ↦ rw (e, handle_gitlab) (inl refl)
      | inr (sender, e) ↦
          rw (e, handle_gitlab)
            (elim (decoded-cases chats cfg ctx execute send sender r.body r.query_chat s) [
              | inl q ↦ inl q
              | inr (raw, b, f, (msg, targets, m, n, d, res)) ↦ inr (
                sender,
                raw,
                msg,
                targets,
                (resolve_gitlab_auth-FirstWith senders r.token sender e).1,
                b,
                f,
                m,
                n,
                d,
                res,
              )
            ])
    ]
