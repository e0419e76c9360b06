-- ===== src/Callbacks/Handler/Laws.antt =====
-- Who can start a handler, and which handlers a command starts.
use express_botx.Callbacks.Event.{parse_event_type}
use express_botx.Callbacks.Handler.{
  CallbackPayload, Dispatch, Received, capture, dispatch, handle_command, not_json, received,
  unread, untouched,
}
use express_botx.Callbacks.Router.{MatchedRule, RouterRule, route}
use express_botx.Common.{
  Bool-cases, List, [], ap, append-nil, append_assoc, ap₂, arith, if◌then◌else◌, inl, inr, not,
  null, refl, sym, ◌&&◌, ◌++◌, ◌||◌, ◌∙◌, ◌∷◌, ◌≡◌, ◌≢◌, ◌⊎◌,
}
use express_botx.Errors.{GoError, Result, fail, ok}
use express_botx.MultiSend.Response.{Reply}
use express_botx.Text.{Str, str_eq}
use express_botx.Text.Equality.{str_eq_iff}

module _ {H S : Type 0} (handle : H → Str → Str → S → Result (Unit {0}) × S) where
  -- A command is accepted: complete, for the bot of its token if there is one, and handled by the
  -- rules of its event.
  abbrev pub Accepted :
      List (RouterRule H) → Str → Received CallbackPayload → S → Reply × Dispatch H S → Type 0
  Accepted rules jwt_bot body s result =
      (raw : Str) × (p : CallbackPayload) × (body ≡ received raw p)
      × (p.bot_id ≢ [])
      × (p.sync_id ≢ [])
      × (p.group_chat_id ≢ [])
      × ((jwt_bot ≡ []) ⊎ (jwt_bot ≡ p.bot_id))
      × (result.0.status ≡ 202)
      × (result.1
          ≡ dispatch handle (route rules (parse_event_type p.command_body))
              (parse_event_type p.command_body) raw (untouched s))

  abbrev pub Refused : S → Reply × Dispatch H S → Type 0
  Refused s result =
      (result.1 ≡ untouched s)
      × ((result.0.status ≡ 400) ⊎ (result.0.status ≡ 401) ⊎ (result.0.status ≡ 403))

  pub handle_command-cases :
      (rules : List (RouterRule H)) (jwt_bot : Str) (body : Received CallbackPayload) (s : S)
      → Refused s (handle_command handle rules jwt_bot body s)
        ⊎ Accepted rules jwt_bot body s (handle_command handle rules jwt_bot body s)
  handle_command-cases rules jwt_bot unread s = unfold handle_command in inl (refl, inl refl)
  handle_command-cases rules jwt_bot not_json s = unfold handle_command in inl (refl, inl refl)
  handle_command-cases rules jwt_bot (received raw p) s =
      elim (Bool-cases (null p.bot_id || null p.sync_id)) [
        | inl y ↦ unfold handle_command in rw y (inl (refl, inl refl))
        | inr a ↦ elim (Bool-cases (null p.group_chat_id)) [
          | inl y ↦ unfold handle_command in rw (a, y) (inl (refl, inl refl))
          | inr b ↦ elim (Bool-cases (not (null jwt_bot) && not (str_eq jwt_bot p.bot_id))) [
            | inl y ↦ unfold handle_command in rw (a, b, y) (inl (refl, inr (inr refl)))
            | inr c ↦
                unfold handle_command in
                rw (a, b, c)
                  (inr (
                    raw,
                    p,
                    refl,
                    (λ z. ground arith),
                    (λ z. ground arith),
                    (λ z. ground arith),
                    ground (arith, str_eq_iff jwt_bot p.bot_id),
                    refl,
                    refl,
                  ))
          ]
        ]
      ]

  -- The handlers that are started, and those that run in the request, one after the other.
  abbrev pub asyncs : List (MatchedRule H) → List H
  asyncs [] = []
  asyncs (m ∷ ms) = if m.async then m.handler ∷ asyncs ms else asyncs ms

  abbrev pub syncs : List (MatchedRule H) → List H
  syncs [] = []
  syncs (m ∷ ms) = if m.async then syncs ms else m.handler ∷ syncs ms

  unfoldable pub run_all : Str → Str → List H → S → S
  run_all event raw [] s = s
  run_all event raw (h ∷ hs) s = run_all event raw hs (handle h event raw s).1

  abbrev error_part : Result (Unit {0}) → List GoError
  error_part (ok _) = []
  error_part (fail e) = e ∷ []

  unfoldable pub errors_of : Str → Str → List H → S → List GoError
  errors_of event raw [] s = []
  errors_of event raw (h ∷ hs) s =
      error_part (handle h event raw s).0 ++ errors_of event raw hs (handle h event raw s).1

  -- The whole effect of a list of matched rules, after what there was before.
  abbrev pub Ran : List (MatchedRule H) → Str → Str → Dispatch H S → Dispatch H S → Type 0
  Ran ms event raw d d' =
      (d'.spawned ≡ d.spawned ++ asyncs ms)
      × (d'.captured ≡ d.captured ++ errors_of event raw (syncs ms) d.state)
      × (d'.state ≡ run_all event raw (syncs ms) d.state)

  capture_lem :
      (r : Result (Unit {0}) × S) (d : Dispatch H S)
      → ((capture handle r d).spawned ≡ d.spawned)
        × ((capture handle r d).captured ≡ d.captured ++ error_part r.0)
        × ((capture handle r d).state ≡ r.1)
  capture_lem (ok _, s) d = (refl, sym (append-nil _), refl)
  capture_lem (fail e, s) d = (refl, refl, refl)

  dispatch-Ran :
      (ms : List (MatchedRule H)) (event raw : Str) (d : Dispatch H S)
      → Ran ms event raw d (dispatch handle ms event raw d)
  unfolding dispatch run_all errors_of
  dispatch-Ran [] event raw d = (sym (append-nil _), sym (append-nil _), refl)
  dispatch-Ran (m ∷ ms) event raw d = elim (Bool-cases m.async) [
    | inl y ↦
        let (a, b, c) =
          dispatch-Ran ms event raw (record d { spawned = d.spawned ++ m.handler ∷ [] }) in
        rw y (a ∙ append_assoc d.spawned _ _, b, c)
    | inr n ↦
        let r = handle m.handler event raw d.state in
        let (p, q, t) = capture_lem r d in
        let (a, b, c) = dispatch-Ran ms event raw (capture handle r d) in
        rw n (
          a ∙ ap (λ z. z ++ asyncs ms) p,
          b ∙ ap₂ (λ y z. y ++ errors_of event raw (syncs ms) z) q t ∙ append_assoc d.captured _ _,
          c ∙ ap (run_all event raw (syncs ms)) t,
        )
  ]

  -- An accepted command starts the asynchronous handlers of its event, each once and in order, and
  -- runs the others one after another, whatever errors they give: those are captured in order.
  pub handle_command-Ran :
      (rules : List (RouterRule H)) (jwt_bot raw : Str) (p : CallbackPayload) (s : S)
      → (handle_command handle rules jwt_bot (received raw p) s).0.status ≡ 202
      → Ran
          (route rules (parse_event_type p.command_body))
          (parse_event_type p.command_body)
          raw
          (untouched s)
          (handle_command handle rules jwt_bot (received raw p) s).1
  handle_command-Ran rules jwt_bot raw p s h =
      elim (handle_command-cases rules jwt_bot (received raw p) s) [
        | inl (_, inl e) ↦ ground arith
        | inl (_, inr (inl e)) ↦ ground arith
        | inl (_, inr (inr e)) ↦ ground arith
        | inr (raw', p', same, _, _, _, _, _, effect) ↦
            let q : p' ≡ p = cc in
            let r : raw' ≡ raw = cc in
            rw (effect, q, r)
              (dispatch-Ran (route rules (parse_event_type p.command_body))
                (parse_event_type p.command_body) raw (untouched s))
      ]
