-- ===== src/Server/Gate/Laws.antt =====
-- Nothing is sent for a key scoped by membership without a check.
use express_botx.Common.{
  All, Bool, List, [], ap, arith, false, inl, inr, refl, some, subst, sym, true, ◌∷◌, ◌≡◌,
}
use express_botx.Errors.{ChatResult, Result, Result-cases, fail, ok}
use express_botx.MultiSend.Fanout.{SendResult}
use express_botx.MultiSend.Fanout.Laws.{fanout_lem, outcomes, successes}
use express_botx.Server.Bots.{resolve_request_bot}
use express_botx.Server.Config.{Config, Context}
use express_botx.Server.Gate.{check_membership, classified, gated, gated_send}
use express_botx.Server.Membership.{check}
use express_botx.Server.Send.{SendPayload, deliver_plain, fanout_send, sent_to, text_payload}
use express_botx.Text.{Str}
use express_botx.Worker.Handle.{deliver}

-- A property of every success of a list of deliveries.
successes-All :
    {S : Type 0} (P : SendResult → Type 0) (deliver : Str → S → Result SendResult × S)
    → ((t : Str) (s : S) (r : SendResult) → (deliver t s).0 ≡ ok r → P r)
    → (targets : List Str) (s : S) → All P (successes (outcomes deliver targets s))
unfolding outcomes
successes-All P deliver h [] s = tt
successes-All P deliver h (t ∷ targets) s = elim (Result-cases (deliver t s).0) [
  | inl (r, e) ↦ rw e (h t s r e, successes-All P deliver h targets (deliver t s).1)
  | inr (r, e) ↦ rw e (successes-All P deliver h targets (deliver t s).1)
]

module _ {S : Type 0} (chats : Str → Result ChatResult) (cfg : Config) (ctx : Context)
    (check : Str → Str → S → Result Bool × S) (send_fn : SendPayload → S → Result Str × S)
    (request_bot msg status : Str) where
  abbrev send_to : Str → S → Result SendResult × S
  send_to = deliver_plain chats cfg ctx (gated_send ctx (some check) send_fn) request_bot msg status

  -- A reported delivery: right before it was sent, in the chat that the target resolves to and by
  -- the bot chosen for it, the bot was found to be a member of that chat.
  abbrev pub Checked : SendResult → Type 0
  Checked r =
      (chat : ChatResult) × (name : Str) × (before : S) × (between : S) × (after : S) × (chats
          r.chat
        ≡ ok chat)
      × (resolve_request_bot cfg ctx request_bot chat.bot ≡ ok name)
      × (check name chat.chat_id before ≡ (ok true, between))
      × (send_fn (text_payload name chat.chat_id msg status) between ≡ (ok r.sync_id, after))

  gated-ok :
      (p : SendPayload) (q : Result Bool × S) (sync : Str)
      → (gated send_fn p (classified q)).0 ≡ ok sync
      → (q ≡ (ok true, q.1)) × (send_fn p q.1 ≡ (ok sync, (send_fn p q.1).1))
  unfolding classified
  gated-ok p (fail e, s) sync h = cc
  gated-ok p (ok false, s) sync h = cc
  gated-ok p (ok true, s) sync h = (refl, ap (λ z. (z, (send_fn p s).1)) h)

  sent_to-ok :
      (t : Str) (q : Result Str × S) (r : SendResult)
      → (sent_to chats cfg ctx (gated_send ctx (some check) send_fn) t q).0 ≡ ok r
      → (r.chat ≡ t) × (q.0 ≡ ok r.sync_id)
  sent_to-ok t (fail e, s) r h = cc
  sent_to-ok t (ok sync, s) r h = ground arith

  send_to-Checked :
      (t : Str) (s : S) (r : SendResult)
      → ctx.member_scope ≡ true
      → (send_to t s).0 ≡ ok r
      → Checked r
  unfolding deliver_plain
  send_to-Checked t s r m h = elim (Result-cases (chats t)) [
    | inr (e, f) ↦ cc (rw (f, deliver_plain) at h)
    | inl (chat, f) ↦ elim (Result-cases (resolve_request_bot cfg ctx request_bot chat.bot)) [
      | inr (e, g) ↦ cc (rw (f, deliver_plain, g) at h)
      | inl (name, g) ↦
          let p = text_payload name chat.chat_id msg status in
          let (same, sent_ok) =
            sent_to-ok t (gated_send ctx (some check) send_fn p s) r
              (rw (f, deliver_plain, g) at h) in
          let (member, posted) =
            gated-ok p (check name chat.chat_id s) r.sync_id (unblock p s r m sent_ok) in
          (
            chat,
            name,
            s,
            (check name chat.chat_id s).1,
            (send_fn p (check name chat.chat_id s).1).1,
            rw same f,
            g,
            member,
            posted,
          )
    ]
  ]
    where
      unblock :
          (p : SendPayload) (s : S) (r : SendResult)
          → ctx.member_scope ≡ true
          → (gated_send ctx (some check) send_fn p s).0 ≡ ok r.sync_id
          → (gated send_fn p (classified (check p.bot p.chat_id s))).0 ≡ ok r.sync_id
      unblock p s r m h = unfold gated_send check_membership in ground arith

-- For a key scoped by membership, every delivery that a fan-out reports was made right after a check
-- that found the bot that sent to be a member of that very chat.
pub fanout_send-Checked :
    {S : Type 0} (chats : Str → Result ChatResult) (cfg : Config) (ctx : Context)
    (check : Str → Str → S → Result Bool × S) (send_fn : SendPayload → S → Result Str × S)
    (request_bot msg status : Str) (targets : List Str) (s : S)
    → ctx.member_scope ≡ true
    → All
        (Checked chats cfg ctx check send_fn request_bot msg status)
        (fanout_send chats cfg ctx
          (gated_send ctx (some check) send_fn)
          targets
          request_bot
          msg
          status
          s).results
unfolding fanout_send
fanout_send-Checked chats cfg ctx check send_fn request_bot msg status targets s m =
    let each =
      deliver_plain chats cfg ctx (gated_send ctx (some check) send_fn) request_bot msg status in
    let (e, _, _, _) = fanout_lem each targets s in
    subst (All (Checked chats cfg ctx check send_fn request_bot msg status)) (sym e) (
      successes-All (Checked chats cfg ctx check send_fn request_bot msg status) each
        (λ t s' r h. send_to-Checked chats cfg ctx check send_fn request_bot msg status t s' r m h)
        targets s)
