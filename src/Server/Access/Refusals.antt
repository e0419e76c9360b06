-- ===== src/Server/Access/Refusals.antt =====
-- What `authorizeTargets` answers where it refuses.
use express_botx.Common.{
  Bool, Bool-cases, List, Option, [], arith, false, inl, inr, none, not, some, subst, sym, true,
  ◌&&◌, ◌∷◌, ◌≡◌, ◌≤◌, ◌⊎◌,
}
use express_botx.Errors.{
  ChatResult, GoError, Result, Result-cases, fail, is_error, membership_unavailable, ok,
}
use express_botx.MultiSend.Response.{Reply, write_access_error}
use express_botx.Server.Access.{
  authorize_list, authorize_membership, authorize_targets, chat_allowed, check_answer, deny_chat,
  is_uuid, membership_loop, membership_refusal, scoped, target_refusal,
}
use express_botx.Server.Bots.{resolve_request_bot}
use express_botx.Server.Config.{Config, Context}
use express_botx.Text.{Str}

abbrev pub IsRefusal : Option Reply → Type 0
IsRefusal none = Unit {0}
IsRefusal (some reply) = 400 ≤ reply.status

pub deny_chat-status :
    (ctx : Context) (e : GoError) (stage : Str) → 400 ≤ (deny_chat ctx e stage).status
unfolding deny_chat
deny_chat-status ctx e stage = elim (Bool-cases (scoped ctx)) [
  | inl y ↦ rw y (omega arith)
  | inr n ↦ rw n (omega arith)
]

module _ (to_lower : Str → Str) (chats : Str → Result ChatResult) (ctx : Context) where
  target_refusal-IsRefusal :
      (resolve : Bool) (target : Str) → IsRefusal (target_refusal to_lower chats ctx resolve target)
  unfolding target_refusal
  target_refusal-IsRefusal false target =
      elim (Bool-cases (is_uuid target && not (chat_allowed to_lower ctx target))) [
        | inl y ↦ rw y (omega arith)
        | inr n ↦ rw n tt
      ]
  target_refusal-IsRefusal true target = elim (Result-cases (chats target)) [
    | inr (e, f) ↦ rw (f, target_refusal) (deny_chat-status ctx e [])
    | inl (chat, f) ↦ elim (Bool-cases (chat_allowed to_lower ctx chat.chat_id)) [
      | inl y ↦ rw (f, target_refusal, y) tt
      | inr n ↦ rw (f, target_refusal, n) (omega arith)
    ]
  ]

  authorize_list-IsRefusal :
      (resolve : Bool) (targets : List Str)
      → IsRefusal (authorize_list to_lower chats ctx resolve targets)
  unfolding authorize_list
  authorize_list-IsRefusal resolve [] = tt
  authorize_list-IsRefusal resolve (t ∷ targets) =
      let rest = authorize_list-IsRefusal resolve targets in
      go (authorize_list to_lower chats ctx resolve targets)
        (target_refusal to_lower chats ctx resolve t) (target_refusal-IsRefusal resolve t) rest
    where
      go :
          (r : Option Reply) (q : Option Reply)
          → IsRefusal q
          → IsRefusal r
          → IsRefusal (elim q [ some reply ↦ some reply | none ↦ r ])
      go r none h k = k
      go r (some reply) h k = h

  abbrev membership_step :
      {S : Type 0} → Option Reply × S → (S → Option Reply × S) → Option Reply × S
  membership_step q go = elim q.0 [ some reply ↦ (some reply, q.1) | none ↦ go q.1 ]

  module _ {S : Type 0} (cfg : Config) (request_bot : Str)
      (probe : Str → Str → S → Result (Unit {0}) × S) where
    check_answer-IsRefusal :
        (q : Result (Unit {0}) × S)
        → IsRefusal (check_answer to_lower chats ctx cfg request_bot probe q).0
    unfolding check_answer write_access_error
    check_answer-IsRefusal (ok _, s) = tt
    check_answer-IsRefusal (fail e, s) = elim (Bool-cases (is_error e membership_unavailable)) [
      | inl y ↦ rw y (omega arith)
      | inr n ↦ rw n (omega arith)
    ]

    membership_refusal-IsRefusal :
        (target : Str) (s : S)
        → IsRefusal (membership_refusal to_lower chats ctx cfg request_bot probe target s).0
    membership_refusal-IsRefusal target s = elim (Result-cases (chats target)) [
      | inr (e, f) ↦
          unfold membership_refusal in rw (f, membership_refusal) (deny_chat-status ctx e [])
      | inl (chat, f) ↦ elim (Bool-cases (is_uuid chat.chat_id)) [
        | inr n ↦ unfold membership_refusal in rw (f, membership_refusal, n) (omega arith)
        | inl y ↦ elim (Result-cases (resolve_request_bot cfg ctx request_bot chat.bot)) [
          | inr (e, g) ↦ unfold membership_refusal in rw (f, membership_refusal, y, g) (omega arith)
          | inl (bot, g) ↦
              unfold membership_refusal in
              rw (f, membership_refusal, y, g) (check_answer-IsRefusal (probe bot chat.chat_id s))
        ]
      ]
    ]

    loop_step-IsRefusal :
        (targets : List Str) (q : Option Reply × S)
        → IsRefusal q.0
        → IsRefusal (membership_loop to_lower chats ctx cfg request_bot probe targets q.1).0
        → IsRefusal
            (membership_step q (membership_loop to_lower chats ctx cfg request_bot probe targets)).0
    loop_step-IsRefusal targets (some reply, s') h k = h
    loop_step-IsRefusal targets (none, s') h k = k

    membership_loop-IsRefusal :
        (targets : List Str) (s : S)
        → IsRefusal (membership_loop to_lower chats ctx cfg request_bot probe targets s).0
    unfolding membership_loop
    membership_loop-IsRefusal [] s = tt
    membership_loop-IsRefusal (t ∷ targets) s =
        let q = membership_refusal to_lower chats ctx cfg request_bot probe t s in
        loop_step-IsRefusal targets q (membership_refusal-IsRefusal t s)
          (membership_loop-IsRefusal targets q.1)

module _ {S : Type 0} (to_lower : Str → Str) (chats : Str → Result ChatResult) (ctx : Context)
    (cfg : Config) (gate : Option (Str → Str → S → Result (Unit {0}) × S)) (request_bot : Str) where
  authorize_membership-IsRefusal :
      (maybe : Option (Str → Str → S → Result (Unit {0}) × S)) (targets : List Str) (resolve : Bool)
      (s : S)
      → IsRefusal
          (authorize_membership to_lower chats ctx cfg maybe request_bot targets resolve s).0
  unfolding authorize_membership write_access_error
  authorize_membership-IsRefusal maybe targets false s = omega arith
  authorize_membership-IsRefusal none targets true s = omega arith
  authorize_membership-IsRefusal (some f) targets true s =
      membership_loop-IsRefusal to_lower chats ctx cfg request_bot f targets s

  by_scope_kind :
      (targets : List Str) (resolve : Bool) (s : S)
      → (let q = authorize_targets to_lower chats ctx cfg gate request_bot targets resolve s in
          (q ≡ (none, s))
          ⊎ (q ≡ authorize_membership to_lower chats ctx cfg gate request_bot targets resolve s)
          ⊎ (q ≡ (authorize_list to_lower chats ctx resolve targets, s)))
  by_scope_kind targets resolve s = elim (Bool-cases (scoped ctx)) [
    | inr n ↦ unfold authorize_targets in inl (ground arith)
    | inl y ↦ elim (Bool-cases ctx.member_scope) [
      | inr n ↦ unfold authorize_targets in inr (inr (ground arith))
      | inl m ↦ unfold authorize_targets in inr (inl (ground arith))
    ]
  ]

  -- A refusal is never a success.
  pub authorize_targets-IsRefusal :
      (targets : List Str) (resolve : Bool) (s : S)
      → IsRefusal (authorize_targets to_lower chats ctx cfg gate request_bot targets resolve s).0
  authorize_targets-IsRefusal targets resolve s = elim (by_scope_kind targets resolve s) [
    | inl e ↦ subst (λ q. IsRefusal q.0) (sym e) tt
    | inr (inl e) ↦
        subst (λ q. IsRefusal q.0) (sym e) (authorize_membership-IsRefusal gate targets resolve s)
    | inr (inr e) ↦
        subst (λ q. IsRefusal q.0) (sym e)
          (authorize_list-IsRefusal to_lower chats ctx resolve targets)
  ]
