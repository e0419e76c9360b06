-- ===== src/Server/Access/Laws.antt =====
-- What passes a chat scope, and what the answers give away.
use express_botx.Common.{
  All, Bool, Bool-cases, List, Option, Option-cases, [], ap, arith, false, inl, inr, none, refl,
  some, subst, sym, true, ◌↔◌, ◌∙◌, ◌∷◌, ◌≡◌, ◌≢◌,
}
use express_botx.Errors.{ChatResult, Result, Result-cases, fail, ok}
use express_botx.MultiSend.Response.{Reply}
use express_botx.Server.Access.{
  authorize_list, authorize_membership, authorize_targets, chat_allowed, check_answer, deny_chat,
  forbidden, is_uuid, membership_loop, membership_refusal, scoped, target_refusal,
}
use express_botx.Server.Bots.{resolve_request_bot}
use express_botx.Server.Config.{Config, Context}
use express_botx.Server.Membership.{check}
use express_botx.Text.{Str, elem}

module _ (to_lower : Str → Str) (chats : Str → Result ChatResult) (ctx : Context) where
  -- What the key's list demands of a target. Where the target is resolved, it has to resolve to a
  -- chat that the list names; where it is not, only a UUID is held against the list, and an alias is
  -- left to the one that resolves it.
  abbrev pub InScope : Bool → Str → Type 0
  InScope true target =
      (chat : ChatResult) × (chats target ≡ ok chat)
      × (elem (to_lower chat.chat_id) ctx.key_scope ≡ true)
  InScope false target = (is_uuid target ≡ true) → elem (to_lower target) ctx.key_scope ≡ true

  target_refusal-InScope :
      (resolve : Bool) (target : Str)
      → ctx.member_scope ≡ false
      → ctx.key_scope ≢ []
      → (target_refusal to_lower chats ctx resolve target ≡ none) ↔ InScope resolve target
  unfolding target_refusal chat_allowed
  target_refusal-InScope false target m n = elim (Bool-cases (is_uuid target)) [
    | inr k ↦ (λ h y. cc, λ h. ground arith)
    | inl y ↦ (λ h _. ground arith, λ h. let listed = h y in ground arith)
  ]
  target_refusal-InScope true target m n = elim (Result-cases (chats target)) [
    | inr (err, e) ↦ rw (e, target_refusal) (λ h. cc, λ (chat, f, _). cc)
    | inl (chat, e) ↦
        rw (e, target_refusal) (λ h. (chat, refl, ground arith), λ (chat', f, h). ground arith)
  ]

  authorize_list-InScope :
      (resolve : Bool) (targets : List Str)
      → ctx.member_scope ≡ false
      → ctx.key_scope ≢ []
      → (authorize_list to_lower chats ctx resolve targets ≡ none) ↔ All (InScope resolve) targets
  unfolding authorize_list
  authorize_list-InScope resolve [] m n = (λ h. tt, λ h. refl)
  authorize_list-InScope resolve (target ∷ targets) m n =
      let (to, from) = target_refusal-InScope resolve target m n in
      let (to', from') = authorize_list-InScope resolve targets m n in
      elim (Option-cases (target_refusal to_lower chats ctx resolve target)) [
        | inl e ↦ rw (e, authorize_list) (λ h. (to e, to' h), λ (_, hs). from' hs)
        | inr (r, e) ↦ rw (e, authorize_list) (λ h. cc, λ (h, _). cc (from h))
      ]

  -- Whatever the resolver says of a target, a refusal is one and the same answer.
  target_refusal-forbidden :
      (resolve : Bool) (target : Str) (reply : Reply)
      → scoped ctx ≡ true
      → target_refusal to_lower chats ctx resolve target ≡ some reply
      → reply ≡ forbidden
  unfolding target_refusal deny_chat
  target_refusal-forbidden false target reply sc e = ground arith
  target_refusal-forbidden true target reply sc e = elim (Result-cases (chats target)) [
    | inr (err, f) ↦ ground arith
    | inl (chat, f) ↦ ground arith
  ]

  authorize_list-forbidden :
      (resolve : Bool) (targets : List Str) (reply : Reply)
      → scoped ctx ≡ true
      → authorize_list to_lower chats ctx resolve targets ≡ some reply
      → reply ≡ forbidden
  unfolding authorize_list
  authorize_list-forbidden resolve [] reply sc e = cc
  authorize_list-forbidden resolve (target ∷ targets) reply sc e =
      elim (Option-cases (target_refusal to_lower chats ctx resolve target)) [
        | inl f ↦ authorize_list-forbidden resolve targets reply sc (rw (f, authorize_list) at e)
        | inr (r, f) ↦
            target_refusal-forbidden resolve target reply sc (f ∙ (rw (f, authorize_list) at e))
      ]

  module _ {S : Type 0} (cfg : Config) (request_bot : Str)
      (check : Str → Str → S → Result (Unit {0}) × S) where
    -- The target resolves to a chat of which the bot that would send was found to be a member, by a
    -- check made while this request was authorized.
    abbrev pub IsMembers : Str → Type 0
    IsMembers target =
        (chat : ChatResult) × (bot : Str) × (before : S) × (after : S) × (chats target ≡ ok chat)
        × (is_uuid chat.chat_id ≡ true)
        × (resolve_request_bot cfg ctx request_bot chat.bot ≡ ok bot)
        × (check bot chat.chat_id before ≡ (ok tt, after))

    check_answer-none :
        (r : Result (Unit {0}) × S)
        → (check_answer to_lower chats ctx cfg request_bot check r).0 ≡ none
        → r.0 ≡ ok tt
    unfolding check_answer
    check_answer-none (ok _, s) h = refl
    check_answer-none (fail err, s) h = ground arith

    membership_refusal-IsMembers :
        (target : Str) (s : S)
        → (membership_refusal to_lower chats ctx cfg request_bot check target s).0 ≡ none
        → IsMembers target
    unfolding membership_refusal
    membership_refusal-IsMembers target s h = elim (Result-cases (chats target)) [
      | inr (err, f) ↦ cc (rw (f, membership_refusal) at h)
      | inl (chat, f) ↦ elim (Bool-cases (is_uuid chat.chat_id)) [
        | inr n ↦ cc (rw (f, membership_refusal, n) at h)
        | inl u ↦ elim (Result-cases (resolve_request_bot cfg ctx request_bot chat.bot)) [
          | inr (err, g) ↦ cc (rw (f, membership_refusal, u, g) at h)
          | inl (bot, g) ↦
              let h' = rw (f, membership_refusal, u, g) at h in
              (
                chat,
                bot,
                s,
                (check bot chat.chat_id s).1,
                f,
                u,
                g,
                ground (arith, check_answer-none (check bot chat.chat_id s) h'),
              )
        ]
      ]
    ]

    membership_loop-IsMembers :
        (targets : List Str) (s : S)
        → (membership_loop to_lower chats ctx cfg request_bot check targets s).0 ≡ none
        → All IsMembers targets
    unfolding membership_loop
    membership_loop-IsMembers [] s h = tt
    membership_loop-IsMembers (target ∷ targets) s h =
        let p = membership_refusal to_lower chats ctx cfg request_bot check target s in
        elim (Option-cases p.0) [
          | inl e ↦ (
            membership_refusal-IsMembers target s e,
            membership_loop-IsMembers targets p.1 (rw (e, membership_loop) at h),
          )
          | inr (r, e) ↦ cc (rw (e, membership_loop) at h)
        ]

module _ {S : Type 0} (to_lower : Str → Str) (chats : Str → Result ChatResult) (ctx : Context)
    (cfg : Config) (gate : Option (Str → Str → S → Result (Unit {0}) × S)) (request_bot : Str)
    (targets : List Str) (resolve : Bool) (s : S) where
  by_list :
      ctx.key_scope ≢ []
      → ctx.member_scope ≡ false
      → authorize_targets to_lower chats ctx cfg gate request_bot targets resolve s
        ≡ (authorize_list to_lower chats ctx resolve targets, s)
  unfolding authorize_targets
  by_list n m = ground arith

  -- A key with a chat list, and not scoped by membership, passes exactly if every chat that the
  -- request names is in scope: where chats are resolved, each resolves to one of the listed chats;
  -- where they are not, each that is a UUID is a listed one. A single other one refuses the whole
  -- request.
  pub authorize_targets-InScope :
      ctx.key_scope ≢ []
      → ctx.member_scope ≡ false
      → ((authorize_targets to_lower chats ctx cfg gate request_bot targets resolve s).0 ≡ none)
        ↔ All (InScope to_lower chats ctx resolve) targets
  authorize_targets-InScope n m =
      subst
        (λ (x : Option Reply × S). (x.0 ≡ none) ↔ All (InScope to_lower chats ctx resolve) targets)
        (sym (by_list n m)) (authorize_list-InScope to_lower chats ctx resolve targets m n)

  -- Whatever is refused to a key with a chat list, and not scoped by membership, is refused by the
  -- same answer, whether chats are resolved or not, so that a chat out of its scope cannot be told
  -- from one that does not exist.
  pub authorize_targets-forbidden :
      (reply : Reply)
      → ctx.key_scope ≢ []
      → ctx.member_scope ≡ false
      → (authorize_targets to_lower chats ctx cfg gate request_bot targets resolve s).0 ≡ some reply
      → reply ≡ forbidden
  authorize_targets-forbidden reply n m e =
      authorize_list-forbidden to_lower chats ctx resolve targets reply (ground arith)
        (sym (ap (λ (x : Option Reply × S). x.0) (by_list n m)) ∙ e)

-- A key scoped by membership passes only if, for every chat that the request names, the bot that
-- would send there was found to be a member; without a membership check, or where the bot is not
-- yet known, it never passes.
pub authorize_targets-IsMembers :
    {S : Type 0} (to_lower : Str → Str) (chats : Str → Result ChatResult) (ctx : Context)
    (cfg : Config) (gate : Option (Str → Str → S → Result (Unit {0}) × S)) (request_bot : Str)
    (targets : List Str) (resolve : Bool) (s : S)
    → ctx.member_scope ≡ true
    → (authorize_targets to_lower chats ctx cfg gate request_bot targets resolve s).0 ≡ none
    → (resolve ≡ true)
      × ((check : Str → Str → S → Result (Unit {0}) × S) × (gate ≡ some check)
          × All (IsMembers to_lower chats ctx cfg request_bot check) targets)
unfolding authorize_targets authorize_membership
authorize_targets-IsMembers to_lower chats ctx cfg gate request_bot targets false s m h =
    ground arith
authorize_targets-IsMembers to_lower chats ctx cfg none request_bot targets true s m h =
    ground arith
authorize_targets-IsMembers to_lower chats ctx cfg (some check) request_bot targets true s m h = (
  refl,
  (
    check,
    refl,
    membership_loop-IsMembers to_lower chats ctx cfg request_bot check targets s (ground arith),
  ),
)
