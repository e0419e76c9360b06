-- ===== src/Server/PlainSend/Routing/Laws.antt =====
-- Which chats each routing mode accepts.
use express_botx.Common.{
  Bool-cases, [], arith, false, inl, inr, null, null-false, refl, true, ◌&&◌, ◌↔◌, ◌∷◌, ◌≡◌, ◌≢◌,
  ◌⊎◌,
}
use express_botx.Server.Access.{is_uuid}
use express_botx.Server.PlainSend.Routing.{validate_async_routing}
use express_botx.Text.{Str, codes, str_eq}
use express_botx.Text.Equality.{eq→str_eq, str_eq→eq}

-- By catalog or mixed: some name of a bot, or a chat that is an alias, whose binding gives the bot.
-- Directly: the UUIDs of both.
abbrev pub IsRoutable : Str → Str → Str → Str → Type 0
IsRoutable rm bot_id bot_alias chat =
    (((rm ≡ codes "catalog") ⊎ (rm ≡ codes "mixed"))
      × ((bot_id ≢ []) ⊎ (bot_alias ≢ []) ⊎ (is_uuid chat ≡ false)))
    ⊎ ((rm ≡ codes "direct") × (is_uuid bot_id ≡ true) × (is_uuid chat ≡ true))

named_or_alias :
    (bot_id bot_alias chat : Str)
    → (null bot_id && null bot_alias) && is_uuid chat ≡ false
    → (bot_id ≢ []) ⊎ (bot_alias ≢ []) ⊎ (is_uuid chat ≡ false)
named_or_alias [] [] chat h = inr (inr h)
named_or_alias [] (c ∷ bot_alias) chat h = inr (inl (λ e. ground arith))
named_or_alias (c ∷ bot_id) bot_alias chat h = inl (λ e. ground arith)

no_complaint :
    (bot_id bot_alias chat : Str)
    → (bot_id ≢ []) ⊎ (bot_alias ≢ []) ⊎ (is_uuid chat ≡ false)
    → (null bot_id && null bot_alias) && is_uuid chat ≡ false
no_complaint bot_id bot_alias chat (inl n) = let e = null-false bot_id n in rw e refl
no_complaint bot_id bot_alias chat (inr (inl n)) =
    let e = null-false bot_alias n in
    elim (Bool-cases (null bot_id)) [ inl y ↦ rw (y, e) refl | inr k ↦ rw k refl ]
no_complaint bot_id bot_alias chat (inr (inr u)) = ground arith

pub uuid-null : (s : Str) → is_uuid s ≡ true → null s ≡ false
unfolding is_uuid
uuid-null [] h = cc
uuid-null (c ∷ s) h = refl

catalog_iff :
    (bot_id bot_alias chat : Str)
    → (validate_async_routing (codes "catalog") bot_id bot_alias chat ≡ [])
      ↔ IsRoutable (codes "catalog") bot_id bot_alias chat
unfolding validate_async_routing str_eq
catalog_iff bot_id bot_alias chat = (forward, backward)
  where
    forward :
        validate_async_routing (codes "catalog") bot_id bot_alias chat ≡ []
        → IsRoutable (codes "catalog") bot_id bot_alias chat
    forward h = elim (Bool-cases ((null bot_id && null bot_alias) && is_uuid chat)) [
      | inl y ↦ cc (rw y at h)
      | inr n ↦ inl (inl refl, named_or_alias bot_id bot_alias chat n)
    ]

    backward :
        IsRoutable (codes "catalog") bot_id bot_alias chat
        → validate_async_routing (codes "catalog") bot_id bot_alias chat ≡ []
    backward (inl (m, h)) = let e = no_complaint bot_id bot_alias chat h in rw e refl
    backward (inr (d, b, c)) = ground arith

mixed_iff :
    (bot_id bot_alias chat : Str)
    → (validate_async_routing (codes "mixed") bot_id bot_alias chat ≡ [])
      ↔ IsRoutable (codes "mixed") bot_id bot_alias chat
unfolding validate_async_routing str_eq
mixed_iff bot_id bot_alias chat = (forward, backward)
  where
    forward :
        validate_async_routing (codes "mixed") bot_id bot_alias chat ≡ []
        → IsRoutable (codes "mixed") bot_id bot_alias chat
    forward h = elim (Bool-cases ((null bot_id && null bot_alias) && is_uuid chat)) [
      | inl y ↦ cc (rw y at h)
      | inr n ↦ inl (inr refl, named_or_alias bot_id bot_alias chat n)
    ]

    backward :
        IsRoutable (codes "mixed") bot_id bot_alias chat
        → validate_async_routing (codes "mixed") bot_id bot_alias chat ≡ []
    backward (inl (m, h)) = let e = no_complaint bot_id bot_alias chat h in rw e refl
    backward (inr (d, b, c)) = ground arith

direct_iff :
    (bot_id bot_alias chat : Str)
    → (validate_async_routing (codes "direct") bot_id bot_alias chat ≡ [])
      ↔ IsRoutable (codes "direct") bot_id bot_alias chat
unfolding validate_async_routing str_eq
direct_iff bot_id bot_alias chat = (forward, backward)
  where
    forward :
        validate_async_routing (codes "direct") bot_id bot_alias chat ≡ []
        → IsRoutable (codes "direct") bot_id bot_alias chat
    forward h = elim (Bool-cases (null bot_id)) [
      | inl y ↦ cc (rw y at h)
      | inr n ↦ elim (Bool-cases (is_uuid bot_id)) [
        | inr m ↦ cc (rw (n, m) at h)
        | inl u ↦ elim (Bool-cases (is_uuid chat)) [
          | inr m ↦ cc (rw (n, u, m) at h)
          | inl v ↦ inr (refl, u, v)
        ]
      ]
    ]

    backward :
        IsRoutable (codes "direct") bot_id bot_alias chat
        → validate_async_routing (codes "direct") bot_id bot_alias chat ≡ []
    backward (inl (inl m, h)) = ground arith
    backward (inl (inr m, h)) = ground arith
    backward (inr (d, b, c)) = let n = uuid-null bot_id b in rw (n, b, c) refl

-- A chat passes the check of the routing mode exactly if it can be routed in that mode: by catalog
-- or mixed with a bot's id or alias, or else under an alias of its own; directly with the UUIDs of
-- the bot and the chat. No other mode accepts anything.
pub validate_async_routing_iff :
    (rm bot_id bot_alias chat : Str)
    → (validate_async_routing rm bot_id bot_alias chat ≡ []) ↔ IsRoutable rm bot_id bot_alias chat
validate_async_routing_iff rm bot_id bot_alias chat =
    elim (Bool-cases (str_eq rm (codes "catalog"))) [
      | inl y ↦ rw (str_eq→eq rm (codes "catalog") y) (catalog_iff bot_id bot_alias chat)
      | inr n ↦ elim (Bool-cases (str_eq rm (codes "mixed"))) [
        | inl y ↦ rw (str_eq→eq rm (codes "mixed") y) (mixed_iff bot_id bot_alias chat)
        | inr m ↦ elim (Bool-cases (str_eq rm (codes "direct"))) [
          | inl y ↦ rw (str_eq→eq rm (codes "direct") y) (direct_iff bot_id bot_alias chat)
          | inr k ↦ (
            λ h. unfold validate_async_routing in cc (rw (validate_async_routing, n, m, k) at h),
            λ h. elim h [
              | inl (inl e, r) ↦ let y = eq→str_eq rm (codes "catalog") e in cc
              | inl (inr e, r) ↦ let y = eq→str_eq rm (codes "mixed") e in cc
              | inr (e, r, u) ↦ let y = eq→str_eq rm (codes "direct") e in cc
            ],
          )
        ]
      ]
    ]
