-- ===== src/Settings/Keys/Scope.antt =====
-- The scope of a key: the chats that its references mean.
use express_botx.Common.{
  Bool-cases, List, [], ap, arith, false, inl, inr, length, refl, some, subst, sym, true, ◌==◌, ◌↔◌,
  ◌∙◌, ◌∷◌, ◌≡◌, ◌⊎◌,
}
use express_botx.Errors.{Result-cases, ok}
use express_botx.Server.Access.{chat_allowed}
use express_botx.Server.Config.{Context}
use express_botx.Settings.Chats.{ChatConfig, resolve_chat_ref}
use express_botx.Settings.Keys.{ApiKeyConfig, resolve_key_scope, scope_ids}
use express_botx.Text.{Str, elem, str_eq}
use express_botx.Text.Equality.{eq→str_eq, str_eq→eq}

module _ (to_lower : Str → Str) (chats : List (Str × ChatConfig)) where
  -- Some of the references resolves to this chat, up to case.
  abbrev pub Names : List Str → Str → Type 0
  Names [] chat = ⊥
  Names (c ∷ refs) chat =
      ((found : Str × Str) × (resolve_chat_ref chats c ≡ ok found) × (to_lower found.0 ≡ chat))
      ⊎ Names refs chat

  elem-Names_cons :
      (c : Str) (refs rest : List Str) (chat : Str) (one : Str × Str)
      → resolve_chat_ref chats c ≡ ok one
      → (elem chat rest ≡ true) ↔ Names refs chat
      → (elem chat (to_lower one.0 ∷ rest) ≡ true) ↔ Names (c ∷ refs) chat
  unfolding elem
  elem-Names_cons c refs rest chat one f (to, from) = (forward, backward)
    where
      forward : elem chat (to_lower one.0 ∷ rest) ≡ true → Names (c ∷ refs) chat
      forward h = elim (Bool-cases (str_eq (to_lower one.0) chat)) [
        | inl y ↦ inl (one, f, str_eq→eq (to_lower one.0) chat y)
        | inr n ↦ inr (to (rw n at h))
      ]

      backward : Names (c ∷ refs) chat → elem chat (to_lower one.0 ∷ rest) ≡ true
      backward (inl (found, g, e)) =
          let same : one ≡ found = ground arith in
          let y = eq→str_eq (to_lower one.0) chat (ap (λ z. to_lower z.0) same ∙ e) in rw y refl
      backward (inr n) = let y = from n in ground arith

  scope_ids-Names :
      (name : Str) (refs scope : List Str) (chat : Str)
      → scope_ids to_lower chats name refs ≡ ok scope
      → ((elem chat scope ≡ true) ↔ Names refs chat) × (length scope ≡ length refs)
  scope_ids-Names name [] scope chat h =
      let e : [] ≡ scope = unfold scope_ids in ground arith in
      subst (λ z. ((elem chat z ≡ true) ↔ Names [] chat) × (length z ≡ 0)) e
        ((unfold elem in ground arith, λ n. absurd n), refl)
  scope_ids-Names name (c ∷ refs) scope chat h = elim (Result-cases (resolve_chat_ref chats c)) [
    | inr (e, f) ↦ unfold scope_ids in cc (rw (scope_ids, f) at h)
    | inl (one, f) ↦ elim (Result-cases (scope_ids to_lower chats name refs)) [
      | inr (e, g) ↦ unfold scope_ids in cc (rw (scope_ids, f, g) at h)
      | inl (rest, g) ↦
          let (ih, len) = scope_ids-Names name refs rest chat g in
          let e : to_lower one.0 ∷ rest ≡ scope =
            unfold scope_ids in (let k = rw (scope_ids, f, g) at h in ground arith) in
          subst
            (λ z. ((elem chat z ≡ true) ↔ Names (c ∷ refs) chat) × (length z ≡ length (c ∷ refs))) e
            (elem-Names_cons c refs rest chat one f ih, omega arith)
    ]
  ]

  -- A key that lists its chats, as aliases or by id, may send to exactly the chats that delivery
  -- resolves one of the listed references to, up to case: for the scope that the server makes of the
  -- key, carried by the context of its requests.
  pub resolve_key_scope-Names :
      (k : ApiKeyConfig) (refs scope : List Str) (ctx : Context) (chat : Str)
      → k.chats ≡ some refs
      → resolve_key_scope to_lower chats k ≡ ok scope
      → ctx.key_scope ≡ scope
      → ctx.member_scope ≡ false
      → (chat_allowed to_lower ctx chat ≡ true) ↔ Names refs (to_lower chat)
  resolve_key_scope-Names k [] scope ctx chat c h s m =
      unfold resolve_key_scope in cc (rw (resolve_key_scope, c) at h)
  resolve_key_scope-Names k (r ∷ refs) scope ctx chat c h s m =
      let (names, len) =
        scope_ids-Names k.name (r ∷ refs) scope (to_lower chat)
          (unfold resolve_key_scope in rw (resolve_key_scope, c) at h) in
      let size = ap length s in
      let n : (length ctx.key_scope == 0) ≡ false = ground arith in
      let same : chat_allowed to_lower ctx chat ≡ elem (to_lower chat) scope =
        unfold chat_allowed in ground arith in
      subst (λ z. (z ≡ true) ↔ Names (r ∷ refs) (to_lower chat)) (sym same) names
