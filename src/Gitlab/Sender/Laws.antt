-- ===== src/Gitlab/Sender/Laws.antt =====
-- What a token opens, and what a chat selection can reach.
use express_botx.Common.{
  All, All-map_of, Bool-cases, List, Option-cases, [], ap, append-nil, append_assoc, arith, false,
  inl, inr, none, not, null, refl, some, some_inj, sym, true, ◌&&◌, ◌++◌, ◌∙◌, ◌∷◌, ◌≡◌, ◌≢◌, ◌⊎◌,
}
use express_botx.Errors.{ChatResult, Result, Result-cases, ok}
use express_botx.Gitlab.Sender.{
  GitlabSender, GitlabTarget, Reject, admit, auth_loop, bot_conflict, canonicalize, in_scope,
  resolve_gitlab_auth, scope_loop, sender_scope_targets,
}
use express_botx.Server.Config.{get_key}
use express_botx.Text.{Str, elem, str_eq}
use express_botx.Text.Equality.{elem-append, elem_here, elem_later, str_eq_iff, str_eq→eq}

module _ {T : Type 0} where
  auth_loop-some :
      (token : Str) (s : GitlabSender T) (senders : List (GitlabSender T))
      → auth_loop token (some s) senders ≡ some s
  unfolding auth_loop
  auth_loop-some token s [] = refl
  auth_loop-some token s (t ∷ senders) = ground (arith, auth_loop-some token s senders)

  -- The first sender with the token for its secret.
  abbrev pub FirstWith : Str → List (GitlabSender T) → GitlabSender T → Type 0
  FirstWith token senders s =
      (before : List (GitlabSender T)) × (after : List (GitlabSender T)) × (senders
        ≡ before ++ s ∷ after)
      × (s.secret ≡ token)
      × All (λ (q : GitlabSender T). q.secret ≢ token) before

  auth_loop-FirstWith :
      (token : Str) (senders : List (GitlabSender T)) (s : GitlabSender T)
      → token ≢ []
      → auth_loop token none senders ≡ some s
      → FirstWith token senders s
  unfolding auth_loop
  auth_loop-FirstWith token [] s n h = cc
  auth_loop-FirstWith token (t ∷ senders) s n h =
      elim (Bool-cases (not (null t.secret) && str_eq token t.secret)) [
        | inl y ↦
            let found : some t ≡ some s =
              sym (auth_loop-some token t senders) ∙ (rw (y, auth_loop) at h) in
            let e : t ≡ s = some_inj t s found in
            (
              [],
              senders,
              ap (λ z. z ∷ senders) e,
              ap (λ (z : GitlabSender T). z.secret) (sym e)
                  ∙ sym (str_eq→eq token t.secret (ground arith)),
              tt,
            )
        | inr m ↦
            let (before, after, e, k, q) = auth_loop-FirstWith token senders s n (ground arith) in
            (
              t ∷ before,
              after,
              ap (◌∷◌ t) e,
              k,
              (λ z. ground (arith, str_eq_iff token t.secret), q),
            )
      ]

-- A token opens the first sender that has it for its secret, and only if it is not empty.
pub resolve_gitlab_auth-FirstWith :
    {T : Type 0} (senders : List (GitlabSender T)) (token : Str) (s : GitlabSender T)
    → resolve_gitlab_auth senders token ≡ some s
    → (token ≢ []) × FirstWith token senders s
unfolding resolve_gitlab_auth
resolve_gitlab_auth-FirstWith senders [] s h = cc
resolve_gitlab_auth-FirstWith senders (c ∷ token) s h =
    let n : c ∷ token ≢ [] = λ e. cc in (n, auth_loop-FirstWith (c ∷ token) senders s n h)

module _ (chats : Str → Result ChatResult) (scope : List (Str × GitlabTarget)) where
  -- A reference is admitted as an entry of the scope: by its UUID itself, or by an alias that
  -- resolves to it; and no other bot than the reference's would send.
  abbrev pub Admits : Str → Str → GitlabTarget → Type 0
  Admits ref canonical entry =
      (get_key scope canonical ≡ some entry)
      × (((canonical ≡ ref) × ((e : GitlabTarget) × (get_key scope ref ≡ some e)))
          ⊎ ((r : ChatResult) × (chats ref ≡ ok r)
              × (r.chat_id ≡ canonical)
              × (canonical ≢ [])
              × ((ref ≡ entry.target) ⊎ (r.bot ≡ []) ⊎ (entry.bot ≡ []) ⊎ (r.bot ≡ entry.bot))))

  canonicalize-cases :
      (ref canonical bot : Str)
      → canonicalize chats scope ref ≡ some (canonical, bot)
      → ((canonical ≡ ref) × ((e : GitlabTarget) × (get_key scope ref ≡ some e)))
        ⊎ ((r : ChatResult) × (chats ref ≡ ok r)
            × (r.chat_id ≡ canonical)
            × (canonical ≢ [])
            × (r.bot ≡ bot))
  unfolding canonicalize
  canonicalize-cases ref canonical bot h = elim (Option-cases (get_key scope ref)) [
    | inr (e, g) ↦ inl (ground arith, (e, g))
    | inl g ↦ elim (Result-cases (chats ref)) [
      | inr (err, f) ↦ cc (rw (g, canonicalize, f) at h)
      | inl (r, f) ↦ inr (r, f, ground arith, (λ z. ground arith), ground arith)
    ]
  ]

  admit-Admits :
      (ref canonical : Str) (entry : GitlabTarget)
      → admit chats scope ref ≡ inr (canonical, entry)
      → Admits ref canonical entry
  unfolding admit
  admit-Admits ref canonical entry h = elim (Option-cases (canonicalize chats scope ref)) [
    | inl e ↦ cc (rw (e, admit) at h)
    | inr ((c, b), e) ↦ elim (Option-cases (get_key scope c)) [
      | inl f ↦ cc (rw (e, admit, f) at h)
      | inr (en, f) ↦ elim (Bool-cases (bot_conflict en ref b)) [
        | inl y ↦ cc (rw (e, admit, f, y) at h)
        | inr n ↦
            let found : ◌≡◌ {A = Reject ⊎ (Str × GitlabTarget)} (inr (c, en))
                (inr (canonical, entry)) =
              rw (e, admit, f, n) at h in
            let same : c ≡ canonical = ground arith in
            let same' : en ≡ entry = ground arith in
            rw (← same, ← same') (f, origin c b en n (canonicalize-cases ref c b e))
      ]
    ]
  ]
    where
      origin :
          (c b : Str) (en : GitlabTarget)
          → bot_conflict en ref b ≡ false
          → ((c ≡ ref) × ((e : GitlabTarget) × (get_key scope ref ≡ some e)))
            ⊎ ((r : ChatResult) × (chats ref ≡ ok r) × (r.chat_id ≡ c) × (c ≢ []) × (r.bot ≡ b))
          → ((c ≡ ref) × ((e : GitlabTarget) × (get_key scope ref ≡ some e)))
            ⊎ ((r : ChatResult) × (chats ref ≡ ok r)
                × (r.chat_id ≡ c)
                × (c ≢ [])
                × ((ref ≡ en.target) ⊎ (r.bot ≡ []) ⊎ (en.bot ≡ []) ⊎ (r.bot ≡ en.bot)))
      origin c b en n (inl x) = inl x
      origin c b en n (inr (r, f, g, ne, same)) = inr (
        r,
        f,
        g,
        ne,
        unfold bot_conflict in ground (arith, str_eq_iff ref en.target, str_eq_iff b en.bot),
      )

  Sum-cases : {A B : Type 0} (x : A ⊎ B) → ((a : A) × (x ≡ inl a)) ⊎ ((b : B) × (x ≡ inr b))
  Sum-cases (inl a) = inl (a, refl)
  Sum-cases (inr b) = inr (b, refl)

  -- The target is that of an entry under which a requested reference was admitted.
  abbrev pub Reached : List Str → Str → Type 0
  Reached refs t =
      (ref : Str) × (canonical : Str) × (entry : GitlabTarget) × (elem ref refs ≡ true)
      × Admits ref canonical entry
      × (entry.target ≡ t)

  -- The reference was admitted, and its entry's target is among the results.
  abbrev pub Delivered : List Str → Str → Type 0
  Delivered out ref =
      (canonical : Str) × (entry : GitlabTarget) × Admits ref canonical entry
      × (elem entry.target out ≡ true)

  -- Every UUID seen has its target among the results.
  abbrev Noted : List Str → List Str → Type 0
  Noted seen out =
      (c : Str) (e : GitlabTarget)
      → elem c seen ≡ true
      → get_key scope c ≡ some e
      → elem e.target out ≡ true

  Noted-cons :
      (seen out : List Str) (c : Str) (e : GitlabTarget)
      → Noted seen out
      → get_key scope c ≡ some e
      → Noted (c ∷ seen) (out ++ e.target ∷ [])
  Noted-cons seen out c e noted g c' e' h g' = elim (Bool-cases (str_eq c c')) [
    | inl y ↦
        let same : e ≡ e' = some_inj e e' (sym g ∙ ap (get_key scope) (str_eq→eq c c' y) ∙ g') in
        rw elem-append (
          unfold elem in
          ground (arith, str_eq_iff e.target e'.target, ap (λ (z : GitlabTarget). z.target) same))
    | inr n ↦ rw elem-append (unfold elem in ground (arith, noted c' e'))
  ]

  Reached-later : (ref : Str) (refs : List Str) (t : Str) → Reached refs t → Reached (ref ∷ refs) t
  Reached-later ref refs t (r, c, e, i, a, q) = (r, c, e, elem_later r ref refs i, a, q)

  abbrev Outcome : List Str → List Str → List Str → Type 0
  Outcome targets refs out =
      (added : List Str) × (out ≡ targets ++ added)
      × All (Reached refs) added
      × All (Delivered out) refs

  scope_loop-Outcome :
      (seen targets refs out : List Str)
      → Noted seen targets
      → scope_loop chats scope seen targets refs ≡ in_scope out
      → Outcome targets refs out
  unfolding scope_loop
  scope_loop-Outcome seen targets [] out noted h = ([], ground (arith, append-nil targets), tt, tt)
  scope_loop-Outcome seen targets (ref ∷ refs) out noted h =
      elim (Sum-cases (admit chats scope ref)) [
        | inl (why, e) ↦ cc (rw (e, scope_loop) at h)
        | inr ((c, entry), e) ↦
            let a = admit-Admits ref c entry e in
            elim (Bool-cases (elem c seen)) [
              | inl y ↦
                  let (added, o, rs, ds) =
                    scope_loop-Outcome seen targets refs out noted (rw (e, scope_loop, y) at h) in
                  (
                    added,
                    o,
                    All-map_of (Reached refs) (Reached (ref ∷ refs)) (Reached-later ref refs) added
                        rs,
                    ((c, entry, a, rw o (rw elem-append (rw (noted c entry y a.0)))), ds),
                  )
              | inr n ↦
                  let (added, o, rs, ds) =
                    scope_loop-Outcome (c ∷ seen) (targets ++ entry.target ∷ []) refs out
                      (Noted-cons seen targets c entry noted a.0) (rw (e, scope_loop, n) at h) in
                  let o' : out ≡ targets ++ entry.target ∷ added =
                    o ∙ append_assoc targets (entry.target ∷ []) added in
                  (
                    entry.target ∷ added,
                    o',
                    (
                      (ref, c, entry, elem_here ref refs, a, refl),
                      All-map_of (Reached refs) (Reached (ref ∷ refs)) (Reached-later ref refs)
                          added rs,
                    ),
                    (
                      (
                        c,
                        entry,
                        a,
                        rw o' (rw elem-append (ground (arith, elem_here entry.target added))),
                      ),
                      ds,
                    ),
                  )
            ]
      ]

-- A chat selection that is accepted delivers to the sender's own targets only, each for a reference
-- that was asked for, and to the target of every reference asked for.
pub sender_scope_targets-Reached :
    (chats : Str → Result ChatResult) (scope : List (Str × GitlabTarget)) (requested out : List Str)
    → sender_scope_targets chats scope requested ≡ in_scope out
    → All (Reached chats scope requested) out × All (Delivered chats scope out) requested
unfolding sender_scope_targets
sender_scope_targets-Reached chats scope requested out h =
    let (added, o, rs, ds) =
      scope_loop-Outcome chats scope [] [] requested out (λ c e i g. unfold elem in cc) h in
    (rw o rs, ds)
