-- ===== src/Settings/Bots/Laws.antt =====
-- Bots that share an id agree.
use express_botx.Common.{
  ==_iff, All, Bool-cases, List, List-cases, Option-cases, [], ap, arith, inl, inr, negsuc, none,
  null, null-false, pos, refl, some, sym, true, ℤ, ◌==◌, ◌∙◌, ◌∷◌, ◌≡◌, ◌≢◌, ◌⊎◌,
}
use express_botx.Server.Config.{get_key}
use express_botx.Settings.Bots.{
  BotConfig, BotRuntime, runtime_conflict, same_int, sorted_bots, validate_bot_ids, validate_ids,
}
use express_botx.Settings.Chats.{sorted_map_keys}
use express_botx.Settings.Lookup.{elem-sorted_map_keys, get_key-other, get_key-same}
use express_botx.Text.{Str, elem, str_eq}
use express_botx.Text.Equality.{eq→str_eq, str_eq→eq}

-- Nothing is to be said of a bot without an id; any other is as the map has it.
abbrev IsCovered : List (Str × (Str × BotRuntime)) → Str × BotConfig → Type 0
IsCovered seen e =
    (e.1.id ≡ [])
    ⊎ ((prev : Str × BotRuntime) × (get_key seen e.1.id ≡ some prev) × (e.1.runtime ≡ prev.1))

abbrev Extends : List (Str × (Str × BotRuntime)) → List (Str × (Str × BotRuntime)) → Type 0
Extends seen last =
    (id : Str) (prev : Str × BotRuntime) → get_key seen id ≡ some prev → get_key last id ≡ some prev

same_int→eq : (a b : ℤ) → same_int a b ≡ true → a ≡ b
same_int→eq (pos a) (pos b) h = ap pos ((==_iff a b).0 h)
same_int→eq (negsuc a) (negsuc b) h = ap negsuc ((==_iff a b).0 h)
same_int→eq (pos a) (negsuc b) h = cc
same_int→eq (negsuc a) (pos b) h = cc

runtime_conflict-none : (a b : BotRuntime) → runtime_conflict a b ≡ none → a ≡ b
runtime_conflict-none a b h = elim (Bool-cases (str_eq a.host b.host)) [
  | inr n ↦ unfold runtime_conflict in ground arith
  | inl p ↦ elim (Bool-cases (str_eq a.secret b.secret)) [
    | inr n ↦ unfold runtime_conflict in ground arith
    | inl q ↦ elim (Bool-cases (str_eq a.token b.token)) [
      | inr n ↦ unfold runtime_conflict in ground arith
      | inl r ↦ elim (Bool-cases (same_int a.timeout b.timeout)) [
        | inr n ↦ unfold runtime_conflict in ground arith
        | inl s ↦ elim (Bool-cases (a.limit == b.limit)) [
          | inr n ↦ unfold runtime_conflict in ground arith
          | inl t ↦ elim (Bool-cases (str_eq a.suffix b.suffix)) [
            | inr n ↦ unfold runtime_conflict in ground arith
            | inl u ↦
                let p' = str_eq→eq a.host b.host p in
                let q' = str_eq→eq a.secret b.secret q in
                let r' = str_eq→eq a.token b.token r in
                let s' = same_int→eq a.timeout b.timeout s in
                let t' = (==_iff a.limit b.limit).0 t in
                let u' = str_eq→eq a.suffix b.suffix u in cc
          ]
        ]
      ]
    ]
  ]
]

validate_ids-covers :
    (seen : List (Str × (Str × BotRuntime))) (bots : List (Str × BotConfig))
    → validate_ids seen bots ≡ none
    → (last : List (Str × (Str × BotRuntime))) × Extends seen last × All (IsCovered last) bots
validate_ids-covers seen [] h = (seen, (λ id prev e. e), tt)
validate_ids-covers seen ((name, bot) ∷ bots) h = elim (List-cases bot.id) [
  | inl y ↦
      let (last, ext, rest) =
        validate_ids-covers seen bots
          (let z = ap null y in unfold validate_ids in rw (validate_ids, z) at h) in
      (last, ext, (inl y, rest))
  | inr n ↦ elim (Option-cases (get_key seen bot.id)) [
    | inl e ↦
        let z = null-false bot.id n in
        let entry : Str × BotRuntime = (name, bot.runtime) in
        let (last, ext, rest) =
          validate_ids-covers ((bot.id, entry) ∷ seen) bots
            (unfold validate_ids in rw (validate_ids, z, e) at h) in
        (
          last,
          (λ id prev g.
              let other : bot.id ≢ id = λ same. (let q = ap (get_key seen) same in cc) in
              ext id prev (get_key-other seen bot.id id entry other ∙ g)),
          (inr (entry, ext bot.id entry (get_key-same seen bot.id entry), refl), rest),
        )
    | inr (prev, e) ↦ elim (Option-cases (runtime_conflict bot.runtime prev.1)) [
      | inr (what, f) ↦
          let z = null-false bot.id n in unfold validate_ids in cc (rw (validate_ids, z, e, f) at h)
      | inl f ↦
          let (last, ext, rest) = validate_ids-covers seen bots (
            let z = null-false bot.id n in
            unfold validate_ids in rw (validate_ids, z, e, f) at h) in
          (
            last,
            ext,
            (inr (prev, ext bot.id prev e, runtime_conflict-none bot.runtime prev.1 f), rest),
          )
    ]
  ]
]

-- Two entries whose ids are the same, and are not empty, say the same.
abbrev Agrees : Str × BotConfig → Str × BotConfig → Type 0
Agrees e f = (e.1.id ≡ []) ⊎ (e.1.id ≢ f.1.id) ⊎ (e.1.runtime ≡ f.1.runtime)

covered-Agrees :
    (last : List (Str × (Str × BotRuntime))) (e f : Str × BotConfig)
    → IsCovered last e
    → IsCovered last f
    → Agrees e f
covered-Agrees last e f (inl n) c = inl n
covered-Agrees last e f (inr (p, g, r)) (inl n) = elim (List-cases e.1.id) [
  | inl k ↦ inl k
  | inr k ↦ inr (inl (λ same. k (same ∙ n)))
]
covered-Agrees last e f (inr (p, g, r)) (inr (q, h, s)) = elim (Bool-cases (str_eq e.1.id f.1.id)) [
  | inr k ↦ inr (inl (λ same. let y = eq→str_eq e.1.id f.1.id same in cc))
  | inl k ↦
      let same = str_eq→eq e.1.id f.1.id k in
      let found_same : p ≡ q = ground arith in inr (inr (r ∙ ap (λ z. z.1) found_same ∙ sym s))
]

sorted_bots-All :
    (P : Str × BotConfig → Type 0) (bots : List (Str × BotConfig)) (names : List Str) (name : Str)
    (bot : BotConfig)
    → get_key bots name ≡ some bot
    → elem name names ≡ true
    → All P (sorted_bots bots names)
    → P (name, bot)
unfolding sorted_bots elem
sorted_bots-All P bots [] name bot g m h = cc
sorted_bots-All P bots (n ∷ names) name bot g m h = elim (Bool-cases (str_eq n name)) [
  | inl y ↦
      let found : get_key bots n ≡ some bot = ap (get_key bots) (str_eq→eq n name y) ∙ g in
      let first = rw (found, sorted_bots) at h in rw (← str_eq→eq n name y) first.0
  | inr k ↦ elim (Option-cases (get_key bots n)) [
    | inl e ↦ sorted_bots-All P bots names name bot g (rw k at m) (rw (e, sorted_bots) at h)
    | inr (b, e) ↦ sorted_bots-All P bots names name bot g (rw k at m) (rw (e, sorted_bots) at h).1
  ]
]

-- Where `ValidateBotIDs` finds nothing, any two bots of the configuration that share an id that is
-- not empty have the same host, credentials, timeout, limit and suffix, so that it plays no part
-- which of them a lookup finds.
pub validate_bot_ids-Agrees :
    (bots : List (Str × BotConfig))
    → validate_bot_ids bots ≡ none
    → (a b : Str) (x y : BotConfig) → get_key bots a ≡ some x
    → get_key bots b ≡ some y
    → x.id ≡ y.id
    → x.id ≢ []
    → x.runtime ≡ y.runtime
unfolding validate_bot_ids
validate_bot_ids-Agrees bots h a b x y ga gb same named =
    let names = sorted_map_keys bots in
    let (last, ext, covered) = validate_ids-covers [] (sorted_bots bots names) h in
    let of_a =
      sorted_bots-All (IsCovered last) bots names a x ga (elem-sorted_map_keys bots a x ga)
        covered in
    let of_b =
      sorted_bots-All (IsCovered last) bots names b y gb (elem-sorted_map_keys bots b y gb)
        covered in
    elim (covered-Agrees last (a, x) (b, y) of_a of_b) [
      | inl n ↦ absurd (named n)
      | inr (inl n) ↦ absurd (n same)
      | inr (inr r) ↦ r
    ]
