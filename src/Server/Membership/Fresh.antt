-- ===== src/Server/Membership/Fresh.antt =====
-- An answer from the cache is the latest answer of a lookup, and not too old.
use express_botx.Common.{
  All, All-map_of, Bool, Bool-cases, List, Option, Option-cases, [], arith, if◌then◌else◌, inl, inr,
  leb, length, ltb, none, refl, some, some_inj, sym, ℕ, ◌+◌, ◌<◌, ◌∙◌, ◌∷◌, ◌≡◌, ◌≢◌,
}
use express_botx.Server.Config.{get_key}
use express_botx.Server.Membership.{
  Answer, Checker, Entry, Options, Run, answered, cached, check, checked, delete_entry, errored,
  finish_lookup, initial, live_entries, look_up, make_room, max_entries, sweep,
}
use express_botx.Text.{Str, str_eq}
use express_botx.Text.Equality.{eq→str_eq, str_eq_iff, str_eq_self, str_eq→eq}

-- The newest answer for a key; the history has the newest first.
unfoldable pub latest : Str → List Answer → Option Answer
latest key [] = none
latest key (a ∷ h) = if str_eq a.key key then some a else latest key h

latest_now : (a : Answer) (h : List Answer) → latest a.key (a ∷ h) ≡ some a
unfolding latest
latest_now a h = rw (str_eq_self a.key)

abbrev pub lifetime : Options → Bool → ℕ
lifetime opts is_member = if is_member then opts.ttl else opts.negative_ttl

abbrev Recorded : Options → List Answer → Str × Entry → Type 0
Recorded opts h (k, e) =
    (a : Answer) × (latest k h ≡ some a)
    × (e.member ≡ a.member)
    × (e.expires ≡ a.time + lifetime opts a.member)

module _ (P : Str × Entry → Type 0) where
  get_key-All :
      (m : List (Str × Entry)) (k : Str) (e : Entry) → All P m → get_key m k ≡ some e → P (k, e)
  unfolding get_key
  get_key-All [] k e h g = cc
  get_key-All ((j, f) ∷ m) k e (p, h) g = elim (Bool-cases (str_eq j k)) [
    | inl y ↦ let same : f ≡ e = some_inj f e (rw y at g) in rw (← same, ← str_eq→eq j k y) p
    | inr n ↦ get_key-All m k e h (rw n at g)
  ]

  delete_entry-All :
      (k : Str) (m : List (Str × Entry)) → All P m → All (λ x. P x × (x.0 ≢ k)) (delete_entry k m)
  unfolding delete_entry
  delete_entry-All k [] h = tt
  delete_entry-All k ((j, e) ∷ m) (p, h) = elim (Bool-cases (str_eq j k)) [
    | inl y ↦ rw y (delete_entry-All k m h)
    | inr n ↦ rw n ((p, λ z. ground (arith, eq→str_eq j k z)), delete_entry-All k m h)
  ]

  live_entries-All : (now : ℕ) (m : List (Str × Entry)) → All P m → All P (live_entries now m)
  unfolding live_entries
  live_entries-All now [] h = tt
  live_entries-All now ((k, e) ∷ m) (p, h) = elim (Bool-cases (ltb now e.expires)) [
    | inl y ↦ rw y (p, live_entries-All now m h)
    | inr n ↦ rw n (live_entries-All now m h)
  ]

  sweep-All : (now : ℕ) (m : List (Str × Entry)) → All P m → All P (sweep now m)
  unfolding sweep
  sweep-All now m h = elim (Bool-cases (leb max_entries (length (live_entries now m)))) [
    | inl y ↦ rw y tt
    | inr n ↦ rw n (live_entries-All now m h)
  ]

  make_room-All : (now : ℕ) (m : List (Str × Entry)) → All P m → All P (make_room now m)
  make_room-All now m h = elim (Bool-cases (leb max_entries (length m))) [
    | inl y ↦ rw y (sweep-All now m h)
    | inr n ↦ rw n h
  ]

module _ (opts : Options) where
  look_up-cache : (key : Str) (m : Checker) → (look_up key m).1.cache ≡ m.cache
  unfolding look_up
  look_up-cache key m = ground arith

  check-Recorded :
      (h : List Answer) (key : Str) (now : ℕ) (m : Checker)
      → All (Recorded opts h) m.cache
      → All (Recorded opts h) (check key now m).1.cache
  unfolding check
  check-Recorded h key now m r = elim (Option-cases (get_key m.cache key)) [
    | inl e ↦ rw (e, check) (rw look_up-cache r)
    | inr (en, e) ↦ elim (Bool-cases (ltb now en.expires)) [
      | inl f ↦ rw (e, check, f) r
      | inr f ↦
          rw (e, check, f)
            (rw look_up-cache (
              All-map_of (λ x. Recorded opts h x × (x.0 ≢ key)) (Recorded opts h) (λ x p. p.0) _
                (delete_entry-All (Recorded opts h) key m.cache r)))
    ]
  ]

  Recorded-later :
      (h : List Answer) (key : Str) (is_member : Bool) (now : ℕ) (x : Str × Entry)
      → Recorded opts h x × (x.0 ≢ key)
      → Recorded opts (record { key = key; member = is_member; time = now } ∷ h) x
  unfolding latest
  Recorded-later h key is_member now (k, e) ((a, l, f, g), n) =
      (a, ground (arith, str_eq_iff key k), f, g)

  Run-Recorded :
      {h : List Answer} {t : ℕ} {m : Checker} → Run opts h t m → All (Recorded opts h) m.cache
  unfolding finish_lookup
  Run-Recorded (initial t) = tt
  Run-Recorded {h} (checked {m} t' key l r) = check-Recorded h key t' m (Run-Recorded r)
  Run-Recorded (answered {h} {m} t' key is_member l i r) = (
    (record { key = key; member = is_member; time = t' }, latest_now _ h, refl, refl),
    All-map_of (λ x. Recorded opts h x × (x.0 ≢ key)) _ (Recorded-later h key is_member t') _
        (delete_entry-All (Recorded opts h) key _
          (make_room-All (Recorded opts h) t' m.cache (Run-Recorded r))),
  )
  Run-Recorded (errored t' key l i r) = Run-Recorded r

-- A request answered from the cache gets the latest answer that a lookup of its bot and chat gave,
-- and that answer is younger than its lifetime: the longer one if the bot is a member.
pub check-cached :
    {opts : Options} {h : List Answer} {t : ℕ} {m : Checker} (key : Str) (now : ℕ)
    (is_member : Bool)
    → Run opts h t m
    → (check key now m).0 ≡ cached is_member
    → (a : Answer) × (latest key h ≡ some a)
      × (a.member ≡ is_member)
      × (now < a.time + lifetime opts is_member)
unfolding check look_up
check-cached {opts} {h} {t} {m} key now is_member run e =
    elim (Option-cases (get_key m.cache key)) [
      | inl g ↦ ground arith
      | inr (en, g) ↦ elim (Bool-cases (ltb now en.expires)) [
        | inr f ↦ ground arith
        | inl f ↦
            let same : en.member ≡ is_member = ground arith in
            let (a, l, p, q) =
              get_key-All (Recorded opts h) m.cache key en (Run-Recorded opts run) g in
            (a, l, sym p ∙ same, ground arith)
      ]
    ]
