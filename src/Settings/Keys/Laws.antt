-- ===== src/Settings/Keys/Laws.antt =====
-- No key takes another's place.
use express_botx.Common.{
  All, List, Option-cases, [], ap, inl, inr, map, none, refl, some, ◌∙◌, ◌∷◌, ◌≡◌, ◌≢◌,
}
use express_botx.Server.Config.{Config, ResolvedKey, fill_keys, get_key, key_map}
use express_botx.Settings.Keys.{check_key_collisions, collision}
use express_botx.Settings.Lookup.{get_key-other, get_key-same}
use express_botx.Text.{Str}

-- A value that has an owner is not that of a later key.
collision-none :
    (seen : List (Str × Str)) (keys : List ResolvedKey) (j owner : Str)
    → collision seen keys ≡ none
    → get_key seen j ≡ some owner
    → All (λ k. k.key ≢ j) keys
collision-none seen [] j owner h g = tt
collision-none seen (k ∷ keys) j owner h g = elim (Option-cases (get_key seen k.key)) [
  | inr (o, e) ↦ unfold collision in cc (rw (collision, e) at h)
  | inl e ↦
      let n : k.key ≢ j = λ same. let q = ap (get_key seen) same in cc in
      (
        n,
        collision-none ((k.key, k.name) ∷ seen) keys j owner
            (unfold collision in rw (collision, e) at h) (get_key-other seen k.key j k.name n ∙ g),
      )
]

fill_keys-other :
    (to_lower : Str → Str) (m : List (Str × ResolvedKey)) (keys : List ResolvedKey) (j : Str)
    → All (λ k. k.key ≢ j) keys
    → get_key (fill_keys to_lower m keys) j ≡ get_key m j
unfolding fill_keys
fill_keys-other to_lower m [] j n = refl
fill_keys-other to_lower m (k ∷ keys) j (n, ns) =
    let lowered = record k { chats = map to_lower k.chats } in
    fill_keys-other to_lower ((k.key, lowered) ∷ m) keys j ns ∙ get_key-other m k.key j lowered n

abbrev pub OwnEntry : (Str → Str) → List (Str × ResolvedKey) → ResolvedKey → Type 0
OwnEntry to_lower m k = get_key m k.key ≡ some (record k { chats = map to_lower k.chats })

fill_keys-OwnEntry :
    (to_lower : Str → Str) (seen : List (Str × Str)) (m : List (Str × ResolvedKey))
    (keys : List ResolvedKey)
    → collision seen keys ≡ none
    → All (OwnEntry to_lower (fill_keys to_lower m keys)) keys
unfolding fill_keys
fill_keys-OwnEntry to_lower seen m [] h = tt
fill_keys-OwnEntry to_lower seen m (k ∷ keys) h = elim (Option-cases (get_key seen k.key)) [
  | inr (o, e) ↦ unfold collision in cc (rw (collision, e) at h)
  | inl e ↦
      let lowered = record k { chats = map to_lower k.chats } in
      let rest : collision ((k.key, k.name) ∷ seen) keys ≡ none =
        unfold collision in rw (collision, e) at h in
      let others =
        collision-none ((k.key, k.name) ∷ seen) keys k.key k.name rest
          (get_key-same seen k.key k.name) in
      (
        fill_keys-other to_lower ((k.key, lowered) ∷ m) keys k.key others
            ∙ get_key-same m k.key lowered,
        fill_keys-OwnEntry to_lower ((k.key, k.name) ∷ seen) ((k.key, lowered) ∷ m) keys rest,
      )
]

-- Where no two keys have the same value, the server's key map finds under each key's value that very
-- key, with its own rights; only the chats of its scope are in lower case.
pub check_key_collisions-OwnEntry :
    (to_lower : Str → Str) (cfg : Config)
    → check_key_collisions cfg.keys ≡ none
    → All (OwnEntry to_lower (key_map to_lower cfg)) cfg.keys
unfolding check_key_collisions key_map
check_key_collisions-OwnEntry to_lower cfg h = fill_keys-OwnEntry to_lower [] [] cfg.keys h
