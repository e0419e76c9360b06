-- ===== src/Settings/Lookup.antt =====
-- Reading a map that has been added to.
use express_botx.Common.{
  Bool-cases, List, [], inl, inr, refl, some, subst, sym, true, ◌∷◌, ◌≡◌, ◌≢◌,
}
use express_botx.Server.Config.{get_key}
use express_botx.Settings.Chats.{sorted_map_keys}
use express_botx.Text.{Str, elem, insert_sorted, sort_strings, str_eq, str_leb}
use express_botx.Text.Equality.{elem_here, elem_later, str_eq_self, str_eq→eq}

pub get_key-other :
    {V : Type 0} (m : List (Str × V)) (j k : Str) (v : V)
    → j ≢ k
    → get_key ((j, v) ∷ m) k ≡ get_key m k
unfolding get_key
get_key-other m j k v n = elim (Bool-cases (str_eq j k)) [
  | inl y ↦ absurd (n (str_eq→eq j k y))
  | inr y ↦ rw y refl
]

pub get_key-same :
    {V : Type 0} (m : List (Str × V)) (k : Str) (v : V) → get_key ((k, v) ∷ m) k ≡ some v
unfolding get_key
get_key-same m k v = rw (str_eq_self k) refl

elem-insert_here : (s : Str) (ts : List Str) → elem s (insert_sorted s ts) ≡ true
unfolding insert_sorted
elem-insert_here s [] = elem_here s []
elem-insert_here s (t ∷ ts) = elim (Bool-cases (str_leb s t)) [
  | inl y ↦ rw y (elem_here s (t ∷ ts))
  | inr n ↦ rw n (elem_later s t (insert_sorted s ts) (elem-insert_here s ts))
]

elem-insert_other :
    (s x : Str) (ts : List Str) → elem s ts ≡ true → elem s (insert_sorted x ts) ≡ true
unfolding insert_sorted
elem-insert_other s x [] h = elem_later s x [] h
elem-insert_other s x (t ∷ ts) h = elim (Bool-cases (str_leb x t)) [
  | inl y ↦ rw y (elem_later s x (t ∷ ts) h)
  | inr n ↦ rw n (elim (Bool-cases (str_eq t s)) [
    | inl y ↦ unfold elem in rw y refl
    | inr k ↦
        let later : elem s ts ≡ true = (unfold elem in rw k at h) in
        elem_later s t (insert_sorted x ts) (elem-insert_other s x ts later)
  ])
]

-- The names in order miss no name of the map.
pub elem-sorted_map_keys :
    {V : Type 0} (m : List (Str × V)) (k : Str) (v : V)
    → get_key m k ≡ some v
    → elem k (sorted_map_keys m) ≡ true
unfolding get_key sorted_map_keys sort_strings
elem-sorted_map_keys [] k v h = cc
elem-sorted_map_keys ((j, w) ∷ m) k v h = elim (Bool-cases (str_eq j k)) [
  | inl y ↦
      subst (λ z. elem k (insert_sorted z (sorted_map_keys m)) ≡ true) (sym (str_eq→eq j k y))
        (elem-insert_here k (sorted_map_keys m))
  | inr n ↦ elem-insert_other k j (sorted_map_keys m) (elem-sorted_map_keys m k v (rw n at h))
]
