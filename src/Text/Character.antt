-- ===== src/Text/Character.antt =====
-- `strings.Index` by one character.
use express_botx.Common.{
  Bool, Bool-cases, Option-cases, [], ap, arith, drop, false, inl, inr, length, none, refl, some,
  suc, take, ℕ, ◌++◌, ◌+◌, ◌==◌, ◌||◌, ◌↔◌, ◌∷◌, ◌≡◌,
}
use express_botx.Text.{Str, has_prefix, index}

unfoldable pub has_char : ℕ → Str → Bool
has_char c [] = false
has_char c (d ∷ s) = d == c || has_char c s

abbrev pub single : ℕ → Str
single c = c ∷ []

-- Nothing is found exactly if the character does not occur.
pub index-single-none : (s : Str) (c : ℕ) → (index s (single c) ≡ none) ↔ (has_char c s ≡ false)
unfolding index has_prefix has_char
index-single-none [] c = ground arith
index-single-none (d ∷ s) c = ground (arith, index-single-none s c)

-- The first occurrence is where the text before it has none.
pub index-single-some :
    (s : Str) (c i : ℕ)
    → index s (single c) ≡ some i
    → (s ≡ take i s ++ c ∷ drop (i + 1) s) × (has_char c (take i s) ≡ false)
unfolding index has_prefix has_char
index-single-some [] c i h = cc
index-single-some (d ∷ s) c i h = elim (Bool-cases (d == c)) [
  | inl y ↦
      let z : i ≡ 0 = ground arith in
      rw z (let same : d ≡ c = ground arith in (ap (λ x. x ∷ s) same, refl))
  | inr n ↦ elim (Option-cases (index s (single c))) [
    | inl e ↦ ground arith
    | inr (j, e) ↦
        let z : i ≡ suc j = ground arith in
        let k : suc j + 1 ≡ suc (j + 1) = omega arith in
        let (p, q) = index-single-some s c j e in rw z (rw k (ap (◌∷◌ d) p), rw n q)
  ]
]

pub index-single_append :
    (a b : Str) (c : ℕ) → has_char c a ≡ false → index (a ++ c ∷ b) (single c) ≡ some (length a)
unfolding index has_prefix has_char
index-single_append [] b c h = ground arith
index-single_append (d ∷ a) b c h = ground (arith, index-single_append a b c)
