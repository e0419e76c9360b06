-- ===== src/Text/Search.antt =====
-- What a prefix and a position found say of the text.
use Prim.Native.Nat.add
use mathlib.Core.List.{reverse-reverse, reverse-append}
use express_botx.Common.{
  Bool-cases, Option, [], ap, append_assoc, arith, drop, drop-append_le, drop-length-append, inl,
  inr, length, length-append, none, refl, reverse, some, suc, sym, take, true, zero, ℕ, ◌++◌, ◌+◌,
  ◌↔◌, ◌∙◌, ◌∷◌, ◌≡◌, ◌≤◌, ◌⊎◌,
}
use express_botx.Text.{Str, has_prefix, has_suffix, index, succ?}

pub has_prefix→eq : (s p : Str) → has_prefix s p ≡ true → s ≡ p ++ drop (length p) s
unfolding has_prefix
has_prefix→eq s [] h = refl
has_prefix→eq [] (x ∷ p) h = ground arith
has_prefix→eq (c ∷ s) (x ∷ p) h = ground (arith, has_prefix→eq s p)

pub has_prefix-append : (p t : Str) → has_prefix (p ++ t) p ≡ true
unfolding has_prefix
has_prefix-append [] t = refl
has_prefix-append (x ∷ p) t = ground (arith, has_prefix-append p t)

succ?-eq-some : (o : Option ℕ) (i : ℕ) → succ? o ≡ some i → (j : ℕ) × (o ≡ some j) × (i ≡ suc j)
succ?-eq-some none i h = cc
succ?-eq-some (some j) i h = (j, refl, ground arith)

zero-plus : (n : ℕ) → 0 + n ≡ n
zero-plus n = omega arith

-- A place reported by `index` one step into the text, or at its start.
index-cons :
    (c : ℕ) (s sub : Str) (i : ℕ)
    → index (c ∷ s) sub ≡ some i
    → ((i ≡ 0) × (has_prefix (c ∷ s) sub ≡ true)) ⊎ ((j : ℕ) × (i ≡ suc j) × (index s sub ≡ some j))
unfolding index
index-cons c s sub i h = elim (Bool-cases (has_prefix (c ∷ s) sub)) [
  | inl e ↦ inl (ground arith, e)
  | inr e ↦ let (j, p, q) = succ?-eq-some (index s sub) i (rw e at h) in inr (j, q, p)
]

-- `index` reports a place where the text stands.
pub index_sound :
    (s sub : Str) (i : ℕ) → index s sub ≡ some i → s ≡ take i s ++ (sub ++ drop (i + length sub) s)
unfolding index
index_sound [] [] i h = ground arith
index_sound [] (x ∷ sub) i h = ground arith
index_sound (c ∷ s) sub i h = elim (index-cons c s sub i h) [
  | inl (e, p) ↦ rw (e, zero-plus (length sub)) (has_prefix→eq (c ∷ s) sub p)
  | inr (j, e, p) ↦ rw (e, add.suc j (length sub)) (ap (◌∷◌ c) (index_sound s sub j p))
]

-- The first place for `sub` in a text that holds it: what follows that place ends with what
-- follows the given one.
pub index-first :
    (a sub b : Str)
    → (i : ℕ) × (z : Str) × (index (a ++ (sub ++ b)) sub ≡ some i)
      × (drop (i + length sub) (a ++ (sub ++ b)) ≡ z ++ b)
unfolding index has_prefix
index-first [] [] [] = (0, [], refl, refl)
index-first [] [] (d ∷ b) = (0, [], refl, refl)
index-first [] (x ∷ sub) b = (
  0,
  [],
  rw (has_prefix-append (x ∷ sub) b),
  rw (zero-plus (length (x ∷ sub))) (drop-length-append (x ∷ sub) b),
)
index-first (c ∷ a) sub b = elim (Bool-cases (has_prefix (c ∷ (a ++ (sub ++ b))) sub)) [
  | inl e ↦ (
    0,
    drop (length sub) (c ∷ (a ++ sub)),
    rw e,
    rw (zero-plus (length sub)) (
        rw (← append_assoc (c ∷ a) sub b)
          (drop-append_le (length sub) (c ∷ (a ++ sub)) b (omega (arith, length-append a sub)))),
  )
  | inr e ↦
      let (i, z, p, q) = index-first a sub b in
      (suc i, z, rw e (rw p refl), rw (add.suc i (length sub)) q)
]

-- What is found stands there.
pub index-has_prefix :
    (s sub : Str) (i : ℕ) → index s sub ≡ some i → has_prefix (drop i s) sub ≡ true
unfolding index
index-has_prefix [] [] i h = unfold has_prefix in ground arith
index-has_prefix [] (x ∷ sub) i h = cc
index-has_prefix (c ∷ s) sub i h = elim (index-cons c s sub i h) [
  | inl (e, p) ↦ rw e p
  | inr (j, e, p) ↦ rw e (index-has_prefix s sub j p)
]

-- The first place as a whole: the text before it, `sub`, and the text after it.
pub index-split :
    (s sub : Str) (i : ℕ)
    → index s sub ≡ some i
    → (skip : Str) × (s ≡ skip ++ (sub ++ drop (i + length sub) s))
index-split s sub i h = (take i s, index_sound s sub i h)

reverse-append_cancel :
    (s p : Str) → has_prefix (reverse s) (reverse p) ≡ true → (a : Str) × (s ≡ a ++ p)
reverse-append_cancel s p h = (
  reverse (drop (length (reverse p)) (reverse s)),
  sym (reverse-reverse s)
      ∙ ap reverse (has_prefix→eq (reverse s) (reverse p) h)
      ∙ reverse-append (reverse p) _
      ∙ ap (λ z. reverse (drop (length (reverse p)) (reverse s)) ++ z) (reverse-reverse p),
)

-- A suffix is what stands at the end.
pub has_suffix_iff : (s p : Str) → (has_suffix s p ≡ true) ↔ ((a : Str) × (s ≡ a ++ p))
unfolding has_suffix
has_suffix_iff s p = (
  reverse-append_cancel s p,
  λ (a, e). rw (e, reverse-append a p) (has_prefix-append (reverse p) (reverse a)),
)

pub has_prefix_iff : (s p : Str) → (has_prefix s p ≡ true) ↔ ((b : Str) × (s ≡ p ++ b))
has_prefix_iff s p =
    (λ h. (drop (length p) s, has_prefix→eq s p h), λ (b, e). rw e (has_prefix-append p b))

-- An occurrence is found, or one before it.
pub index-le :
    (j : ℕ) (s sub : Str)
    → has_prefix (drop j s) sub ≡ true
    → (i : ℕ) × (index s sub ≡ some i) × (i ≤ j)
unfolding index has_prefix
index-le j s [] h = (0, at_start s, omega arith)
  where
    at_start : (t : Str) → index t [] ≡ some 0
    at_start [] = refl
    at_start (c ∷ t) = refl
index-le zero [] (x ∷ sub) h = cc
index-le (suc j) [] (x ∷ sub) h = cc
index-le zero (c ∷ s) (x ∷ sub) h = (0, rw h, omega arith)
index-le (suc j) (c ∷ s) (x ∷ sub) h = elim (Bool-cases (has_prefix (c ∷ s) (x ∷ sub))) [
  | inl e ↦ (0, rw e, omega arith)
  | inr e ↦ let (i, p, l) = index-le j s (x ∷ sub) h in (suc i, rw e (rw p), omega arith)
]
