-- ===== src/Text/Split.antt =====
-- Splitting a text by a separator.
use express_botx.Common.{
  Bool-cases, List, [], ap, arith, inl, inr, refl, sym, ℕ, ℕ_discrete, ◌==◌, ◌∙◌, ◌∷◌, ◌≡◌, ◌≢◌,
}
use express_botx.Text.{Str, cons_head, split}

pub split-separator : (d c : ℕ) (s : Str) → c ≡ d → split d (c ∷ s) ≡ [] ∷ split d s
unfolding split
split-separator d c s e = ground arith

pub split-other : (d c : ℕ) (s : Str) → c ≢ d → split d (c ∷ s) ≡ cons_head c (split d s)
unfolding split
split-other d c s n = ground arith

-- There is always a first part.
pub split-cons : (d : ℕ) (s : Str) → (p : Str) × (ps : List Str) × (split d s ≡ p ∷ ps)
unfolding split
split-cons d [] = ([], [], refl)
split-cons d (c ∷ s) = elim (Bool-cases (c == d)) [
  | inl e ↦ ([], split d s, rw e)
  | inr e ↦ let (p, ps, f) = split-cons d s in (c ∷ p, ps, rw e (rw f))
]

-- A text that is one part is that part.
pub split-single : (d : ℕ) (s p : Str) → split d s ≡ p ∷ [] → p ≡ s
split-single d [] p e = let e' : [] ∷ [] ≡ p ∷ [] = unfold split in e in cc
split-single d (c ∷ s) p e = elim (ℕ_discrete c d) [
  | yes f ↦ let (q, qs, g) = split-cons d s in absurd (cc (split-separator d c s f))
  | no n ↦
      let (q, qs, g) = split-cons d s in
      let e' : cons_head c (q ∷ qs) ≡ p ∷ [] =
        sym (ap (cons_head c) g) ∙ sym (split-other d c s n) ∙ e in
      let e'' : split d s ≡ q ∷ [] = ground (arith) in cc (split-single d s q e'')
]
