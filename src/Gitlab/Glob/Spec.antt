-- ===== src/Gitlab/Glob/Spec.antt =====
-- What a `*`-glob means, with no search order in it.
use express_botx.Common.{List, [], ap, refl, ℕ, ℕ_discrete, ◌++◌, ◌↔◌, ◌∙◌, ◌∷◌, ◌≡◌, ◌≢◌}
use express_botx.Gitlab.Glob.{asterisk}
use express_botx.Text.{Str, cons_head, split}
use express_botx.Text.Split.{split-cons, split-other, split-separator}

-- `*` stands for any run of characters, every other character for itself.
pub data Matches : Str → Str → Type 0 where
  end : Matches [] []
  literal : {c d : ℕ} {p v : Str} → c ≢ asterisk → d ≡ c → Matches p v → Matches (c ∷ p) (d ∷ v)
  wildcard :
      {c : ℕ} {p v w : Str} (skip : Str)
      → c ≡ asterisk
      → w ≡ skip ++ v
      → Matches p v
      → Matches (c ∷ p) w

-- The same over the segments between the asterisks.
abbrev pub Fits : List Str → Str → Type 0
Fits [] v = ⊥
Fits (last ∷ []) v = v ≡ last
Fits (first ∷ next ∷ more) v =
    (skip : Str) × (rest : Str) × (v ≡ first ++ (skip ++ rest)) × Fits (next ∷ more) rest

abbrev pub Floats : List Str → Str → Type 0
Floats ps v = (skip : Str) × (rest : Str) × (v ≡ skip ++ rest) × Fits ps rest

-- A segment list that begins with one more character.
cons_head-Fits :
    (c : ℕ) (p : Str) (ps : List Str) (v : Str)
    → Fits (cons_head c (p ∷ ps)) v ↔ ((w : Str) × (v ≡ c ∷ w) × Fits (p ∷ ps) w)
cons_head-Fits c p [] v = (λ e. (p, e, refl), λ (w, e, f). e ∙ ap (◌∷◌ c) f)
cons_head-Fits c p (q ∷ ps) v = (
  λ (skip, rest, e, f). (p ++ (skip ++ rest), e, (skip, rest, refl, f)),
  λ (w, e, (skip, rest, e', f)). (skip, rest, e ∙ ap (◌∷◌ c) e', f),
)

-- A pattern that begins with an asterisk.
wildcard-Fits : (p v : Str) → Fits ([] ∷ split asterisk p) v ↔ Floats (split asterisk p) v
wildcard-Fits p v = let (q, qs, e) = split-cons asterisk p in rw e (λ x. x, λ x. x)

literal-Fits :
    (c : ℕ) (p v : Str)
    → Fits (cons_head c (split asterisk p)) v
      ↔ ((w : Str) × (v ≡ c ∷ w) × Fits (split asterisk p) w)
literal-Fits c p v = let (q, qs, e) = split-cons asterisk p in rw e (cons_head-Fits c q qs v)

pub Matches→Fits : {p v : Str} → Matches p v → Fits (split asterisk p) v
Matches→Fits end = unfold split in refl
Matches→Fits (literal {c} {p} {v} n e m) =
    rw (split-other asterisk c p n) ((literal-Fits c p _).1 (v, ap (λ z. z ∷ v) e, Matches→Fits m))
Matches→Fits (wildcard {c} {p} {v} skip e e' m) =
    rw (split-separator asterisk c p e) ((wildcard-Fits p _).1 (skip, v, e', Matches→Fits m))

pub Fits→Matches : (p v : Str) → Fits (split asterisk p) v → Matches p v
Fits→Matches [] v f = let e : v ≡ [] = unfold split in f in rw e end
Fits→Matches (c ∷ p) v f = elim (ℕ_discrete c asterisk) [
  | yes e ↦
      let (skip, rest, e', g) = (wildcard-Fits p v).0 (rw (split-separator asterisk c p e) at f) in
      wildcard skip e e' (Fits→Matches p rest g)
  | no n ↦
      let (w, e, g) = (literal-Fits c p v).0 (rw (split-other asterisk c p n) at f) in
      rw e (literal n refl (Fits→Matches p w g))
]
