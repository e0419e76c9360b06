-- ===== src/Botapi/Truncate/Spans.antt =====
-- The placeholders found lie one after another, and every placeholder is among them.
use express_botx.Botapi.Truncate.{
  PlaceholderSpan, closing_brace, is_sigil, mention_core, placeholder_spans, sigils_back,
  spans_from,
}
use express_botx.Common.{
  Bool-cases, List, Option-cases, [], ap, arith, dec_lt, drop, drop-drop, false, get_elem?,
  get_elem?-drop, inl, inr, length, refl, some, suc, sym, true, zero, ℕ, ℕ_discrete, ◌+◌, ◌-◌, ◌<◌,
  ◌==◌, ◌∙◌, ◌∷◌, ◌≡◌, ◌≤◌, ◌⊎◌,
}
use express_botx.Text.{Str, has_prefix, index}
use express_botx.Text.Search.{index-has_prefix, index-le}

abbrev pub Inside : PlaceholderSpan → ℕ → Type 0
Inside sp x = (sp.start < x) × (x < sp.stop)

-- From `lo` on, the spans are not empty and do not overlap.
abbrev pub Ordered : ℕ → List PlaceholderSpan → Type 0
Ordered lo [] = Unit
Ordered lo (sp ∷ sps) = (lo ≤ sp.start) × (sp.start < sp.stop) × Ordered sp.stop sps

closing_brace-get : (s : Str) (off : ℕ) → closing_brace s ≡ some off → get_elem? s off ≡ some b'}'
unfolding closing_brace
closing_brace-get [] off h = cc
closing_brace-get (c ∷ s) off h = elim (Bool-cases (c == b'}')) [
  | inl e ↦ ground arith
  | inr e ↦ elim (Option-cases (closing_brace s)) [
    | inl f ↦ ground arith
    | inr (o, f) ↦ let g : off ≡ suc o = ground arith in rw g (closing_brace-get s o f)
  ]
]

sigils_back-le : (runes : Str) (start : ℕ) → sigils_back runes start ≤ start
unfolding sigils_back
sigils_back-le runes zero = omega arith
sigils_back-le runes (suc start) = ground (arith, sigils_back-le runes start)

-- The sigils end at a rune that is none.
sigils_back-lt :
    (runes : Str) (start k c : ℕ)
    → get_elem? runes k ≡ some c
    → is_sigil c ≡ false
    → k < start
    → k < sigils_back runes start
unfolding sigils_back
sigils_back-lt runes zero k c g n l = omega arith
sigils_back-lt runes (suc start) k c g n l = elim (ℕ_discrete k start) [
  | yes e ↦ let g' = rw e at g in ground arith
  | no ne ↦ ground (arith, sigils_back-lt runes start k c g n)
]

-- Where the scan may stand: at the beginning, or just behind a closing brace.
abbrev BehindBrace : Str → ℕ → Type 0
BehindBrace runes i = (i ≡ 0) ⊎ ((k : ℕ) × (i ≡ k + 1) × (get_elem? runes k ≡ some b'}'))

sigils_back-ge :
    (runes : Str) (i start : ℕ) → BehindBrace runes i → i ≤ start → i ≤ sigils_back runes start
unfolding is_sigil
sigils_back-ge runes i start (inl e) l = omega arith
sigils_back-ge runes i start (inr (k, e, g)) l =
    omega (arith, sigils_back-lt runes start k b'}' g refl (omega arith))

pub spans_from-Ordered :
    (fuel : ℕ) (runes : Str) (i : ℕ) → BehindBrace runes i → Ordered i (spans_from fuel runes i)
unfolding spans_from
spans_from-Ordered zero runes i b = tt
spans_from-Ordered (suc fuel) runes i b = elim (Option-cases (index (drop i runes) mention_core)) [
  | inl e ↦ rw (e, spans_from) tt
  | inr (rel, e) ↦ elim (Option-cases (closing_brace (drop (i + rel) runes))) [
    | inl f ↦ rw (e, spans_from, f) tt
    | inr (off, f) ↦
        rw (e, spans_from, f)
          (
            sigils_back-ge runes i (i + rel) b (omega arith),
            omega (arith, sigils_back-le runes (i + rel)),
            spans_from-Ordered fuel runes (i + rel + off + 1) (
                inr (
                  i + rel + off,
                  refl,
                  sym (get_elem?-drop (i + rel) off runes)
                      ∙ closing_brace-get (drop (i + rel) runes) off f,
                )),
          )
  ]
]

-- The mention placeholder that begins at `core`: the text "{mention:", and somewhere behind it the
-- first closing brace, `off` runes from `core`.
abbrev pub Placeholder : Str → ℕ → ℕ → Type 0
Placeholder runes core off =
    (has_prefix (drop core runes) mention_core ≡ true)
    × (closing_brace (drop core runes) ≡ some off)

-- From `first` to just before `core` there are sigils only.
abbrev pub Sigils : Str → ℕ → ℕ → Type 0
Sigils runes first core =
    (first ≤ core)
    × ((k : ℕ)
        → first ≤ k
        → k < core
        → (c : ℕ) × (get_elem? runes k ≡ some c) × (is_sigil c ≡ true))

-- One of the spans goes from `first` or before to `last` or behind.
abbrev pub Covered : ℕ → ℕ → List PlaceholderSpan → Type 0
Covered first last [] = ⊥
Covered first last (sp ∷ sps) = ((sp.start ≤ first) × (last ≤ sp.stop)) ⊎ Covered first last sps

-- The sigils are all taken in.
sigils_back-first :
    (runes : Str) (first start : ℕ) → Sigils runes first start → sigils_back runes start ≤ first
unfolding sigils_back
sigils_back-first runes first zero (l, h) = omega arith
sigils_back-first runes first (suc start) (l, h) = elim (ℕ_discrete first (suc start)) [
  | yes e ↦ rw e (sigils_back-le runes (suc start))
  | no n ↦
      let (c, g, y) = h start (omega arith) (omega arith) in
      let back = sigils_back-first runes first start (omega arith, λ k a b. h k a (omega arith)) in
      ground (arith, back)
]

-- A placeholder does not begin with a sigil.
core_no_sigil :
    (runes : Str) (core c : ℕ)
    → has_prefix (drop core runes) mention_core ≡ true
    → get_elem? runes core ≡ some c
    → is_sigil c ≡ false
unfolding has_prefix is_sigil
core_no_sigil [] zero c h g = cc
core_no_sigil [] (suc core) c h g = cc
core_no_sigil (x ∷ runes) zero c h g = ground arith
core_no_sigil (x ∷ runes) (suc core) c h g = core_no_sigil runes core c h g

-- Where a placeholder begins before another one, and runs past its beginning, it begins before the
-- sigils of that one.
earlier_first :
    (runes : Str) (found core first : ℕ)
    → has_prefix (drop found runes) mention_core ≡ true
    → found ≤ core
    → Sigils runes first core
    → sigils_back runes found ≤ first
earlier_first runes found core first p l (m, h) = elim (ℕ_discrete found core) [
  | yes e ↦ rw e (sigils_back-first runes first core (m, h))
  | no n ↦ elim (dec_lt found first) [
    | yes y ↦ omega (arith, sigils_back-le runes found)
    | no k ↦
        let (c, g, y) = h found (omega arith) (omega arith) in
        let z = core_no_sigil runes found c p g in cc
  ]
]

-- A brace seen from further on is seen from here.
closing_brace-drop :
    (n : ℕ) (s : Str) (off : ℕ)
    → closing_brace (drop n s) ≡ some off
    → (o : ℕ) × (closing_brace s ≡ some o) × ((n ≤ o) → o ≡ n + off)
unfolding closing_brace
closing_brace-drop zero s off h = (off, h, λ l. omega arith)
closing_brace-drop (suc n) [] off h = cc
closing_brace-drop (suc n) (c ∷ s) off h = elim (Bool-cases (c == b'}')) [
  | inl e ↦ (0, rw e, λ l. omega arith)
  | inr e ↦
      let (o, p, q) = closing_brace-drop n s off h in
      (suc o, rw e (rw p), λ l. omega (arith, q (omega arith)))
]

prefix_lt :
    (runes : Str) (core : ℕ)
    → has_prefix (drop core runes) mention_core ≡ true
    → core < length runes
unfolding has_prefix
prefix_lt [] zero h = cc
prefix_lt [] (suc core) h = cc
prefix_lt (c ∷ runes) zero h = omega arith
prefix_lt (c ∷ runes) (suc core) h = omega (arith, prefix_lt runes core h)

spans_from-Covered :
    (fuel : ℕ) (runes : Str) (i core off first : ℕ)
    → Placeholder runes core off
    → Sigils runes first core
    → i ≤ core
    → length runes < fuel + i
    → Covered first (core + off + 1) (spans_from fuel runes i)
unfolding spans_from
spans_from-Covered zero runes i core off first (starts, ends) sigils l fuel =
    absurd (omega (arith, prefix_lt runes core starts))
spans_from-Covered (suc f) runes i core off first (starts, ends) sigils l fuel =
    let split_at : i + (core - i) ≡ core = omega arith in
    let here : drop (core - i) (drop i runes) ≡ drop core runes =
      drop-drop i (core - i) runes ∙ ap (λ z. drop z runes) split_at in
    let (rel, e, rl) = index-le (core - i) (drop i runes) mention_core (rw here starts) in
    let split_at' : (i + rel) + (core - (i + rel)) ≡ core = omega arith in
    let here' : drop (core - (i + rel)) (drop (i + rel) runes) ≡ drop core runes =
      drop-drop (i + rel) (core - (i + rel)) runes ∙ ap (λ z. drop z runes) split_at' in
    let (o, p, q) =
      closing_brace-drop (core - (i + rel)) (drop (i + rel) runes) off (rw here' ends) in
    let found : has_prefix (drop (i + rel) runes) mention_core ≡ true =
      rw (← drop-drop i rel runes) (index-has_prefix (drop i runes) mention_core rel e) in
    rw (e, spans_from, p)
      (elim (dec_lt core (i + rel + o + 1)) [
        | yes y ↦ inl (
          earlier_first runes (i + rel) core first found (omega arith) sigils,
          omega (arith, q (omega arith)),
        )
        | no n ↦ inr (
            spans_from-Covered f runes (i + rel + o + 1) core off first (starts, ends) sigils
              (omega arith) (omega arith))
      ])

-- Every placeholder of the message, any of its sigils included, lies in a span, and the spans do
-- not overlap.
pub placeholder_spans-Covered :
    (runes : Str) (core off first : ℕ)
    → Placeholder runes core off
    → Sigils runes first core
    → Covered first (core + off + 1) (placeholder_spans runes)
unfolding placeholder_spans
placeholder_spans-Covered runes core off first h sigils =
    spans_from-Covered (length runes + 1) runes 0 core off first h sigils (omega arith)
      (omega arith)

pub placeholder_spans-Ordered : (runes : Str) → Ordered 0 (placeholder_spans runes)
unfolding placeholder_spans
placeholder_spans-Ordered runes = spans_from-Ordered (length runes + 1) runes 0 (inl refl)
