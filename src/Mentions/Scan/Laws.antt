-- ===== src/Mentions/Scan/Laws.antt =====
-- The tokens found are exactly what the text shows, one behind the other.
use express_botx.Common.{
  All, Bool, Bool-cases, List, Option-cases, [], ap, arith, dec_lt, drop, drop-drop, false,
  get_elem?, get_elem?-lt, if◌then◌else◌, inl, inr, leb, length, length-append, length-drop, not,
  refl, some, suc, take, true, zero, ℕ, ◌*◌, ◌+◌, ◌-◌, ◌<◌, ◌==◌, ◌∙◌, ◌∷◌, ◌≡◌, ◌≤◌, ◌⊎◌,
}
use express_botx.Mentions.Scan.{
  TokenSpan, find_bracket, index_at, scan, scan_from, token_at, token_prefix,
}
use express_botx.Text.{Str, has_prefix, index}
use express_botx.Text.Character.{has_char}
use express_botx.Text.Search.{has_prefix→eq, index-has_prefix, index-le}

-- How far the search for the closing bracket runs.
abbrev pub IsBody : Str → ℕ → Bool → Type 0
IsBody s n closed =
    (has_char b']' (take n s) ≡ false)
    × (has_char 10 (take n s) ≡ false)
    × (n ≤ length s)
    × (((closed ≡ true) × (get_elem? s n ≡ some b']'))
        ⊎ ((closed ≡ false) × ((n ≡ length s) ⊎ (get_elem? s n ≡ some 10))))

find_bracket-IsBody : (s : Str) → IsBody s (find_bracket s).0 (find_bracket s).1
unfolding find_bracket has_char
find_bracket-IsBody [] = (refl, refl, omega arith, inr (refl, inl refl))
find_bracket-IsBody (c ∷ s) = elim (Bool-cases (c == b']')) [
  | inl y ↦ rw y (refl, refl, omega arith, inl (refl, ground arith))
  | inr n ↦ elim (Bool-cases (c == 10)) [
    | inl y ↦ rw (n, y) (refl, refl, omega arith, inr (refl, inr (ground arith)))
    | inr m ↦
        let (a, b, l, d) = find_bracket-IsBody s in
        rw (n, m) (rw n a, rw m b, omega arith, ground arith)
  ]
]

-- A token of the text: the prefix, a body without brackets or line breaks, and a bracket behind it;
-- or, unclosed, a body that the end of the line or of the text ends.
abbrev pub IsToken : Str → TokenSpan → Type 0
IsToken msg t =
    (has_prefix (drop t.start msg) token_prefix ≡ true)
    × ((n : ℕ) × IsBody (drop (t.start + length token_prefix) msg) n (not t.unclosed)
        × (t.stop ≡ (
            if t.unclosed
            then t.start + length token_prefix + n
            else t.start + length token_prefix + n + 1)))

token_at-IsToken :
    (msg : Str) (idx : ℕ)
    → has_prefix (drop idx msg) token_prefix ≡ true
    → IsToken msg (token_at msg idx)
token_at-IsToken msg idx h =
    let s = drop (idx + length token_prefix) msg in
    let (a, b, l, d) = find_bracket-IsBody s in
    elim (Bool-cases (find_bracket s).1) [
      | inl y ↦
          unfold token_at in
          rw (y, token_at) (h, ((find_bracket s).0, (a, b, l, ground arith), refl))
      | inr n ↦
          unfold token_at in
          rw (n, token_at) (h, ((find_bracket s).0, (a, b, l, ground arith), refl))
    ]

-- One behind the other, each at least as long as the prefix, and within the text.
abbrev pub InOrder : Str → ℕ → List TokenSpan → Type 0
InOrder msg lo [] = Unit
InOrder msg lo (t ∷ ts) =
    (lo ≤ t.start)
    × (t.start + length token_prefix ≤ t.stop)
    × (t.stop ≤ length msg)
    × InOrder msg t.stop ts

IsToken-stop :
    (msg : Str) (t : TokenSpan)
    → IsToken msg t
    → (t.start + length token_prefix ≤ t.stop) × (t.stop ≤ length msg)
IsToken-stop msg t (h, (n, (a, b, l, d), e)) =
    let whole = ap length (has_prefix→eq (drop t.start msg) token_prefix h) in
    let after = length-append token_prefix (drop (length token_prefix) (drop t.start msg)) in
    let here = length-drop t.start msg in
    let there = length-drop (t.start + length token_prefix) msg in
    let enough : t.start + 9 ≤ length msg = omega arith in
    elim (Bool-cases t.unclosed) [
      | inl y ↦ let e' = rw y at e in omega arith
      | inr y ↦
          let e' = rw y at e in
          elim d [
            | inl (_, g) ↦
                omega (arith, get_elem?-lt (drop (t.start + length token_prefix) msg) n b']' g)
            | inr (z, _) ↦ ground arith
          ]
    ]

index_at-prefix :
    (msg sub : Str) (i idx : ℕ)
    → index_at msg sub i ≡ some idx
    → (i ≤ idx) × (has_prefix (drop idx msg) sub ≡ true)
index_at-prefix msg sub i idx h = elim (Option-cases (index (drop i msg) sub)) [
  | inl e ↦ unfold index_at in ground arith
  | inr (k, e) ↦
      let same : i + k ≡ idx = unfold index_at in ground arith in
      let p = index-has_prefix (drop i msg) sub k e in
      (omega arith, rw (← same) (rw (← drop-drop i k msg) p))
]

-- A place lies in one of the spans.
abbrev pub LiesIn : ℕ → List TokenSpan → Type 0
LiesIn p [] = ⊥
LiesIn p (t ∷ ts) = ((t.start ≤ p) × (p < t.stop)) ⊎ LiesIn p ts

scan_from-Found :
    (fuel scan_limit : ℕ) (msg : Str) (i found : ℕ)
    → All (IsToken msg) (scan_from fuel scan_limit msg i found)
      × InOrder msg i (scan_from fuel scan_limit msg i found)
unfolding scan_from
scan_from-Found zero scan_limit msg i found = (tt, tt)
scan_from-Found (suc fuel) scan_limit msg i found =
    elim (Option-cases (index_at msg token_prefix i)) [
      | inl e ↦ rw (e, scan_from) (tt, tt)
      | inr (idx, e) ↦
          let (l, p) = index_at-prefix msg token_prefix i idx e in
          let k = token_at-IsToken msg idx p in
          let (a, b) = IsToken-stop msg (token_at msg idx) k in
          let (ks, os) = scan_from-Found fuel scan_limit msg (token_at msg idx).stop (found + 1) in
          let s : (token_at msg idx).start ≡ idx = unfold token_at in refl in
          rw (e, scan_from)
            (elim (Bool-cases (leb scan_limit (found + 1))) [
              | inl y ↦ rw y ((k, tt), (omega arith, a, b, tt))
              | inr n ↦ rw n ((k, ks), (omega arith, a, b, os))
            ])
    ]

index_at-le :
    (msg sub : Str) (i p : ℕ)
    → has_prefix (drop p msg) sub ≡ true
    → i ≤ p
    → p < length msg
    → (idx : ℕ) × (index_at msg sub i ≡ some idx) × (i ≤ idx) × (idx ≤ p)
index_at-le msg sub i p h l m =
    let here : drop (p - i) (drop i msg) ≡ drop p msg =
      drop-drop i (p - i) msg ∙ ap (λ z. drop z msg) (omega arith) in
    let (k, e, kl) = index-le (p - i) (drop i msg) sub (rw here h) in
    (i + k, unfold index_at in ground arith, omega arith, omega arith)

prefix_lt : (s : Str) (p : ℕ) → has_prefix (drop p s) token_prefix ≡ true → p < length s
unfolding has_prefix
prefix_lt [] zero h = cc
prefix_lt [] (suc p) h = cc
prefix_lt (c ∷ s) zero h = omega arith
prefix_lt (c ∷ s) (suc p) h = omega (arith, prefix_lt s p h)

scan_from-LiesIn :
    (fuel scan_limit : ℕ) (msg : Str) (i found p : ℕ)
    → has_prefix (drop p msg) token_prefix ≡ true
    → i ≤ p
    → length msg < fuel + i
    → LiesIn p (scan_from fuel scan_limit msg i found)
      ⊎ (scan_limit ≤ found + length (scan_from fuel scan_limit msg i found))
unfolding scan_from
scan_from-LiesIn zero scan_limit msg i found p h l m = absurd (omega (arith, prefix_lt msg p h))
scan_from-LiesIn (suc fuel) scan_limit msg i found p h l m =
    let (idx, e, a, b) = index_at-le msg token_prefix i p h l (prefix_lt msg p h) in
    let (_, q) = index_at-prefix msg token_prefix i idx e in
    let (c, d) = IsToken-stop msg (token_at msg idx) (token_at-IsToken msg idx q) in
    let s : (token_at msg idx).start ≡ idx = unfold token_at in refl in
    rw (e, scan_from)
      (elim (Bool-cases (leb scan_limit (found + 1))) [
        | inl y ↦ rw y (inr (ground arith))
        | inr n ↦ rw n (elim (dec_lt p (token_at msg idx).stop) [
          | yes z ↦ inl (inl (omega arith, z))
          | no z ↦
              elim (scan_from-LiesIn fuel scan_limit msg (token_at msg idx).stop (found + 1) p h
                (omega arith) (omega arith)) [ inl w ↦ inl (inr w) | inr w ↦ inr (omega arith) ]
        ])
      ])

-- The scan finds tokens of the text only, complete or cut off by the end of a line or of the text,
-- one behind the other.
pub scan-InOrder :
    (max_mentions : ℕ) (msg : Str)
    → All (IsToken msg) (scan max_mentions msg) × InOrder msg 0 (scan max_mentions msg)
scan-InOrder max_mentions msg =
    unfold scan in scan_from-Found (length msg + 1) (2 * max_mentions) msg 0 0

-- The scan misses no token: every place where the prefix stands lies in one of those found, unless
-- the scan stopped at twice the limit of mentions.
pub scan-LiesIn :
    (max_mentions : ℕ) (msg : Str) (p : ℕ)
    → has_prefix (drop p msg) token_prefix ≡ true
    → LiesIn p (scan max_mentions msg) ⊎ (2 * max_mentions ≤ length (scan max_mentions msg))
scan-LiesIn max_mentions msg p h =
    let c =
      scan_from-LiesIn (length msg + 1) (2 * max_mentions) msg 0 0 p h (omega arith)
        (omega arith) in
    unfold scan in elim c [ inl x ↦ inl x | inr x ↦ inr (omega arith) ]
