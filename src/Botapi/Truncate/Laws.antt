-- ===== src/Botapi/Truncate/Laws.antt =====
-- What a truncated message is.
use express_botx.Botapi.Truncate.{
  PlaceholderSpan, break_or, cut_place, last_line_break, placeholder_spans, pull_out,
  truncate_message,
}
use express_botx.Botapi.Truncate.Breaks.{last_line_break-le}
use express_botx.Botapi.Truncate.Spans.{
  Covered, Inside, Ordered, Placeholder, Sigils, placeholder_spans-Covered,
  placeholder_spans-Ordered,
}
use express_botx.Common.{
  All, Bool-cases, List, Option-cases, [], arith, false, if◌then◌else◌, inl, inr, leb, length,
  length-append, length-take, ltb, refl, subst, sym, take, true, ℕ, ◌&&◌, ◌++◌, ◌+◌, ◌-◌, ◌/◌, ◌<◌,
  ◌↔◌, ◌∷◌, ◌≡◌, ◌≤◌, ◌⊎◌,
}
use express_botx.Text.{Str}

pull_out-le : (sps : List PlaceholderSpan) (cut : ℕ) → pull_out sps cut ≤ cut
unfolding pull_out
pull_out-le [] cut = omega arith
pull_out-le (sp ∷ sps) cut = ground (arith, pull_out-le sps cut)

-- The cut is kept, or moved to where a span starts.
pull_out-ge :
    (lo : ℕ) (sps : List PlaceholderSpan) (cut : ℕ)
    → Ordered lo sps
    → (pull_out sps cut ≡ cut) ⊎ (lo ≤ pull_out sps cut)
unfolding pull_out
pull_out-ge lo [] cut h = inl refl
pull_out-ge lo (sp ∷ sps) cut (a, b, h) = ground (arith, pull_out-ge sp.stop sps cut h)

abbrev pub Outside : ℕ → PlaceholderSpan → Type 0
Outside x sp = ¬ Inside sp x

Outside-before :
    (lo x : ℕ) (sps : List PlaceholderSpan) → Ordered lo sps → x ≤ lo → All (Outside x) sps
Outside-before lo x [] h l = tt
Outside-before lo x (sp ∷ sps) (a, b, h) l =
    (λ i. omega arith, Outside-before sp.stop x sps h (omega arith))

pull_out-Outside :
    (lo : ℕ) (sps : List PlaceholderSpan) (cut : ℕ)
    → Ordered lo sps
    → All (Outside (pull_out sps cut)) sps
unfolding pull_out
pull_out-Outside lo [] cut h = tt
pull_out-Outside lo (sp ∷ sps) cut (a, b, h) =
    elim (Bool-cases (ltb sp.start cut && ltb cut sp.stop)) [
      | inl e ↦
          let here : pull_out (sp ∷ sps) cut ≡ sp.start = rw e refl in
          subst (λ x. All (Outside x) (sp ∷ sps)) (sym here)
            (λ i. omega arith, Outside-before sp.stop sp.start sps h (omega arith))
      | inr e ↦
          let onward : pull_out (sp ∷ sps) cut ≡ pull_out sps cut = rw e refl in
          subst (λ x. All (Outside x) (sp ∷ sps)) (sym onward)
            (λ i. ground (arith, pull_out-ge sp.stop sps cut h), pull_out-Outside sp.stop sps cut h)
    ]

cut_place-le : (runes : Str) (room limit : ℕ) → cut_place runes room limit ≤ room
unfolding cut_place
cut_place-le runes room limit = elim (Option-cases (last_line_break runes room (limit / 10))) [
  | inl e ↦ rw e (pull_out-le (placeholder_spans runes) room)
  | inr (nl, e) ↦ rw e (
      omega (
        arith,
        pull_out-le (placeholder_spans runes) nl,
        last_line_break-le runes room (limit / 10) nl e,
      ))
]

cut_place-Outside :
    (runes : Str) (room limit : ℕ)
    → All (Outside (cut_place runes room limit)) (placeholder_spans runes)
unfolding cut_place
cut_place-Outside runes room limit =
    pull_out-Outside 0 (placeholder_spans runes)
      (break_or (last_line_break runes room (limit / 10)) room) (placeholder_spans-Ordered runes)

Outside-Covered :
    (x first last : ℕ) (sps : List PlaceholderSpan)
    → All (Outside x) sps
    → Covered first last sps
    → (x ≤ first) ⊎ (last ≤ x)
Outside-Covered x first last [] h c = absurd c
Outside-Covered x first last (sp ∷ sps) (h, hs) (inl (p, q)) = ground arith
Outside-Covered x first last (sp ∷ sps) (h, hs) (inr c) = Outside-Covered x first last sps hs c

-- A message is left alone exactly if capping is disabled or the message fits the limit.
pub truncate_message_unchanged :
    (msg suffix : Str) (limit : ℕ)
    → ((truncate_message msg suffix limit).1 ≡ false) ↔ ((limit ≡ 0) ⊎ (length msg ≤ limit))
unfolding truncate_message
truncate_message_unchanged msg suffix limit = ground arith

-- With a limit, no result is longer than it.
pub length-truncate_message :
    (msg suffix : Str) (limit : ℕ)
    → 0 < limit
    → length (truncate_message msg suffix limit).0 ≤ limit
unfolding truncate_message
length-truncate_message msg suffix limit pos =
    let tail : Str = if leb limit (length suffix) then [] else suffix in
    let place = cut_place msg (limit - length tail) limit in
    ground (
      arith,
      length-append (take place msg) tail,
      length-take place msg,
      cut_place-le msg (limit - length tail) limit,
    )

-- A truncated message is a beginning of the message and the suffix, or nothing where the suffix
-- does not fit; the cut never falls inside a mention placeholder: each one is kept whole, from its
-- sigils to its brace, or left out whole.
pub truncate_message_lem :
    (msg suffix : Str) (limit : ℕ)
    → (truncate_message msg suffix limit).1 ≡ true
    → (n : ℕ) × (tail : Str) × ((truncate_message msg suffix limit).0 ≡ take n msg ++ tail)
      × (tail ≡ (if leb limit (length suffix) then [] else suffix))
      × All (Outside n) (placeholder_spans msg)
unfolding truncate_message
truncate_message_lem msg suffix limit h =
    let tail : Str = if leb limit (length suffix) then [] else suffix in
    (
      cut_place msg (limit - length tail) limit,
      tail,
      ground arith,
      refl,
      cut_place-Outside msg (limit - length tail) limit,
    )

-- The cut never falls inside a mention placeholder: for one that begins with "{mention:" at `core`
-- and whose closing brace stands `off` runes on, with sigils from `first` up to it, the cut is at
-- `first` or before, or behind the brace.
pub cut_place-Placeholder :
    (msg : Str) (room limit core off first : ℕ)
    → Placeholder msg core off
    → Sigils msg first core
    → (cut_place msg room limit ≤ first) ⊎ (core + off + 1 ≤ cut_place msg room limit)
cut_place-Placeholder msg room limit core off first h sigils =
    Outside-Covered (cut_place msg room limit) first (core + off + 1) (placeholder_spans msg)
      (cut_place-Outside msg room limit) (placeholder_spans-Covered msg core off first h sigils)
