-- ===== src/Botapi/Truncate.antt =====
-- `TruncateMessage` and its helpers: internal/botapi/truncate.go. A message is its runes; a
-- position is an index into them.
pub mod Breaks
pub mod Spans
pub mod Laws
use express_botx.Common.{
  Bool, List, Option, [], drop, false, get_elem?, if◌then◌else◌, leb, length, ltb, none, some, suc,
  take, true, zero, ℕ, ◌&&◌, ◌++◌, ◌+◌, ◌-◌, ◌/◌, ◌==◌, ◌||◌, ◌∷◌,
}
use express_botx.Text.{Str, codes, index, succ?}

abbrev pub mention_core : Str
mention_core = codes "{mention:"

abbrev pub newline : ℕ
newline = 10

-- The half-open range of one mention placeholder, sigils included.
pub record PlaceholderSpan : Type 0 where
  pub start : ℕ
  pub stop : ℕ

-- The loop of `lastLineBreak` counts down from `cut`; the steps left are `cut - low`.
unfoldable pub last_break : Str → ℕ → ℕ → Option ℕ
last_break runes zero cut = none
last_break runes (suc left) cut =
    let rest = last_break runes left (cut - 1) in
    elim (get_elem? runes (cut - 1)) [
      | none ↦ rest
      | some c ↦ if c == newline then some cut else rest
    ]

unfoldable pub last_line_break : Str → ℕ → ℕ → Option ℕ
unfolding last_break
last_line_break runes cut window =
    if window == 0 then none else let low = cut - window in last_break runes (cut - low) cut

-- The inner loop of `placeholderSpans`: the place of the closing brace, counted from here.
unfoldable pub closing_brace : Str → Option ℕ
closing_brace [] = none
closing_brace (c ∷ s) = if c == b'}' then some 0 else succ? (closing_brace s)

-- The sigils before the place: how far `start` moves back over `@` and `#`.
unfoldable pub is_sigil : ℕ → Bool
is_sigil c = c == b'@' || c == b'#'

unfoldable pub sigils_back : Str → ℕ → ℕ
unfolding is_sigil
sigils_back runes zero = zero
sigils_back runes (suc start) =
    let further = sigils_back runes start in
    elim (get_elem? runes start) [
      | none ↦ suc start
      | some c ↦ if is_sigil c then further else suc start
    ]

-- The loop of `placeholderSpans` from the rune `i` on. Each round moves `i` past a placeholder, so
-- the fuel `length runes + 1` never runs out.
unfoldable pub spans_from : ℕ → Str → ℕ → List PlaceholderSpan
spans_from zero runes i = []
spans_from (suc fuel) runes i = elim (index (drop i runes) mention_core) [
  | none ↦ []
  | some rel ↦ elim (closing_brace (drop (i + rel) runes)) [
    | none ↦ []
    | some off ↦
        let stop' = i + rel + off + 1 in
        record { start = sigils_back runes (i + rel); stop = stop' } ∷ spans_from fuel runes stop'
  ]
]

unfoldable pub placeholder_spans : Str → List PlaceholderSpan
unfolding spans_from closing_brace sigils_back index
placeholder_spans runes = spans_from (length runes + 1) runes 0

unfoldable pub pull_out : List PlaceholderSpan → ℕ → ℕ
pull_out [] cut = cut
pull_out (sp ∷ spans) cut =
    if ltb sp.start cut && ltb cut sp.stop then sp.start else pull_out spans cut

abbrev break_or : Option ℕ → ℕ → ℕ
break_or none room = room
break_or (some nl) room = nl

-- The place of the cut, before the suffix is added: at a line break close enough, and out of any
-- placeholder.
unfoldable pub cut_place : Str → ℕ → ℕ → ℕ
unfolding placeholder_spans pull_out last_line_break
cut_place runes room limit =
    pull_out (placeholder_spans runes) (break_or (last_line_break runes room (limit / 10)) room)

-- `limit` is 0 where the source's is negative: both leave the message alone.
unfoldable pub truncate_message : Str → Str → ℕ → Str × Bool
truncate_message msg suffix limit =
    if limit == 0
    then (msg, false)
    else if leb (length msg) limit
    then (msg, false)
    else let tail = if leb limit (length suffix) then [] else suffix in
      (take (cut_place msg (limit - length tail) limit) msg ++ tail, true)
