-- ===== src/Mentions/Scan.antt =====
-- `scan`: where the tokens of a message stand. A position is an index into the code points; the
-- delimiters are ASCII, so that they cut the bytes at the same places.
pub mod Laws
use express_botx.Common.{
  Bool, List, Option, [], drop, false, if◌then◌else◌, leb, length, none, not, some, suc, take, true,
  zero, ℕ, ◌*◌, ◌+◌, ◌-◌, ◌==◌, ◌∷◌,
}
use express_botx.Text.{Str, codes, index}

abbrev pub max_parsed_mentions : ℕ
max_parsed_mentions = 1000

abbrev pub token_prefix : Str
token_prefix = codes "@mention["

pub record TokenSpan : Type 0 where
  pub start : ℕ
  pub stop : ℕ
  pub unclosed : Bool

-- The text between two positions.
abbrev pub slice : ℕ → ℕ → Str → Str
slice a b s = take (b - a) (drop a s)

abbrev pub raw_text : TokenSpan → Str → Str
raw_text t msg = slice t.start t.stop msg

abbrev pub body_text : TokenSpan → Str → Str
body_text t msg = slice (t.start + length token_prefix) (t.stop - 1) msg

unfoldable pub index_at : Str → Str → ℕ → Option ℕ
unfolding index
index_at s substr offset =
    if leb (length s) offset
    then none
    else elim (index (drop offset s) substr) [ none ↦ none | some i ↦ some (offset + i) ]

-- The inner loop of `scan` from the body on: how far it runs, and whether it met a bracket there.
unfoldable pub find_bracket : Str → ℕ × Bool
find_bracket [] = (0, false)
find_bracket (c ∷ s) =
    let (n, closed) = find_bracket s in
    if c == b']' then (0, true) else if c == 10 then (0, false) else (suc n, closed)

unfoldable pub token_at : Str → ℕ → TokenSpan
unfolding find_bracket
token_at msg idx =
    let (n, closed) = find_bracket (drop (idx + length token_prefix) msg) in
    let j = idx + length token_prefix + n in
    record { start = idx; stop = if closed then j + 1 else j; unclosed = not closed }

-- The loop of `scan` from `i` on, with the number of spans found before. Every round moves `i` past
-- a prefix, so the fuel `length msg + 1` never runs out.
unfoldable pub scan_from : ℕ → ℕ → Str → ℕ → ℕ → List TokenSpan
scan_from zero scan_limit msg i found = []
scan_from (suc fuel) scan_limit msg i found = elim (index_at msg token_prefix i) [
  | none ↦ []
  | some idx ↦
      let t = token_at msg idx in
      let rest = scan_from fuel scan_limit msg t.stop (found + 1) in
      t ∷ (if leb scan_limit (found + 1) then [] else rest)
]

unfoldable pub scan : ℕ → Str → List TokenSpan
unfolding scan_from index_at token_at
scan max_mentions msg = scan_from (length msg + 1) (2 * max_mentions) msg 0 0
