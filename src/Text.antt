-- ===== src/Text.antt =====
-- Go strings as the source uses them. A `string` holding UTF-8 is the list of its code points, so
-- an offset counts code points; the functions are those of the package `strings`.
pub mod Equality
pub mod Search
pub mod Split
pub mod Dedup
pub mod Subset
pub mod Character
use Prim.Native.Char.{code}
use express_botx.Common.{
  Bool, List, Option, String, [], false, if◌then◌else◌, leb, ltb, negsuc, none, null, pos, reverse,
  some, suc, true, zero, ℕ, ℤ, ◌%◌, ◌&&◌, ◌++◌, ◌+◌, ◌/◌, ◌==◌, ◌||◌, ◌∷◌,
}

abbrev pub Str : Type 0
Str = List ℕ

-- The text of a literal. `String` has its own `[]` and `∷`.
abbrev pub codes : String → Str
codes String.[] = []
codes (String.◌∷◌ c s) = code c ∷ codes s

unfoldable pub str_eq : Str → Str → Bool
str_eq [] [] = true
str_eq (x ∷ xs) (y ∷ ys) = x == y && str_eq xs ys
str_eq [] (y ∷ ys) = false
str_eq (x ∷ xs) [] = false

-- A set of strings, or the keys of a `map[string]struct{}`, and the test for a key.
unfoldable pub elem : Str → List Str → Bool
elem s [] = false
elem s (t ∷ ts) = str_eq t s || elem s ts

-- `strings.HasPrefix(s, p)` is `has_prefix s p`.
unfoldable pub has_prefix : Str → Str → Bool
has_prefix s [] = true
has_prefix [] (x ∷ p) = false
has_prefix (c ∷ s) (x ∷ p) = c == x && has_prefix s p

unfoldable pub has_suffix : Str → Str → Bool
unfolding has_prefix
has_suffix s p = has_prefix (reverse s) (reverse p)

-- `strings.Index`, with `none` for -1.
abbrev pub succ? : Option ℕ → Option ℕ
succ? none = none
succ? (some i) = some (suc i)

unfoldable pub index : Str → Str → Option ℕ
unfolding has_prefix
index [] sub = if null sub then some 0 else none
index (c ∷ s) sub = if has_prefix (c ∷ s) sub then some 0 else succ? (index s sub)

abbrev pub is_some {ℓ} : {A : Type ℓ} → Option A → Bool
is_some none = false
is_some (some a) = true

unfoldable pub contains : Str → Str → Bool
unfolding index
contains s sub = is_some (index s sub)

-- `strings.Split` by a separator of one character.
abbrev pub cons_head : ℕ → List Str → List Str
cons_head c [] = (c ∷ []) ∷ []
cons_head c (p ∷ ps) = (c ∷ p) ∷ ps

unfoldable pub split : ℕ → Str → List Str
split d [] = [] ∷ []
split d (c ∷ s) = let rest = split d s in if c == d then [] ∷ rest else cons_head c rest

-- `unicode.IsSpace`
unfoldable pub is_space : ℕ → Bool
is_space c =
    (leb 9 c && leb c 13)
    || c == 32
    || c == 0x85
    || c == 0xa0
    || c == 0x1680
    || (leb 0x2000 c && leb c 0x200a)
    || c == 0x2028
    || c == 0x2029
    || c == 0x202f
    || c == 0x205f
    || c == 0x3000

-- `strings.TrimSpace`
unfoldable pub trim_left : Str → Str
unfolding is_space
trim_left [] = []
trim_left (c ∷ s) = let rest = trim_left s in if is_space c then rest else c ∷ s

unfoldable pub trim_right : Str → Str
unfolding is_space
trim_right [] = []
trim_right (c ∷ s) = let rest = trim_right s in if is_space c && null rest then [] else c ∷ rest

unfoldable pub trim_space : Str → Str
unfolding trim_left trim_right
trim_space s = trim_right (trim_left s)

-- `strings.Join`
unfoldable pub join : Str → List Str → Str
join sep [] = []
join sep (s ∷ []) = s
join sep (s ∷ t ∷ rest) = s ++ (sep ++ join sep (t ∷ rest))

-- The order of strings, and `sort.Strings` by insertion: equal strings are the same.
unfoldable pub str_leb : Str → Str → Bool
str_leb [] t = true
str_leb (c ∷ s) [] = false
str_leb (c ∷ s) (d ∷ t) = ltb c d || (c == d && str_leb s t)

unfoldable pub insert_sorted : Str → List Str → List Str
unfolding str_leb
insert_sorted s [] = s ∷ []
insert_sorted s (t ∷ ts) =
    let rest = insert_sorted s ts in if str_leb s t then s ∷ t ∷ ts else t ∷ rest

unfoldable pub sort_strings : List Str → List Str
unfolding insert_sorted
sort_strings [] = []
sort_strings (s ∷ ss) = insert_sorted s (sort_strings ss)

-- The last `places` decimal digits of a number, without leading zeros.
unfoldable pub digits : ℕ → ℕ → Str
digits zero n = []
digits (suc places) n =
    let rest = digits places (n / 10) in
    if ltb n 10 then (b'0' + n) ∷ [] else rest ++ (b'0' + n % 10) ∷ []

-- `%d` of an int64, which has at most 19 digits.
unfoldable pub decimal : ℤ → Str
unfolding digits
decimal (pos n) = digits 19 n
decimal (negsuc n) = b'-' ∷ digits 19 (n + 1)
