-- ===== src/Gitlab/Routing/Compile.antt =====
-- From the configured rules to the compiled ones. `regexp.Compile` is a parameter: it gives the
-- test of a value, or nothing for a malformed expression.
pub mod Laws
use express_botx.Common.{
  Bool, List, Option, [], drop, if◌then◌else◌, leb, length, none, some, take, ◌&&◌, ◌-◌, ◌∷◌,
}
use express_botx.Gitlab.Routing.Engine.{
  CompiledCondition, CompiledRoute, PatternMatcher, glob, on_event, on_values, regex,
}
use express_botx.Text.{Str, codes, has_prefix, has_suffix, str_eq, str_leb}

-- A rule of the configuration: `match` lists the patterns of each selector.
pub record RouteConfig : Type 0 where
  pub selectors : List (Str × List Str)
  pub chats : List Str
  pub stop : Bool

-- The selectors in sorted order, as `sort.Strings` leaves them.
insert_selector : Str × List Str → List (Str × List Str) → List (Str × List Str)
insert_selector (k, ps) [] = (k, ps) ∷ []
insert_selector (k, ps) ((j, qs) ∷ rest) =
    if str_leb k j then (k, ps) ∷ (j, qs) ∷ rest else (j, qs) ∷ insert_selector (k, ps) rest

sort_selectors : List (Str × List Str) → List (Str × List Str)
sort_selectors [] = []
sort_selectors (s ∷ rest) = insert_selector s (sort_selectors rest)

-- A failure names the selector; the rule's position in the message is left out.
pub data Compiled {ℓ} (A : Type ℓ) : Type ℓ where
  compiled : A → Compiled A
  malformed : Str → Compiled A

infixl 5 ◌>>=◌
abbrev pub ◌>>=◌ {ℓ κ} : {A : Type ℓ} {B : Type κ} → Compiled A → (A → Compiled B) → Compiled B
compiled a >>= f = f a
malformed e >>= f = malformed e

abbrev slash : Str
slash = codes "/"

module _ (regexp_compile : Str → Option (Str → Bool)) where
  unfoldable pub compile_pattern : Str → Option PatternMatcher
  compile_pattern pattern =
      if leb 2 (length pattern) && has_prefix pattern slash && has_suffix pattern slash
      then elim (regexp_compile (take (length pattern - 2) (drop 1 pattern))) [
        | none ↦ none
        | some test ↦ some (regex test)
      ]
      else some (glob pattern)

  unfoldable pub compile_patterns : Str → List Str → Compiled (List PatternMatcher)
  compile_patterns selector [] = compiled []
  compile_patterns selector (p ∷ ps) = elim (compile_pattern p) [
    | none ↦ malformed selector
    | some m ↦ do ms ← compile_patterns selector ps; compiled (m ∷ ms)
  ]

  unfoldable pub compile_condition : Str × List Str → Compiled CompiledCondition
  compile_condition (selector, patterns) =
      if str_eq selector (codes "event")
      then compiled (on_event patterns)
      else do ms ← compile_patterns selector patterns; compiled (on_values selector ms)

  unfoldable pub compile_conditions : List (Str × List Str) → Compiled (List CompiledCondition)
  compile_conditions [] = compiled []
  compile_conditions (s ∷ rest) = do
    c ← compile_condition s
    cs ← compile_conditions rest
    compiled (c ∷ cs)

  unfoldable pub compile_route : RouteConfig → Compiled CompiledRoute
  unfolding sort_selectors insert_selector
  compile_route r = do
    cs ← compile_conditions (sort_selectors r.selectors)
    compiled (record { conds = cs; chats = r.chats; stop = r.stop })

  unfoldable pub compile_gitlab_routes : List RouteConfig → Compiled (List CompiledRoute)
  compile_gitlab_routes [] = compiled []
  compile_gitlab_routes (r ∷ routes) = do
    c ← compile_route r
    cs ← compile_gitlab_routes routes
    compiled (c ∷ cs)
