-- ===== src/Gitlab/Routing/Engine.antt =====
-- Compiled rules and how an event is matched against them.
use express_botx.Callbacks.Router.{route}
use express_botx.Common.{Bool, List, [], false, if◌then◌else◌, not, true, ℕ, ◌++◌, ◌+◌, ◌||◌, ◌∷◌}
use express_botx.Gitlab.Glob.{glob_match}
use express_botx.Gitlab.Payload.{GitlabView, event_matches}
use express_botx.Gitlab.Routing.Selector.{resolve_selector}
use express_botx.MultiSend.ChatIds.Laws.{entries}
use express_botx.Text.{Str}
use express_botx.Text.Dedup.{dedup_loop}

-- A compiled regular expression is the test that it makes of a value (`regexp.MatchString`).
pub data PatternMatcher : Type 0 where
  glob : Str → PatternMatcher
  regex : (Str → Bool) → PatternMatcher

unfoldable pub matcher_matches : PatternMatcher → Str → Bool
matcher_matches (glob pattern) value = glob_match pattern value
matcher_matches (regex test) value = test value

unfoldable pub any_matcher : List PatternMatcher → Str → Bool
any_matcher [] v = false
any_matcher (m ∷ ms) v = matcher_matches m v || any_matcher ms v

unfoldable pub condition_matches : List Str → List PatternMatcher → Bool
unfolding any_matcher
condition_matches [] matchers = false
condition_matches (v ∷ vs) matchers = any_matcher matchers v || condition_matches vs matchers

-- `compiledCondition`: the selector "event" has an event matcher, every other one patterns.
pub data CompiledCondition : Type 0 where
  on_event : List Str → CompiledCondition
  on_values : Str → List PatternMatcher → CompiledCondition

unfoldable pub cond_matches : CompiledCondition → GitlabView → Bool
cond_matches (on_event entries) view = event_matches view.kind view.event_key entries
cond_matches (on_values selector matchers) view =
    condition_matches (resolve_selector view selector) matchers

pub record CompiledRoute : Type 0 where
  pub conds : List CompiledCondition
  pub chats : List Str
  pub stop : Bool

unfoldable pub all_conds : List CompiledCondition → GitlabView → Bool
all_conds [] view = true
all_conds (c ∷ cs) view = if not (cond_matches c view) then false else all_conds cs view

unfoldable pub route_matches : GitlabView → CompiledRoute → Bool
unfolding all_conds
route_matches view route = all_conds route.conds view

-- The variables of the loop of `evaluateRoutes`.
pub record Evaluation : Type 0 where
  pub seen : List Str
  pub chats : List Str
  pub matched : Bool
  pub matched_rules : List ℕ

abbrev pub collect : Evaluation → ℕ → List Str → Evaluation
collect e i found =
    let (seen', chats') = dedup_loop e.seen e.chats found in
    record {
      seen = seen';
      chats = chats';
      matched = true;
      matched_rules = e.matched_rules ++ i ∷ [];
    }

unfoldable pub evaluate_from : ℕ → List CompiledRoute → GitlabView → Evaluation → Evaluation
evaluate_from i [] view e = e
evaluate_from i (route ∷ routes) view e =
    let e' = collect e i route.chats in
    let skipped = evaluate_from (i + 1) routes view e in
    let onward = evaluate_from (i + 1) routes view e' in
    if not (route_matches view route) then skipped else if route.stop then e' else onward

unfoldable pub evaluate_routes : List CompiledRoute → GitlabView → Evaluation
unfolding evaluate_from
evaluate_routes routes view =
    evaluate_from 0 routes view
      (record { seen = []; chats = []; matched = false; matched_rules = [] })
