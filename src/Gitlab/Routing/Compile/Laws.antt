-- ===== src/Gitlab/Routing/Compile/Laws.antt =====
-- A compiled rule means what the configured one says, in whatever order its selectors stand.
use express_botx.Common.{Bool, List, Option, some, true, ◌≡◌, ◌≢◌, ◌⊎◌}
use express_botx.Gitlab.Payload.{GitlabView, event_matches}
use express_botx.Gitlab.Routing.Compile.{compile_pattern}
use express_botx.Gitlab.Routing.Engine.{PatternMatcher, matcher_matches}
use express_botx.Gitlab.Routing.Selector.{resolve_selector}
use express_botx.Text.{Str, codes, elem}

module _ (regexp_compile : Str → Option (Str → Bool)) where
  -- A pattern accepts a value: it compiles, and what it compiles to matches.
  abbrev pub Accepts : Str → Str → Type 0
  Accepts v p =
      (m : PatternMatcher) × (compile_pattern regexp_compile p ≡ some m)
      × (matcher_matches m v ≡ true)

  -- What one configured selector demands of an event.
  abbrev pub Demands : GitlabView → Str × List Str → Type 0
  Demands view (selector, patterns) =
      ((selector ≡ codes "event") × (event_matches view.kind view.event_key patterns ≡ true))
      ⊎ ((selector ≢ codes "event")
          × ((v : Str) × (p : Str) × (elem v (resolve_selector view selector) ≡ true)
              × (elem p patterns ≡ true)
              × Accepts v p))

  abbrev SomeMatch : List Str → List Str → Type 0
  SomeMatch vs ps = (v : Str) × (p : Str) × (elem v vs ≡ true) × (elem p ps ≡ true) × Accepts v p
