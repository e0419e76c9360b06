-- ===== src/Callbacks/Router.antt =====
-- `CallbackRouter` of internal/server/callback_router.go. A handler is a value of an arbitrary type
-- `H`: what it does belongs to the caller.
use express_botx.Common.{
  Bool, Bool-cases, List, Option, [], arith, false, if◌then◌else◌, inl, inr, length, none, not,
  null, some, true, ℕ, ◌+◌, ◌==◌, ◌||◌, ◌↔◌, ◌∷◌, ◌≡◌, ◌⊎◌,
}
use express_botx.Errors.{Result, fail, new_error, ok}
use express_botx.Text.{Str, codes, elem, str_eq}

pub record RouterRule (H : Type 0) : Type 0 where
  pub events : List Str
  pub handler : H
  pub async : Bool

pub record MatchedRule (H : Type 0) : Type 0 where
  pub handler : H
  pub async : Bool

abbrev star : Str
star = codes "*"

-- `NewCallbackRouter`: the rules from their parts, or the reason why there is no router. The
-- registry maps an index to a handler; the index in a message is left out.
unfoldable pub build_rules :
    {H : Type 0} → (ℕ → Option H) → ℕ → List (List Str) → List Bool → Result (List (RouterRule H))
build_rules registry i [] flags = ok []
build_rules registry i (evts ∷ rest) [] = ok []
build_rules registry i (evts ∷ rest) (flag ∷ flags) =
    let others = build_rules registry (i + 1) rest flags in
    elim (registry i) [
      | none ↦ fail (new_error (codes "callback router: no handler for rule"))
      | some h ↦
          if null evts
          then fail (new_error (codes "callback router: rule has no events"))
          else elim others [
            | fail e ↦ fail e
            | ok rules ↦ ok (record { events = evts; handler = h; async = flag } ∷ rules)
          ]
    ]

unfoldable pub new_callback_router :
    {H : Type 0} → List (List Str) → List Bool → (ℕ → Option H) → Result (List (RouterRule H))
unfolding build_rules
new_callback_router events async_flags handlers =
    if not (length events == length async_flags)
    then fail (new_error (codes "callback router: events and asyncFlags length mismatch"))
    else build_rules handlers 0 events async_flags

-- The inner loop of `Route`, which ends at the first hit.
unfoldable pub hears : List Str → Str → Bool
unfolding str_eq
hears [] event = false
hears (e ∷ es) event = if str_eq e event || str_eq e star then true else hears es event

unfoldable pub route : {H : Type 0} → List (RouterRule H) → Str → List (MatchedRule H)
route [] event = []
route (r ∷ rules) event =
    let rest = route rules event in
    if hears r.events event then record { handler = r.handler; async = r.async } ∷ rest else rest

-- A rule listens to the events that it names, or to all of them.
abbrev pub Listens : {H : Type 0} → Str → RouterRule H → Type 0
Listens event r = (elem event r.events ≡ true) ⊎ (elem star r.events ≡ true)

pub data Selected {H : Type 0} (event : Str)
    : List (RouterRule H) → List (MatchedRule H) → Type 0 where
  nothing_left : Selected event [] []
  takes :
      {r : RouterRule H} {rules : List (RouterRule H)} {matched : List (MatchedRule H)}
      → Listens event r
      → Selected event rules matched
      → Selected event (r ∷ rules) (record { handler = r.handler; async = r.async } ∷ matched)
  skips :
      {r : RouterRule H} {rules : List (RouterRule H)} {matched : List (MatchedRule H)}
      → ¬ Listens event r
      → Selected event rules matched
      → Selected event (r ∷ rules) matched

hears_iff :
    (events : List Str) (event : Str)
    → (hears events event ≡ true) ↔ ((elem event events ≡ true) ⊎ (elem star events ≡ true))
unfolding hears elem
hears_iff [] event = ground arith
hears_iff (e ∷ es) event = ground (arith, hears_iff es event)

-- An event goes to the handlers of exactly the rules that listen to it, in the order of the rules,
-- to each of them once.
pub route-Selected :
    {H : Type 0} (rules : List (RouterRule H)) (event : Str)
    → Selected event rules (route rules event)
unfolding route
route-Selected [] event = nothing_left
route-Selected (r ∷ rules) event = elim (Bool-cases (hears r.events event)) [
  | inl y ↦ rw y (takes ((hears_iff r.events event).0 y) (route-Selected rules event))
  | inr n ↦
      rw n (skips (λ l. let y = (hears_iff r.events event).1 l in cc) (route-Selected rules event))
]
