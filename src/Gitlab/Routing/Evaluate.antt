-- ===== src/Gitlab/Routing/Evaluate.antt =====
-- What `evaluateRoutes` gives: the chats of the rules that fire.
use express_botx.Common.{
  All, Bool-cases, List, [], ap, append-nil, arith, false, if◌then◌else◌, inl, inr, not, null, refl,
  sym, true, ℕ, ◌&&◌, ◌++◌, ◌+◌, ◌||◌, ◌↔◌, ◌∙◌, ◌∷◌, ◌≡◌,
}
use express_botx.Gitlab.Payload.{GitlabView}
use express_botx.Gitlab.Routing.Engine.{
  CompiledRoute, Evaluation, collect, evaluate_from, evaluate_routes, route_matches,
}
use express_botx.Text.{Str, elem}
use express_botx.Text.Dedup.{
  IsDistinct, dedup, dedup-IsDistinct, dedup_loop, dedup_loop-append, dedup_loop-dedup, elem-dedup,
}
use express_botx.Text.Equality.{elem-append}

-- The rules that fire: those that match, up to the first of them that stops the scan.
unfoldable pub firing : List CompiledRoute → GitlabView → List CompiledRoute
firing [] view = []
firing (r ∷ rs) view =
    let rest = firing rs view in
    if route_matches view r then r ∷ (if r.stop then [] else rest) else rest

abbrev pub all_chats : List CompiledRoute → List Str
all_chats [] = []
all_chats (r ∷ rs) = r.chats ++ all_chats rs

evaluate_from-chats :
    (i : ℕ) (routes : List CompiledRoute) (view : GitlabView) (e : Evaluation)
    → (evaluate_from i routes view e).chats
      ≡ (dedup_loop e.seen e.chats (all_chats (firing routes view))).1
unfolding evaluate_from firing
evaluate_from-chats i [] view e = unfold dedup_loop in refl
evaluate_from-chats i (r ∷ rs) view e = elim (Bool-cases (route_matches view r)) [
  | inr n ↦ rw n (evaluate_from-chats (i + 1) rs view e)
  | inl m ↦ rw m (elim (Bool-cases r.stop) [
    | inl s ↦ rw s (rw append-nil)
    | inr s ↦ rw s (
        evaluate_from-chats (i + 1) rs view (collect e i r.chats)
        ∙ ap (λ p. p.1) (dedup_loop-append e.seen e.chats r.chats (all_chats (firing rs view))))
  ])
]

evaluate_from-matched :
    (i : ℕ) (routes : List CompiledRoute) (view : GitlabView) (e : Evaluation)
    → (evaluate_from i routes view e).matched ≡ (e.matched || not (null (firing routes view)))
unfolding evaluate_from firing
evaluate_from-matched i [] view e = ground arith
evaluate_from-matched i (r ∷ rs) view e = ground (
  arith,
  evaluate_from-matched (i + 1) rs view e,
  evaluate_from-matched (i + 1) rs view (collect e i r.chats),
)

-- A rule fires exactly if it matches and no rule before it matches and stops.
abbrev pub Fires : List CompiledRoute → GitlabView → CompiledRoute → Type 0
Fires routes view r =
    (before : List CompiledRoute) × (after : List CompiledRoute) × (routes ≡ before ++ r ∷ after)
    × All (λ q. (route_matches view q && q.stop) ≡ false) before
    × (route_matches view r ≡ true)

elem-firing :
    (chat : Str) (routes : List CompiledRoute) (view : GitlabView)
    → elem chat (all_chats (firing routes view)) ≡ true
    → (r : CompiledRoute) × Fires routes view r × (elem chat r.chats ≡ true)
unfolding firing
elem-firing chat [] view h = unfold elem in cc
elem-firing chat (r ∷ rs) view h = elim (Bool-cases (route_matches view r)) [
  | inr n ↦
      let (q, (before, after, e, quiet, m), c) = elem-firing chat rs view (rw n at h) in
      (q, (r ∷ before, after, ap (◌∷◌ r) e, (ground arith, quiet), m), c)
  | inl m ↦ elim (Bool-cases (elem chat r.chats)) [
    | inl c ↦ (r, ([], rs, refl, tt, m), c)
    | inr c ↦ elim (Bool-cases r.stop) [
      | inl s ↦ cc (rw (m, s, append-nil, c) at h)
      | inr s ↦
          let later : elem chat (all_chats (firing rs view)) ≡ true =
            ground (arith, elem-append chat r.chats (all_chats (firing rs view))) in
          let (q, (before, after, e, quiet, m'), c') = elem-firing chat rs view later in
          (q, (r ∷ before, after, ap (◌∷◌ r) e, (ground arith, quiet), m'), c')
    ]
  ]
]

firing-elem :
    (chat : Str) (r : CompiledRoute) (before after : List CompiledRoute) (view : GitlabView)
    → All (λ q. (route_matches view q && q.stop) ≡ false) before
    → route_matches view r ≡ true
    → elem chat r.chats ≡ true
    → elem chat (all_chats (firing (before ++ r ∷ after) view)) ≡ true
unfolding firing
firing-elem chat r [] after view quiet m c = rw m (rw elem-append (rw c))
firing-elem chat r (q ∷ before) after view (h, quiet) m c =
    let ih = firing-elem chat r before after view quiet m c in
    ground (arith, elem-append chat q.chats (all_chats (firing (before ++ r ∷ after) view)))

-- A chat receives the event exactly if some firing rule names it.
pub evaluate_routes-chats_iff :
    (routes : List CompiledRoute) (view : GitlabView) (chat : Str)
    → (elem chat (evaluate_routes routes view).chats ≡ true)
      ↔ ((r : CompiledRoute) × Fires routes view r × (elem chat r.chats ≡ true))
unfolding evaluate_routes
evaluate_routes-chats_iff routes view chat = (
  λ h. elem-firing chat routes view (sym same ∙ h),
  λ (r, (before, after, e, quiet, m), c).
      same ∙ rw e (firing-elem chat r before after view quiet m c),
)
  where
    same :
        elem chat (evaluate_routes routes view).chats ≡ elem chat (all_chats (firing routes view))
    same =
        ap (elem chat)
          (evaluate_from-chats 0 routes view _ ∙ dedup_loop-dedup (all_chats (firing routes view)))
        ∙ elem-dedup chat (all_chats (firing routes view))

-- The chats are the first occurrences of the firing rules' chats, in order; and a match is reported
-- exactly if a rule fires.
pub evaluate_routes_lem :
    (routes : List CompiledRoute) (view : GitlabView)
    → ((evaluate_routes routes view).chats ≡ dedup (all_chats (firing routes view)))
      × IsDistinct (evaluate_routes routes view).chats
      × ((evaluate_routes routes view).matched ≡ not (null (firing routes view)))
unfolding evaluate_routes
evaluate_routes_lem routes view =
    let e =
      evaluate_from-chats 0 routes view _ ∙ dedup_loop-dedup (all_chats (firing routes view)) in
    (e, rw e (dedup-IsDistinct _), evaluate_from-matched 0 routes view _)
