-- ===== src/MultiSend/Fanout/Laws.antt =====
-- What the fan-out reports of the deliveries that it makes.
use express_botx.Common.{
  Bool-cases, List, [], ap, append-nil, append_assoc, arith, inl, inr, length, not, null, refl, suc,
  sym, ◌&&◌, ◌++◌, ◌+◌, ◌∙◌, ◌∷◌, ◌≡◌,
}
use express_botx.Errors.{Result, fail, ok}
use express_botx.MultiSend.Fanout.{
  Fanout, SendError, SendResult, failed_part, fanout, fanout_loop, note, note_partial, sent_part,
}
use express_botx.Text.{Str}

module _ {S : Type 0} (deliver : Str → S → Result SendResult × S) where
  -- The deliveries, one after another, whatever their outcomes: each target once, in order.
  unfoldable pub outcomes : List Str → S → List (Str × Result SendResult)
  outcomes [] s = []
  outcomes (target ∷ targets) s =
      let (outcome, s') = deliver target s in (target, outcome) ∷ outcomes targets s'

  unfoldable pub last_state : List Str → S → S
  last_state [] s = s
  last_state (target ∷ targets) s = last_state targets (deliver target s).1

abbrev pub successes : List (Str × Result SendResult) → List SendResult
successes [] = []
successes ((t, ok r) ∷ os) = r ∷ successes os
successes ((t, fail e) ∷ os) = successes os

abbrev pub failures : List (Str × Result SendResult) → List SendError
failures [] = []
failures ((t, ok r) ∷ os) = failures os
failures ((t, fail e) ∷ os) = record { chat = t; error = e.message; cause = e } ∷ failures os

successes-cons :
    (target : Str) (outcome : Result SendResult) (rest : List (Str × Result SendResult))
    → successes ((target, outcome) ∷ rest) ≡ sent_part outcome ++ successes rest
successes-cons target (ok r) rest = refl
successes-cons target (fail e) rest = refl

failures-cons :
    (target : Str) (outcome : Result SendResult) (rest : List (Str × Result SendResult))
    → failures ((target, outcome) ∷ rest) ≡ failed_part target outcome ++ failures rest
failures-cons target (ok r) rest = refl
failures-cons target (fail e) rest = refl

length-outcomes :
    (os : List (Str × Result SendResult)) → length (successes os) + length (failures os) ≡ length os
length-outcomes [] = omega arith
length-outcomes ((t, ok r) ∷ os) = omega (arith, length-outcomes os)
length-outcomes ((t, fail e) ∷ os) = omega (arith, length-outcomes os)

module _ {S : Type 0} (deliver : Str → S → Result SendResult × S) where
  fanout_loop-results :
      (targets : List Str) (acc : Fanout S)
      → (fanout_loop deliver targets acc).results
        ≡ acc.results ++ successes (outcomes deliver targets acc.state)
  unfolding fanout_loop outcomes
  fanout_loop-results [] acc = sym (append-nil _)
  fanout_loop-results (target ∷ targets) acc =
      let p = deliver target acc.state in
      fanout_loop-results targets (note target p.0 acc p.1)
      ∙ append_assoc acc.results (sent_part p.0) _
      ∙ ap (λ z. acc.results ++ z) (sym (successes-cons target p.0 (outcomes deliver targets p.1)))

  fanout_loop-errs :
      (targets : List Str) (acc : Fanout S)
      → (fanout_loop deliver targets acc).errs
        ≡ acc.errs ++ failures (outcomes deliver targets acc.state)
  unfolding fanout_loop outcomes
  fanout_loop-errs [] acc = sym (append-nil _)
  fanout_loop-errs (target ∷ targets) acc =
      let p = deliver target acc.state in
      fanout_loop-errs targets (note target p.0 acc p.1)
      ∙ append_assoc acc.errs (failed_part target p.0) _
      ∙ ap (λ z. acc.errs ++ z) (sym (failures-cons target p.0 (outcomes deliver targets p.1)))

  fanout_loop-state :
      (targets : List Str) (acc : Fanout S)
      → (fanout_loop deliver targets acc).state ≡ last_state deliver targets acc.state
  unfolding fanout_loop last_state
  fanout_loop-state [] acc = refl
  fanout_loop-state (target ∷ targets) acc =
      let p = deliver target acc.state in fanout_loop-state targets (note target p.0 acc p.1)

  length-outcomes_targets :
      (targets : List Str) (s : S) → length (outcomes deliver targets s) ≡ length targets
  unfolding outcomes
  length-outcomes_targets [] s = refl
  length-outcomes_targets (t ∷ targets) s = ap suc (length-outcomes_targets targets (deliver t s).1)

note_partial_lem :
    {S : Type 0} (acc : Fanout S)
    → ((note_partial acc).results ≡ acc.results)
      × ((note_partial acc).errs ≡ acc.errs)
      × ((note_partial acc).state ≡ acc.state)
note_partial_lem acc = elim (Bool-cases (not (null acc.results) && not (null acc.errs))) [
  | inl e ↦ rw e (refl, refl, refl)
  | inr e ↦ rw e (refl, refl, refl)
]

-- The fan-out attempts every target once, in order and whatever happened to the ones before it: the
-- results are the successful deliveries in target order, the errors the failed ones, each named by
-- its target, and together they are as many as the targets.
pub fanout_lem :
    {S : Type 0} (deliver : Str → S → Result SendResult × S) (targets : List Str) (s : S)
    → ((fanout deliver targets s).results ≡ successes (outcomes deliver targets s))
      × ((fanout deliver targets s).errs ≡ failures (outcomes deliver targets s))
      × ((fanout deliver targets s).state ≡ last_state deliver targets s)
      × (length (fanout deliver targets s).results + length (fanout deliver targets s).errs
          ≡ length targets)
unfolding fanout
fanout_lem {S} deliver targets s =
    let start : Fanout S = record { results = []; errs = []; metrics = []; state = s } in
    let (r, e, st) = note_partial_lem (fanout_loop deliver targets start) in
    let r' = r ∙ fanout_loop-results deliver targets start in
    let e' = e ∙ fanout_loop-errs deliver targets start in
    (
      r',
      e',
      st ∙ fanout_loop-state deliver targets start,
      rw (r', e')
          (length-outcomes (outcomes deliver targets s)
            ∙ length-outcomes_targets deliver targets s),
    )
