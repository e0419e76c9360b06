-- ===== src/Server/PlainSend/Handler/Denial.antt =====
-- The answer of the asynchronous mode when every chat was refused.
use express_botx.Common.{
  ==_iff, All, Bool, Bool-cases, List, List-cases, [], ap, arith, if◌then◌else◌, inl, inr, length,
  null-false, refl, sym, true, ℕ, ◌+◌, ◌==◌, ◌∙◌, ◌∷◌, ◌≡◌, ◌≢◌, ◌≤◌, ◌⊎◌,
}
use express_botx.Errors.{ChatResult, GoError, Result, fail, ok}
use express_botx.MultiSend.Fanout.{SendError, SendResult, fanout}
use express_botx.MultiSend.Fanout.Laws.{failures, fanout_lem, last_state, outcomes}
use express_botx.MultiSend.Response.{write_multi_send}
use express_botx.Server.Access.{forbidden, sanitize_errors}
use express_botx.Server.Config.{Config, Context}
use express_botx.Server.PlainSend.Handler.{async_reply, deliver_async, is_denial, queued_to}
use express_botx.Server.Send.{SendPayload}
use express_botx.Text.{Str}

module _ {S : Type 0} (chats : Str → Result ChatResult) (cfg : Config) (ctx : Context)
    (send : SendPayload → S → Result Str × S) (p : SendPayload) where
  abbrev denies : GoError → Bool
  denies = is_denial chats cfg ctx send

  abbrev enqueue : Str → S × ℕ → Result SendResult × (S × ℕ)
  enqueue = deliver_async chats cfg ctx send p

  unfoldable count_denied : List SendError → ℕ
  count_denied [] = 0
  count_denied (e ∷ es) = (if denies e.cause then 1 else 0) + count_denied es

  -- Every failure is a refusal.
  abbrev pub AllForbidden : List SendError → Type 0
  AllForbidden errs = All (λ e. denies e.cause ≡ true) errs

  count_denied-le : (errs : List SendError) → count_denied errs ≤ length errs
  unfolding count_denied
  count_denied-le [] = omega arith
  count_denied-le (e ∷ es) =
      let rest = count_denied-le es in
      elim (Bool-cases (denies e.cause)) [ inl y ↦ rw y (omega arith) | inr n ↦ rw n (omega arith) ]

  count_denied-AllForbidden :
      (errs : List SendError) → count_denied errs ≡ length errs → AllForbidden errs
  unfolding count_denied
  count_denied-AllForbidden [] h = tt
  count_denied-AllForbidden (e ∷ es) h =
      let le = count_denied-le es in
      elim (Bool-cases (denies e.cause)) [
        | inl y ↦ let k = rw y at h in (y, count_denied-AllForbidden es (omega arith))
        | inr n ↦ let k = rw n at h in absurd (omega arith)
      ]

  AllForbidden-count_denied :
      (errs : List SendError) → AllForbidden errs → count_denied errs ≡ length errs
  unfolding count_denied
  AllForbidden-count_denied [] h = refl
  AllForbidden-count_denied (e ∷ es) (y, h) =
      let rest = AllForbidden-count_denied es h in rw y (omega arith)

  abbrev CountsOn : List Str → Result SendResult × (S × ℕ) → ℕ → Str → Type 0
  CountsOn targets q n t =
      (last_state enqueue targets q.1).1
      ≡ n + count_denied (failures ((t, q.0) ∷ outcomes enqueue targets q.1))

  queued_to-count :
      (targets : List Str) (t : Str) (n : ℕ) (q : Result Str × S)
      → ((s : S) (m : ℕ)
          → (last_state enqueue targets (s, m)).1
            ≡ m + count_denied (failures (outcomes enqueue targets (s, m))))
      → CountsOn targets (queued_to chats cfg ctx send t n q) n t
  unfolding count_denied
  queued_to-count targets t n (ok request, s) ih = ih s n
  queued_to-count targets t n (fail e, s) ih = elim (Bool-cases (denies e)) [
    | inl y ↦ let rest = ih s (n + 1) in rw y (omega arith)
    | inr k ↦ let rest = ih s n in rw k (omega arith)
  ]

  last_state-count :
      (targets : List Str) (s : S) (n : ℕ)
      → (last_state enqueue targets (s, n)).1
        ≡ n + count_denied (failures (outcomes enqueue targets (s, n)))
  unfolding last_state outcomes count_denied deliver_async
  last_state-count [] s n = omega arith
  last_state-count (t ∷ targets) s n =
      queued_to-count targets t n (send (record p { chat_id = t }) s) (last_state-count targets)

  -- If every chat was refused, by a scope that the worker applied or because a scoped key named a
  -- chat that does not resolve, the answer is 403 and nothing more; in every other case it is that of
  -- the deliveries, without the reasons of the failures where the key has a scope.
  pub async_reply-forbidden :
      (targets : List Str) (s : S)
      → (let f = fanout (deliver_async chats cfg ctx send p) targets (s, 0) in
          let reply = (async_reply chats cfg ctx send targets f).0 in
          ((f.results ≡ []) × AllForbidden f.errs × (reply ≡ forbidden))
          ⊎ (((f.results ≢ []) ⊎ ¬ AllForbidden f.errs)
              × (reply ≡ write_multi_send f.results (sanitize_errors ctx f.errs) 202)))
  async_reply-forbidden targets s =
      let f = fanout enqueue targets (s, 0) in
      let (r, e, st, len) = fanout_lem enqueue targets (s, 0) in
      let count : f.state.1 ≡ count_denied f.errs =
        let a = ap (λ z. z.1) st in
        let b = last_state-count targets s 0 in let c = ap count_denied e in omega arith in
      elim (List-cases f.results) [
        | inr n ↦ let z = null-false f.results n in inr (inl n, unfold async_reply in rw z refl)
        | inl n ↦
            let all : length f.errs ≡ length targets = let k = ap length n in omega arith in
            elim (Bool-cases (f.state.1 == length targets)) [
              | inl y ↦ inl (
                n,
                count_denied-AllForbidden f.errs
                    (sym count ∙ (==_iff f.state.1 (length targets)).0 y ∙ sym all),
                unfold async_reply in rw (n, y) refl,
              )
              | inr y ↦ inr (
                inr (λ h.
                    let same = AllForbidden-count_denied f.errs h in
                    let k = (==_iff f.state.1 (length targets)).1 (omega arith) in cc),
                unfold async_reply in rw (n, y) refl,
              )
            ]
      ]
