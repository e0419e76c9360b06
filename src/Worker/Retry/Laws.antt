-- ===== src/Worker/Retry/Laws.antt =====
-- What a delivery costs, and what its outcome means.
use express_botx.Common.{
  Bool, Bool-cases, [], ap, arith, false, inl, inr, ltb, null, refl, suc, true, zero, ℕ, ◌&&◌, ◌*◌,
  ◌+◌, ◌∙◌, ◌∷◌, ◌≡◌, ◌≢◌, ◌≤◌, ◌⊎◌,
}
use express_botx.Errors.{GoError, Result, Result-cases, fail, is_error, ok, unauthorized}
use express_botx.Text.{Str}
use express_botx.Worker.Retry.{
  Verdict, WorkerBot, after_send, attempt_once, attempts, finished, give_up, no_error, refreshed,
  rejected_error, send_with_retry, sent, try_again, with_token,
}

Verdict-cases :
    (v : Verdict)
    → ((x : Str) × (v ≡ sent x))
      ⊎ ((e : GoError) × (v ≡ give_up e))
      ⊎ ((e : GoError) × (v ≡ try_again e))
Verdict-cases (sent x) = inl (x, refl)
Verdict-cases (give_up e) = inr (inl (e, refl))
Verdict-cases (try_again e) = inr (inr (e, refl))

module _ {S : Type 0} (authenticate : S → Result Str × S) (send : Str → S → Result Str × S)
    (bot : WorkerBot) where
  -- Some measure of the state, the number of messages sent for one, that grows by at most one with
  -- a send and not with an authentication.
  module _ (count : S → ℕ) (auth_free : (s : S) → count (authenticate s).1 ≤ count s)
      (send_once : (t : Str) (s : S) → count (send t s).1 ≤ count s + 1) where
    refreshed-count :
        (token : Str) (p : Result Str × S)
        → count (refreshed authenticate send bot token p).2 ≤ count p.1 + 1
    unfolding refreshed
    refreshed-count token (fail e, s) = omega arith
    refreshed-count token (ok t, s) = send_once t s

    after_send-count :
        (token : Str) (p : Result Str × S)
        → count (after_send authenticate send bot token p).2 ≤ count p.1 + 1
    unfolding after_send
    after_send-count token (ok sync, s) = omega arith
    after_send-count token (fail e, s) =
        ground (arith, refreshed-count token (authenticate s), auth_free s)

    with_token-count :
        (p : Result Str × S) → count (with_token authenticate send bot p).2 ≤ count p.1 + 2
    unfolding with_token
    with_token-count (fail e, s) = omega arith
    with_token-count (ok token, s) =
        omega (arith, after_send-count token (send token s), send_once token s)

    attempt_once-count :
        (token : Str) (s : S) → count (attempt_once authenticate send bot token s).2 ≤ count s + 2
    unfolding attempt_once
    attempt_once-count token s = ground (
      arith,
      with_token-count (authenticate s),
      auth_free s,
      after_send-count token (send token s),
      send_once token s,
    )

    attempts-count :
        (cancelled : ℕ → Bool) (left attempt : ℕ) (last : GoError) (token : Str) (s : S)
        → count (attempts authenticate send bot cancelled left attempt last token s).2
          ≤ count s + 2 * left
    unfolding attempts
    attempts-count cancelled zero attempt last token s = omega arith
    attempts-count cancelled (suc left) attempt last token s =
        elim (Bool-cases (ltb 0 attempt && cancelled attempt)) [
          | inl c ↦ rw c (omega arith)
          | inr c ↦
              let p = attempt_once authenticate send bot token s in
              let one = attempt_once-count token s in
              elim (Verdict-cases p.0) [
                | inl (x, e) ↦ rw c (rw (e, attempts) (omega arith))
                | inr (inl (x, e)) ↦ rw c (rw (e, attempts) (omega arith))
                | inr (inr (x, e)) ↦ rw c (
                    rw (e, attempts)
                      (omega (arith, attempts-count cancelled left (attempt + 1) x p.1 p.2)))
              ]
        ]

  -- Some send of the message was answered with this sync id.
  abbrev pub WasSent : Str → Type 0
  WasSent sync = (t : Str) × (before : S) × (after : S) × (send t before ≡ (ok sync, after))

  abbrev Sound : Verdict × Str × S → Type 0
  Sound p = (sync : Str) → p.0 ≡ sent sync → WasSent sync

  refreshed-Sound :
      (token : Str) (p : Result Str × S) → Sound (refreshed authenticate send bot token p)
  unfolding refreshed
  refreshed-Sound token (fail e, s) sync h = cc
  refreshed-Sound token (ok t, s) sync h = elim (Result-cases (send t s).0) [
    | inl (x, e) ↦ (t, s, (send t s).1, ground arith)
    | inr (x, e) ↦ ground arith
  ]

  after_send-origin :
      (token : Str) (p : Result Str × S) (sync : Str)
      → (after_send authenticate send bot token p).0 ≡ sent sync
      → (p.0 ≡ ok sync) ⊎ WasSent sync
  unfolding after_send
  after_send-origin token (ok x, s) sync h = inl (ground arith)
  after_send-origin token (fail e, s) sync h = elim (Bool-cases (is_error e unauthorized)) [
    | inr n ↦ cc (rw n at h)
    | inl y ↦ elim (Bool-cases (null bot.bot_token)) [
      | inr n ↦ cc (rw (y, n) at h)
      | inl m ↦ inr (refreshed-Sound token (authenticate s) sync (rw (y, m) at h))
    ]
  ]

  after_send-Sound :
      (token : Str) (s : S) → Sound (after_send authenticate send bot token (send token s))
  after_send-Sound token s sync h = elim (after_send-origin token (send token s) sync h) [
    | inl e ↦ (token, s, (send token s).1, ground arith)
    | inr w ↦ w
  ]

  with_token-Sound : (p : Result Str × S) → Sound (with_token authenticate send bot p)
  unfolding with_token
  with_token-Sound (fail e, s) sync h = cc
  with_token-Sound (ok token, s) sync h = after_send-Sound token s sync h

  attempt_once-Sound : (token : Str) (s : S) → Sound (attempt_once authenticate send bot token s)
  unfolding attempt_once
  attempt_once-Sound token s sync h = elim (Bool-cases (null token)) [
    | inl y ↦ with_token-Sound (authenticate s) sync (rw y at h)
    | inr n ↦ after_send-Sound token s sync (rw n at h)
  ]

  attempts-WasSent :
      (cancelled : ℕ → Bool) (left attempt : ℕ) (last : GoError) (token : Str) (s : S) (sync : Str)
      → (attempts authenticate send bot cancelled left attempt last token s).0 ≡ finished (ok sync)
      → WasSent sync
  unfolding attempts
  attempts-WasSent cancelled zero attempt last token s sync h = ground arith
  attempts-WasSent cancelled (suc left) attempt last token s sync h =
      elim (Bool-cases (ltb 0 attempt && cancelled attempt)) [
        | inl c ↦ cc (rw c at h)
        | inr c ↦
            let p = attempt_once authenticate send bot token s in
            elim (Verdict-cases p.0) [
              | inl (x, e) ↦ attempt_once-Sound token s sync (e ∙ ap sent (ground arith))
              | inr (inl (x, e)) ↦ ground arith
              | inr (inr (x, e)) ↦
                  attempts-WasSent cancelled left (attempt + 1) x p.1 p.2 sync
                    (rw (c, e, attempts) at h)
            ]
      ]

-- The worker reports a message as sent only with a sync id that some send of it was answered with.
pub send_with_retry-WasSent :
    {S : Type 0} (authenticate : S → Result Str × S) (send : Str → S → Result Str × S)
    (bot : WorkerBot) (cancelled : ℕ → Bool) (retry_count : ℕ) (token : Str) (s : S) (sync : Str)
    → (send_with_retry authenticate send bot cancelled retry_count token s).0 ≡ finished (ok sync)
    → WasSent authenticate send bot sync
unfolding send_with_retry
send_with_retry-WasSent authenticate send bot cancelled retry_count token s sync h =
    attempts-WasSent authenticate send bot cancelled (retry_count + 1) 0 no_error token s sync h

-- However the sends and the authentications turn out, a message is sent at most twice in each of
-- the `retry_count + 1` attempts: `count` is any measure that a send raises by one at most.
pub send_with_retry-count :
    {S : Type 0} (authenticate : S → Result Str × S) (send : Str → S → Result Str × S)
    (bot : WorkerBot) (count : S → ℕ) (cancelled : ℕ → Bool) (retry_count : ℕ) (token : Str) (s : S)
    → ((s' : S) → count (authenticate s').1 ≤ count s')
    → ((t : Str) (s' : S) → count (send t s').1 ≤ count s' + 1)
    → count (send_with_retry authenticate send bot cancelled retry_count token s).2
      ≤ count s + 2 * (retry_count + 1)
unfolding send_with_retry
send_with_retry-count authenticate send bot count cancelled retry_count token s free once =
    attempts-count authenticate send bot count free once cancelled (retry_count + 1) 0 no_error
      token s

attempt_once-rejected :
    {S : Type 0} (authenticate : S → Result Str × S) (send : Str → S → Result Str × S)
    (bot : WorkerBot) (token : Str) (s s' : S) (e : GoError)
    → bot.bot_token ≢ []
    → token ≢ []
    → send token s ≡ (fail e, s')
    → is_error e unauthorized ≡ true
    → attempt_once authenticate send bot token s ≡ (give_up (rejected_error bot), token, s')
unfolding attempt_once after_send
attempt_once-rejected authenticate send bot [] s s' e n m h u = absurd (m refl)
attempt_once-rejected authenticate send bot (c ∷ token) s s' e n m h u =
    let k : null bot.bot_token ≡ false = ground arith in rw (h, after_send, u, k) refl

attempts-give_up :
    {S : Type 0} (authenticate : S → Result Str × S) (send : Str → S → Result Str × S)
    (bot : WorkerBot) (cancelled : ℕ → Bool) (left : ℕ) (e : GoError) (token token' : Str)
    (s s' : S)
    → attempt_once authenticate send bot token s ≡ (give_up e, token', s')
    → attempts authenticate send bot cancelled (suc left) 0 no_error token s
      ≡ (finished (fail e), token', s')
unfolding attempts
attempts-give_up {S} authenticate send bot cancelled left e token token' s s' h =
    let v = ap (λ (p : Verdict × Str × S). p.0) h in
    let t = ap (λ (p : Verdict × Str × S). p.1) h in
    let u = ap (λ (p : Verdict × Str × S). p.2) h in rw (v, attempts, t, u) refl

-- A configured token that is rejected is not tried again: the one send is all that happens.
pub send_with_retry-rejected :
    {S : Type 0} (authenticate : S → Result Str × S) (send : Str → S → Result Str × S)
    (bot : WorkerBot) (cancelled : ℕ → Bool) (retry_count : ℕ) (token : Str) (s s' : S)
    (e : GoError)
    → bot.bot_token ≢ []
    → token ≢ []
    → send token s ≡ (fail e, s')
    → is_error e unauthorized ≡ true
    → send_with_retry authenticate send bot cancelled retry_count token s
      ≡ (finished (fail (rejected_error bot)), token, s')
unfolding send_with_retry
send_with_retry-rejected authenticate send bot cancelled retry_count token s s' e n m h u =
    let one_more : retry_count + 1 ≡ suc retry_count = omega arith in
    rw (send_with_retry, one_more)
      (attempts-give_up authenticate send bot cancelled retry_count _ token token s s'
        (attempt_once-rejected authenticate send bot token s s' e n m h u))
