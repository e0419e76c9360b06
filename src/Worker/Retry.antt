-- ===== src/Worker/Retry.antt =====
-- The retry loop of `handleMessage` in internal/cmd/worker.go. Sending and authenticating are calls
-- of the BotX API, parameters that may change a state `S`; `cancelled` says before which attempts
-- the context ends while the worker waits.
pub mod Laws
use express_botx.Common.{
  Bool, [], if◌then◌else◌, ltb, not, null, suc, zero, ℕ, ◌&&◌, ◌*◌, ◌++◌, ◌+◌, ◌-◌, ◌^◌,
}
use express_botx.Errors.{GoError, Result, fail, is_error, new_error, ok, unauthorized, wrap_error}
use express_botx.Server.Bots.{quoted}
use express_botx.Text.{Str, codes}

abbrev pub max_backoff : ℕ
max_backoff = 60000000000

-- The wait before an attempt, in nanoseconds, computed without the rounding of float64.
unfoldable pub backoff_before : ℕ → ℕ → ℕ
backoff_before retry_backoff attempt =
    let wait = retry_backoff * 5 ^ (attempt - 1) in
    if ltb max_backoff wait then max_backoff else wait

-- How one attempt ends: sent, failed for good, or to be tried again.
pub data Verdict : Type 0 where
  sent : Str → Verdict
  give_up : GoError → Verdict
  try_again : GoError → Verdict

-- How the loop ends: an error value, a sync id, or the end of the context.
pub data Outcome : Type 0 where
  finished : Result Str → Outcome
  context_ended : Outcome

abbrev pub no_error : GoError
no_error = record { message = []; wraps = [] }

-- What is read of a bot's client: its name, and its token and its secret where one is configured.
pub record WorkerBot : Type 0 where
  pub name : Str
  pub bot_token : Str
  pub bot_secret : Str

abbrev pub rejected_error : WorkerBot → GoError
rejected_error bot = new_error (codes "bot token rejected (401) for bot " ++ quoted bot.name)

module _ {S : Type 0} (authenticate : S → Result Str × S) (send : Str → S → Result Str × S)
    (bot : WorkerBot) where
  -- The second send, with the new token.
  unfoldable pub resend_verdict : Result Str → Verdict
  resend_verdict (ok sync) = sent sync
  resend_verdict (fail e) =
      if is_error e unauthorized
      then give_up
          (new_error (codes "persistent 401 after token refresh for bot " ++ quoted bot.name))
      else try_again e

  unfoldable pub refreshed : Str → Result Str × S → Verdict × Str × S
  unfolding resend_verdict
  refreshed token (fail e, s) = (
    give_up
        (wrap_error (codes "token refresh failed for bot " ++ (quoted bot.name ++ codes ": ")) e),
    token,
    s,
  )
  refreshed token (ok new_token, s) =
      let (r, s') = send new_token s in (resend_verdict r, new_token, s')

  -- What follows the first send.
  unfoldable pub after_send : Str → Result Str × S → Verdict × Str × S
  unfolding refreshed
  after_send token (ok sync, s) = (sent sync, token, s)
  after_send token (fail e, s) =
      if not (is_error e unauthorized)
      then (try_again e, token, s)
      else if not (null bot.bot_token)
      then (give_up (rejected_error bot), token, s)
      else refreshed token (authenticate s)

  unfoldable pub with_token : Result Str × S → Verdict × Str × S
  unfolding after_send
  with_token (fail e, s) =
      (try_again (wrap_error (codes "authenticating bot " ++ (bot.name ++ codes ": ")) e), [], s)
  with_token (ok token, s) = after_send token (send token s)

  -- One round of the loop: the client's token, empty if it has none yet, is part of the state.
  unfoldable pub attempt_once : Str → S → Verdict × Str × S
  unfolding with_token
  attempt_once token s =
      if null token then with_token (authenticate s) else after_send token (send token s)

  unfoldable pub attempts : (ℕ → Bool) → ℕ → ℕ → GoError → Str → S → Outcome × Str × S
  attempts cancelled zero attempt last token s = (finished (fail last), token, s)
  attempts cancelled (suc left) attempt last token s =
      if ltb 0 attempt && cancelled attempt
      then (context_ended, token, s)
      else let (verdict, token', s') = attempt_once token s in
        elim verdict [
          | sent sync ↦ (finished (ok sync), token', s')
          | give_up e ↦ (finished (fail e), token', s')
          | try_again e ↦ attempts cancelled left (attempt + 1) e token' s'
        ]

  unfoldable pub send_with_retry : (ℕ → Bool) → ℕ → Str → S → Outcome × Str × S
  send_with_retry cancelled retry_count token s =
      attempts cancelled (retry_count + 1) 0 no_error token s
