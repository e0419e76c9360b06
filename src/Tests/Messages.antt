-- ===== src/Tests/Messages.antt =====
-- Chat lists, fan-outs, messages that are cut, and retries.
use express_botx.Botapi.Truncate.{
  closing_brace, cut_place, is_sigil, placeholder_spans, truncate_message,
}
use express_botx.Botapi.Truncate.Laws.{Outside, cut_place-Placeholder, truncate_message_lem}
use express_botx.Botapi.Truncate.Spans.{Sigils}
use express_botx.Common.{
  All, Bool, List, [], arith, false, if◌then◌else◌, leb, length, refl, take, true, ℕ, ◌%◌, ◌*◌,
  ◌++◌, ◌+◌, ◌==◌, ◌↔◌, ◌∷◌, ◌≡◌, ◌≤◌, ◌⊎◌,
}
use express_botx.Errors.{Result, fail, ok}
use express_botx.MultiSend.Fanout.{SendError, SendResult, fanout}
use express_botx.MultiSend.Fanout.Laws.{failures, fanout_lem, last_state, outcomes, successes}
use express_botx.MultiSend.Response.{failed_status, write_multi_send}
use express_botx.MultiSend.Response.Laws.{IsStatus, SomeUnavailable, write_multi_send-IsStatus}
use express_botx.Tests.Samples.{denied_error, ops, rejected_401}
use express_botx.Text.{Str, codes, has_prefix, str_eq}
use express_botx.Worker.Retry.{WorkerBot, send_with_retry}
use express_botx.Worker.Retry.Laws.{send_with_retry-count}

abbrev listed : Str
listed = codes " ops, dev,,ops "

abbrev dev : Str
dev = codes "dev"

-- Every second delivery fails.
abbrev every_second : Str → ℕ → Result SendResult × ℕ
every_second target n =
    if n % 2 == 0
    then (
      ok (record { chat = target; sync_id = codes "id"; request_id = []; queued = false }),
      n + 1,
    )
    else (fail denied_error, n + 1)

fanout_lem_example :
    ((fanout every_second (ops ∷ dev ∷ []) 0).results
      ≡ successes (outcomes every_second (ops ∷ dev ∷ []) 0))
    × ((fanout every_second (ops ∷ dev ∷ []) 0).errs
        ≡ failures (outcomes every_second (ops ∷ dev ∷ []) 0))
    × ((fanout every_second (ops ∷ dev ∷ []) 0).state ≡ last_state every_second (ops ∷ dev ∷ []) 0)
    × (length (fanout every_second (ops ∷ dev ∷ []) 0).results
          + length (fanout every_second (ops ∷ dev ∷ []) 0).errs
        ≡ 2)
fanout_lem_example = fanout_lem every_second (ops ∷ dev ∷ []) 0

abbrev all_denied : List SendError
all_denied = record { chat = ops; error = codes "refused"; cause = denied_error } ∷ []

write_multi_send-IsStatus_example :
    IsStatus all_denied (write_multi_send [] all_denied 200).status
    × ((write_multi_send [] all_denied 200).status ≡ failed_status all_denied)
    × (((write_multi_send [] all_denied 200).retry_after ≡ true) ↔ SomeUnavailable all_denied)
write_multi_send-IsStatus_example = write_multi_send-IsStatus all_denied 200 (λ e. cc)

abbrev long_message : Str
long_message = codes "hello @{mention:42} and more"

abbrev dots : Str
dots = codes "..."

truncate_message_lem_example :
    (n : ℕ) × (tail : Str) × ((truncate_message long_message dots 15).0
      ≡ take n long_message ++ tail)
    × (tail ≡ (if leb 15 (length dots) then [] else dots))
    × All (Outside n) (placeholder_spans long_message)
unfolding truncate_message
truncate_message_lem_example = truncate_message_lem long_message dots 15 refl

abbrev room : ℕ
room = 15

at_sign_before : Sigils long_message 6 7
unfolding is_sigil
at_sign_before = (omega arith, λ k a b. (b'@', (let e : k ≡ 6 = omega arith in rw e refl), refl))

cut_place-Placeholder_example :
    (cut_place long_message 12 15 ≤ 6) ⊎ (19 ≤ cut_place long_message 12 15)
unfolding closing_brace has_prefix
cut_place-Placeholder_example =
    cut_place-Placeholder long_message 12 15 7 11 6 (refl, refl) at_sign_before

-- Sending fails with 401 while the token is old; the state counts the sends.
abbrev new_token : ℕ → Result Str × ℕ
new_token n = (ok (codes "new"), n)

abbrev send_new : Str → ℕ → Result Str × ℕ
send_new token n =
    if str_eq token (codes "new") then (ok (codes "sync"), n + 1) else (fail rejected_401, n + 1)

abbrev no_fixed_token : WorkerBot
no_fixed_token = record { name = codes "alerts"; bot_token = []; bot_secret = codes "s" }

abbrev fixed_token : WorkerBot
fixed_token = record { name = codes "alerts"; bot_token = codes "old"; bot_secret = [] }

abbrev never : ℕ → Bool
never attempt = false

abbrev sends : ℕ → ℕ
sends n = n

send_with_retry-count_example :
    sends (send_with_retry new_token send_new no_fixed_token never 2 (codes "old") 0).2
    ≤ sends 0 + 2 * (2 + 1)
send_with_retry-count_example =
    send_with_retry-count new_token send_new no_fixed_token sends never 2 (codes "old") 0
      (λ n. omega arith) (λ t n. ground arith)
