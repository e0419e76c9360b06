-- ===== src/Tests/Access.antt =====
-- Requests that a key's scope, the authentication and the membership cache decide.
use express_botx.Common.{
  All, Bool, Option, [], arith, false, none, refl, some, true, ℕ, ◌+◌, ◌<◌, ◌↔◌, ◌∷◌, ◌≡◌,
}
use express_botx.Errors.{Result, ok}
use express_botx.MultiSend.Response.{Reply, write_error}
use express_botx.Server.Access.{
  authorize_list, authorize_membership, authorize_targets, chat_allowed, forbidden, is_uuid,
  membership_loop, membership_refusal, target_refusal,
}
use express_botx.Server.Access.Laws.{
  InScope, IsMembers, authorize_targets-InScope, authorize_targets-IsMembers,
  authorize_targets-forbidden,
}
use express_botx.Server.Bots.{resolve_request_bot}
use express_botx.Server.Config.{get_key}
use express_botx.Server.Gate.{gated_send}
use express_botx.Server.Gate.Laws.{Checked, fanout_send-Checked}
use express_botx.Server.Membership.{
  Answer, Checker, Options, Run, answered, check, checked, delete_call, delete_entry, finish_lookup,
  initial, look_up,
}
use express_botx.Server.Membership.Bounds.{IsBounded, Run-IsBounded}
use express_botx.Server.Membership.Fresh.{check-cached, latest, lifetime}
use express_botx.Server.Middleware.{Headers}
use express_botx.Server.Send.{SendPayload, fanout_send}
use express_botx.Tests.Samples.{
  dev_uuid, directory, list_context, lower, member_context, ops, ops_uuid, two_bots,
}
use express_botx.Text.{Str, codes, elem, str_eq}

abbrev no_check : Option (Str → Str → ℕ → Result (Unit {0}) × ℕ)
no_check = none

-- Every bot is a member of every chat; the state counts the questions.
abbrev always_member : Str → Str → ℕ → Result (Unit {0}) × ℕ
always_member bot chat n = (ok tt, n + 1)

authorize_targets-InScope_example :
    ((authorize_targets lower directory list_context two_bots no_check []
        (ops ∷ dev_uuid ∷ [])
        true
        0).0
      ≡ none)
    ↔ All (InScope lower directory list_context true) (ops ∷ dev_uuid ∷ [])
authorize_targets-InScope_example =
    authorize_targets-InScope lower directory list_context two_bots no_check []
      (ops ∷ dev_uuid ∷ []) true 0 (λ e. cc) refl

authorize_targets-forbidden_example : forbidden ≡ forbidden
unfolding authorize_targets authorize_list target_refusal chat_allowed is_uuid str_eq elem
authorize_targets-forbidden_example =
    authorize_targets-forbidden lower directory list_context two_bots no_check [] (dev_uuid ∷ [])
      false 0 forbidden (λ e. cc) refl refl

authorize_targets-IsMembers_example :
    (true ≡ true)
    × ((check : Str → Str → ℕ → Result (Unit {0}) × ℕ) × (some always_member ≡ some check)
        × All (IsMembers lower directory member_context two_bots [] check) (ops ∷ []))
unfolding authorize_targets authorize_membership membership_loop membership_refusal is_uuid
    resolve_request_bot str_eq elem
authorize_targets-IsMembers_example =
    authorize_targets-IsMembers lower directory member_context two_bots (some always_member) []
      (ops ∷ []) true 0 refl refl

abbrev by_header : Headers
by_header = record {
  authorization = some (codes "Bearer secret");
  api_key = none;
  bot_signature = [];
}

abbrev no_headers : Headers
no_headers = record { authorization = none; api_key = none; bot_signature = [] }

abbrev unauthorized_reply : Reply
unauthorized_reply = write_error 401 (codes "unauthorized")

abbrev lifetimes : Options
lifetimes = record { ttl = 300; negative_ttl = 30 }

abbrev chat_key : Str
chat_key = codes "alerts/ops"

abbrev first_answer : Answer
first_answer = record { key = chat_key; member = true; time = 20 }

abbrev looking_up : Checker
looking_up = record { cache = []; inflight = chat_key ∷ [] }

abbrev answered_once : Checker
answered_once = record {
  cache = (chat_key, record { member = true; expires = 320 }) ∷ [];
  inflight = [];
}

lookup_under_way : Run lifetimes [] 10 looking_up
unfolding check look_up get_key elem
lookup_under_way = checked 10 chat_key (omega arith) (initial 5)

lookup_answered : Run lifetimes (first_answer ∷ []) 20 answered_once
unfolding finish_lookup delete_entry delete_call str_eq elem
lookup_answered = answered 20 chat_key true (omega arith) refl lookup_under_way

check-cached_example :
    (a : Answer) × (latest chat_key (first_answer ∷ []) ≡ some a)
    × (a.member ≡ true)
    × (100 < a.time + lifetime lifetimes true)
unfolding check get_key
check-cached_example = check-cached chat_key 100 true lookup_answered refl

Run-IsBounded_example : IsBounded answered_once
Run-IsBounded_example = Run-IsBounded lookup_answered

-- The bot is a member of the one chat; the state counts checks and sends.
abbrev in_ops : Str → Str → ℕ → Result Bool × ℕ
in_ops name uuid n = (ok (str_eq uuid ops_uuid), n + 1)

abbrev post_one : SendPayload → ℕ → Result Str × ℕ
post_one p n = (ok (codes "sync"), n + 1)

fanout_send-Checked_example :
    All
      (Checked directory two_bots member_context in_ops post_one [] (codes "hi") (codes "ok"))
      (fanout_send directory two_bots member_context
        (gated_send member_context (some in_ops) post_one)
        (ops ∷ dev_uuid ∷ [])
        []
        (codes "hi")
        (codes "ok")
        0).results
fanout_send-Checked_example =
    fanout_send-Checked directory two_bots member_context in_ops post_one [] (codes "hi")
      (codes "ok") (ops ∷ dev_uuid ∷ []) 0 refl
