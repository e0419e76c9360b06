-- ===== src/Server/Gate.antt =====
-- `checkMembership` and `membershipGate` of internal/server/membership.go, and the send function that
-- `New` wraps (internal/server/server.go): a key scoped by membership is checked again for each send.
pub mod Laws
use express_botx.Common.{Bool, Option, false, if◌then◌else◌, none, some, true, ◌++◌}
use express_botx.Errors.{Result, err_membership_unavailable, err_not_member, fail, ok}
use express_botx.Server.Config.{Context}
use express_botx.Server.Membership.{check}
use express_botx.Server.Send.{SendPayload}
use express_botx.Text.{Str, codes}

module _ {S : Type 0} where
  -- `check` of the membership checker: an answer, or a failure of the lookup.
  classified : Result Bool × S → Result (Unit {0}) × S
  classified (fail e, s) = (
    fail (record err_membership_unavailable {
      message = err_membership_unavailable.message ++ (codes ": " ++ e.message);
    }),
    s,
  )
  classified (ok true, s) = (ok tt, s)
  classified (ok false, s) = (fail err_not_member, s)

  unfoldable pub check_membership :
      Option (Str → Str → S → Result Bool × S) → Str → Str → S → Result (Unit {0}) × S
  unfolding classified
  check_membership none bot chat_id s = (fail err_membership_unavailable, s)
  check_membership (some check) bot chat_id s = classified (check bot chat_id s)

  abbrev gated :
      (SendPayload → S → Result Str × S) → SendPayload → Result (Unit {0}) × S → Result Str × S
  gated send_fn p (fail e, s) = (fail e, s)
  gated send_fn p (ok _, s) = send_fn p s

  unfoldable pub gated_send :
      Context
      → Option (Str → Str → S → Result Bool × S)
      → (SendPayload → S → Result Str × S)
      → SendPayload
      → S
      → Result Str × S
  gated_send ctx membership send_fn p s =
      if ctx.member_scope
      then gated send_fn p (check_membership membership p.bot p.chat_id s)
      else send_fn p s
