-- ===== src/MultiSend/Response.antt =====
-- `writeMultiSend`, `failedStatus`, `authorizationFailure` and `writeAccessError`.
pub mod Laws
use express_botx.Common.{
  Bool, List, Option, [], false, if◌then◌else◌, length, none, some, true, ℕ, ◌+◌, ◌==◌, ◌∷◌,
}
use express_botx.Errors.{access_denied, access_unavailable, is_error, not_allowed_text}
use express_botx.MultiSend.Fanout.{SendError, SendResult}
use express_botx.Text.{Str, codes}

-- What a handler answers: a status, whether `Retry-After` is set, and the body.
pub data Body : Type 0 where
  error_body : Str → Body
  multi_send : Bool → List SendResult → List SendError → Body
  ignored : Str → Str → Body
  result_body : Str → Body
  post_body : Str → Str → Body

pub record Reply : Type 0 where
  pub status : ℕ
  pub retry_after : Bool
  pub body : Body

abbrev pub write_error : ℕ → Str → Reply
write_error code msg = record { status = code; retry_after = false; body = error_body msg }

unfoldable pub write_access_error : ℕ → Str → Reply
write_access_error code msg =
    if code == 503
    then record { status = code; retry_after = true; body = error_body msg }
    else write_error code msg

-- The loop of `authorizationFailure`; `none` once a chat's access could not be checked.
unfoldable pub count_refused : List SendError → ℕ → Option ℕ
count_refused [] refused = some refused
count_refused (e ∷ es) refused =
    let rest = count_refused es (if is_error e.cause access_denied then refused + 1 else refused) in
    if is_error e.cause access_unavailable then none else rest

abbrev pub unavailable_error : Str
unavailable_error = codes "chat access could not be checked, retry later"

unfoldable pub authorization_failure : List SendError → Option (ℕ × Str)
unfolding count_refused
authorization_failure errs = elim (count_refused errs 0) [
  | none ↦ some (503, unavailable_error)
  | some refused ↦ if refused == length errs then some (403, not_allowed_text) else none
]

abbrev refusal_status : Option (ℕ × Str) → ℕ
refusal_status none = 502
refusal_status (some (code, msg)) = code

unfoldable pub failed_status : List SendError → ℕ
unfolding authorization_failure
failed_status errs = refusal_status (authorization_failure errs)

abbrev nothing_delivered : List SendError → Reply
nothing_delivered errs = record {
  status = 502;
  retry_after = false;
  body = multi_send false [] errs;
}

abbrev refused_reply : Option (ℕ × Str) → List SendError → Reply
refused_reply none errs = nothing_delivered errs
refused_reply (some (code, msg)) errs = write_access_error code msg

unfoldable pub write_multi_send : List SendResult → List SendError → ℕ → Reply
unfolding authorization_failure write_access_error
write_multi_send [] [] success_status = nothing_delivered []
write_multi_send [] (e ∷ errs) success_status =
    refused_reply (authorization_failure (e ∷ errs)) (e ∷ errs)
write_multi_send (r ∷ results) errs success_status = record {
  status = success_status;
  retry_after = false;
  body = multi_send true (r ∷ results) errs;
}
