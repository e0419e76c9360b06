-- ===== src/MultiSend/Fanout.antt =====
-- `fanout`. What delivery changes is a state `S` of the caller's; the log lines are left out, the
-- counters of internal/metrics are kept as the list of events recorded.
pub mod Laws
use express_botx.Common.{Bool, List, [], if◌then◌else◌, not, null, ◌&&◌, ◌++◌, ◌∷◌}
use express_botx.Errors.{GoError, Result, fail, ok}
use express_botx.Text.{Str}

-- Exactly one of a sync id and a queue request id is given; `queued` says which.
pub record SendResult : Type 0 where
  pub chat : Str
  pub sync_id : Str
  pub request_id : Str
  pub queued : Bool

-- `SendError`: the text shown to the client, and the error itself, which is never serialized.
pub record SendError : Type 0 where
  pub chat : Str
  pub error : Str
  pub cause : GoError

pub data Metric : Type 0 where
  failed : Metric
  delivered : Metric
  queued_one : Metric
  partial_delivery : Metric

pub record Fanout (S : Type 0) : Type 0 where
  pub results : List SendResult
  pub errs : List SendError
  pub metrics : List Metric
  pub state : S

-- What one delivery adds to the results, to the errors and to the counters.
abbrev pub sent_part : Result SendResult → List SendResult
sent_part (ok res) = res ∷ []
sent_part (fail e) = []

abbrev pub failed_part : Str → Result SendResult → List SendError
failed_part target (ok res) = []
failed_part target (fail e) = record { chat = target; error = e.message; cause = e } ∷ []

abbrev pub metric_of : Result SendResult → Metric
metric_of (ok res) = if res.queued then queued_one else delivered
metric_of (fail e) = failed

abbrev pub note : {S : Type 0} → Str → Result SendResult → Fanout S → S → Fanout S
note target outcome acc s' = record {
  results = acc.results ++ sent_part outcome;
  errs = acc.errs ++ failed_part target outcome;
  metrics = acc.metrics ++ metric_of outcome ∷ [];
  state = s';
}

abbrev pub note_partial : {S : Type 0} → Fanout S → Fanout S
note_partial acc =
    if not (null acc.results) && not (null acc.errs)
    then record acc { metrics = acc.metrics ++ partial_delivery ∷ [] }
    else acc

module _ {S : Type 0} (deliver : Str → S → Result SendResult × S) where
  unfoldable pub fanout_loop : List Str → Fanout S → Fanout S
  fanout_loop [] acc = acc
  fanout_loop (target ∷ targets) acc =
      let (outcome, s') = deliver target acc.state in
      fanout_loop targets (note target outcome acc s')

  unfoldable pub fanout : List Str → S → Fanout S
  unfolding fanout_loop
  fanout targets s =
      note_partial
        (fanout_loop targets (record { results = []; errs = []; metrics = []; state = s }))
