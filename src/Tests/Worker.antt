-- ===== src/Tests/Worker.antt =====
-- A work message whose client has an old token.
use express_botx.Botapi.Requests.{MentionCodec, SendRequest}
use express_botx.Common.{Bool, List, [], false, if◌then◌else◌, none, refl, true, ℕ, ◌+◌, ◌∷◌, ◌≡◌}
use express_botx.Errors.{Result, fail, ok}
use express_botx.Mentions.Parse.{
  normalize, parse_loop, parse_mentions, parse_step, parse_tokens, resolved_token, well_formed,
}
use express_botx.Mentions.Scan.{scan}
use express_botx.Mentions.Token.{parse_token_body, with_resolver, with_rest, with_value}
use express_botx.Queue.Enqueue.{plain_route, queue_opts}
use express_botx.Queue.Message.{FileAttachment, QueuePayload, WorkMessage}
use express_botx.Tests.Samples.{rejected_401}
use express_botx.Text.{Str, codes, str_eq}
use express_botx.Worker.Handle.{
  Ack, WorkerBotConfig, WorkerState, bot_by_id, client_token, conclude, deliver, handle_message,
  publish_result,
}
use express_botx.Worker.Handle.Laws.{Handled, handle_message-Handled}
use express_botx.Worker.Prepare.{MentionCalls, with_parsed_mentions}
use express_botx.Worker.Retry.{WorkerBot, attempt_once, attempts, send_with_retry}

abbrev empty_payload : QueuePayload
empty_payload = record {
  message = codes "@mention[email:a@b.c]";
  status = codes "ok";
  file = none;
  opts = queue_opts false none;
  metadata = [];
  mentions = [];
}

abbrev wanted : WorkMessage
wanted = record {
  request_id = codes "r1";
  routing = plain_route (codes "b1") (codes "c");
  payload = empty_payload;
  reply_to = codes "replies";
}

abbrev one_bot : List WorkerBotConfig
one_bot =
    record {
      id = codes "b1";
      bot = record { name = codes "alerts"; bot_token = []; bot_secret = codes "s" };
      limit = 100;
      suffix = [];
    }
    ∷ []

abbrev refresh : WorkerBot → ℕ → Result Str × ℕ
refresh bot n = (ok (codes "new"), n)

-- The address of the message is looked up with a new token, which the lookup counts.
abbrev one_user : MentionCalls ℕ
one_user = record {
  new_mention_id = λ n. (codes "7", n);
  refresh_token = λ bot n. (ok (codes "new"), n);
  find_user = λ bot token address n.
      if str_eq token (codes "new")
      then (ok (codes "u1", codes "Ann"), n + 10)
      else (fail rejected_401, n);
  query_unescape = λ s. ok s;
  merge_codec = record {
    raw_array = λ raw. [];
    entry_json = λ e. e.mention_id;
    array_json = λ items. codes "[..]";
  };
}

abbrev no_array : MentionCodec
no_array = record {
  entries = λ text. fail rejected_401;
  mention_id = λ entry. fail rejected_401;
  marshal = λ list. fail rejected_401;
}

abbrev post : SendRequest FileAttachment → WorkerBot → Str → ℕ → Result Str × ℕ
post request bot token n =
    if str_eq token (codes "new") then (ok (codes "sync"), n + 1) else (fail rejected_401, n + 1)

abbrev idle : WorkerState ℕ
idle = record { tokens = (codes "b1", codes "old") ∷ []; published = []; state = 0 }

abbrev never_stopped : ℕ → Bool
never_stopped attempt = false

abbrev run_worker : Bool → Ack × WorkerState ℕ
run_worker dry_run =
    handle_message one_bot dry_run 3 one_user no_array refresh post never_stopped wanted idle

handle_message-Handled_example :
    Handled one_bot false 3 one_user no_array refresh post never_stopped wanted idle
      (run_worker false).0
      (run_worker false).1
handle_message-Handled_example =
    handle_message-Handled one_bot false 3 one_user no_array refresh post never_stopped wanted idle

-- The user is looked up once, with a new token, and the message goes out with another, in two sends.
wanted_sent : (run_worker false).1.state ≡ 12
unfolding handle_message deliver conclude publish_result bot_by_id client_token send_with_retry
    attempts attempt_once str_eq with_parsed_mentions parse_mentions express_botx.Mentions.Scan.scan
    express_botx.Mentions.Parse.parse_tokens express_botx.Mentions.Parse.parse_loop
    express_botx.Mentions.Parse.parse_step express_botx.Mentions.Token.parse_token_body
    express_botx.Mentions.Token.with_resolver express_botx.Mentions.Token.with_rest
    express_botx.Mentions.Token.with_value express_botx.Mentions.Parse.well_formed
    express_botx.Mentions.Parse.resolved_token express_botx.Mentions.Parse.normalize
wanted_sent = refl

-- A dry run looks the user up as well.
wanted_dry : (run_worker true).1.state ≡ 10
unfolding handle_message publish_result bot_by_id client_token str_eq with_parsed_mentions
    parse_mentions express_botx.Mentions.Scan.scan express_botx.Mentions.Parse.parse_tokens
    express_botx.Mentions.Parse.parse_loop express_botx.Mentions.Parse.parse_step
    express_botx.Mentions.Token.parse_token_body express_botx.Mentions.Token.with_resolver
    express_botx.Mentions.Token.with_rest express_botx.Mentions.Token.with_value
    express_botx.Mentions.Parse.well_formed express_botx.Mentions.Parse.resolved_token
    express_botx.Mentions.Parse.normalize
wanted_dry = refl
