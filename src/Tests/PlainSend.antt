-- ===== src/Tests/PlainSend.antt =====
-- A message for two chats, sent at once and queued.
use express_botx.Common.{[], false, if◌then◌else◌, none, ℕ, ◌++◌, ◌+◌, ◌∷◌, ◌≡◌, ◌≢◌, ◌⊎◌}
use express_botx.Errors.{Result, fail, ok}
use express_botx.MultiSend.Fanout.{fanout}
use express_botx.MultiSend.Response.{write_multi_send}
use express_botx.Server.Access.{forbidden, sanitize_errors}
use express_botx.Server.Config.{Context, background}
use express_botx.Server.PlainSend.Form.{FormCodec}
use express_botx.Server.PlainSend.Handler.{MentionService, async_reply, deliver_async}
use express_botx.Server.PlainSend.Handler.Denial.{AllForbidden, async_reply-forbidden}
use express_botx.Server.PlainSend.Prepare.{PlainRequest}
use express_botx.Server.Send.{SendPayload, text_payload}
use express_botx.Tests.Samples.{denied_error, dev_uuid, directory, list_context, ops, two_bots}
use express_botx.Text.{Str, codes, str_eq}

abbrev two_chats : Str
two_chats = ops ++ b',' ∷ dev_uuid

abbrev hello : SendPayload
hello = record (text_payload [] two_chats [] []) { text = codes "hello" }

abbrev no_json : FormCodec
no_json = record { read_opts = λ text. fail denied_error; is_json = λ text. false }

abbrev post : PlainRequest
post = record {
  media_type = codes "application/json";
  json_body = ok hello;
  form = fail denied_error;
  query_chat = none;
  query_no_parse = codes "true";
}

-- Messages are counted, and the chat of the UUID refuses them.
abbrev count_message : SendPayload → ℕ → Result Str × ℕ
count_message p n =
    if str_eq p.chat_id dev_uuid then (fail denied_error, n) else (ok (codes "sync"), n + 1)

abbrev no_mentions : MentionService ℕ
no_mentions = record {
  new_mention_id = λ n. ([], n);
  mentions_resolver = none;
  bot_mentions_resolvers = [];
  query_unescape = λ s. ok s;
  merge_codec = record { raw_array = λ raw. []; entry_json = λ e. []; array_json = λ items. [] };
}

abbrev unscoped : Context
unscoped = background

async_reply-forbidden_example :
    (let f =
        fanout
          (deliver_async directory two_bots list_context count_message hello)
          (dev_uuid ∷ [])
          (0, 0) in
      let reply = (async_reply directory two_bots list_context count_message (dev_uuid ∷ []) f).0 in
      ((f.results ≡ [])
        × AllForbidden directory two_bots list_context count_message hello f.errs
        × (reply ≡ forbidden))
      ⊎ (((f.results ≢ [])
            ⊎ ¬ AllForbidden directory two_bots list_context count_message hello f.errs)
          × (reply ≡ write_multi_send f.results (sanitize_errors list_context f.errs) 202)))
async_reply-forbidden_example =
    async_reply-forbidden directory two_bots list_context count_message hello (dev_uuid ∷ []) 0
