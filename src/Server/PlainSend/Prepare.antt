-- ===== src/Server/PlainSend/Prepare.antt =====
-- The checks that `handleSend` makes before it looks at the mode.
pub mod Laws
use express_botx.Common.{Option, [], if◌then◌else◌, none, not, null, some, ◌&&◌, ◌++◌}
use express_botx.Errors.{Result, fail, ok}
use express_botx.MultiSend.ChatIds.{parse_chat_ids, same_chats}
use express_botx.MultiSend.Response.{Reply, write_error}
use express_botx.Server.Bots.{quoted}
use express_botx.Server.PlainSend.Form.{Form, FormCodec, is_array, parse_json, parse_multipart}
use express_botx.Server.Send.{SendPayload}
use express_botx.Text.{Str, codes, is_some, join, str_eq}

-- `media_type` is what mime.ParseMediaType gives; `query_chat` is the query's `chat_id`, if there.
pub record PlainRequest : Type 0 where
  pub media_type : Str
  pub json_body : Result SendPayload
  pub form : Result Form
  pub query_chat : Option Str
  pub query_no_parse : Str

-- The payload to be sent, or the answer that ends the request.
pub data Prepared : Type 0 where
  turned_down : Reply → Prepared
  to_send : SendPayload → Prepared

abbrev bad_request : Str → Prepared
bad_request msg = turned_down (write_error 400 msg)

abbrev with_status : SendPayload → Prepared
with_status p =
    let status = if null p.status then codes "ok" else p.status in
    if not (str_eq status (codes "ok")) && not (str_eq status (codes "error"))
    then bad_request (codes "invalid status " ++ (quoted status ++ codes ": must be ok or error"))
    else to_send (record p { status = status })

unfoldable pub with_content : SendPayload → Prepared
with_content p =
    if null p.message && not (is_some p.file)
    then bad_request (codes "message or file required")
    else with_status p

module _ (default_chat : Str) where
  unfoldable pub with_default_chat : SendPayload → Prepared
  with_default_chat p =
      if not (null p.chat_id)
      then with_content p
      else if null default_chat
      then bad_request (codes "chat_id is required")
      else with_content (record p { chat_id = default_chat })

  unfoldable pub with_query_chat : Option Str → SendPayload → Prepared
  with_query_chat none p = with_default_chat p
  with_query_chat (some value) p =
      let from_query = parse_chat_ids value in
      if null from_query
      then bad_request
          (codes "chat_id is empty: provide at least one chat, or omit chat_id to use the default")
      else if null p.chat_id
      then with_default_chat (record p { chat_id = join (codes ",") from_query })
      else if not (same_chats (parse_chat_ids p.chat_id) from_query)
      then bad_request (codes "chat_id in the query does not match chat_id in the body")
      else with_default_chat p

  abbrev pub message_of : SendPayload → SendPayload
  message_of p = record p { message = if null p.message then p.text else p.message; text = [] }

  abbrev pub mentions_of : SendPayload → SendPayload
  mentions_of p = record p {
    mentions = if str_eq p.mentions (codes "null") then [] else p.mentions;
  }

  unfoldable pub prepare : Option Str → SendPayload → Prepared
  prepare query p =
      let p' = mentions_of p in
      if not (null p'.mentions) && not (is_array p'.mentions)
      then bad_request (codes "mentions must be a JSON array")
      else with_query_chat query (message_of p')

  abbrev pub parsed_request : Option Str → Result SendPayload → Prepared
  parsed_request query (fail e) = bad_request e.message
  parsed_request query (ok p) = prepare query p

  -- The `switch` over the content type, and the checks.
  unfoldable pub read_request : FormCodec → PlainRequest → Prepared
  read_request json r =
      if str_eq r.media_type (codes "application/json")
      then parsed_request r.query_chat (parse_json r.json_body)
      else if str_eq r.media_type (codes "multipart/form-data")
      then parsed_request r.query_chat (parse_multipart json r.form)
      else turned_down (
          write_error 415
            (codes "unsupported content type: use application/json or multipart/form-data"))
