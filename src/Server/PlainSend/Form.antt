-- ===== src/Server/PlainSend/Form.antt =====
-- `parseJSON` and `parseMultipart`. Decoding JSON and reading a form are parameters.
use express_botx.Common.{Bool, Option, [], false, if◌then◌else◌, none, not, null, some, ◌==◌, ◌∷◌}
use express_botx.Errors.{Result, fail, new_error, ok, wrap_error}
use express_botx.Server.Send.{OptsPayload, SendPayload}
use express_botx.Text.{Str, codes, trim_space}

-- What net/http makes of a multipart body. `form_value` looks at the query too, `post_form_value`
-- only at the body; both are empty for a name that is not there. The file is there or not, with its
-- name and what reading it gives, already in base64.
pub record Form : Type 0 where
  pub form_value : Str → Str
  pub post_form_value : Str → Str
  pub form_file : Option (Str × Result Str)

-- encoding/json: the options of a text, and whether a text is JSON.
pub record FormCodec : Type 0 where
  pub read_opts : Str → Result OptsPayload
  pub is_json : Str → Bool

abbrev fields_of : Form → SendPayload
fields_of form = record {
  bot = form.form_value (codes "bot");
  chat_id = form.post_form_value (codes "chat_id");
  message = form.form_value (codes "message");
  text = form.form_value (codes "text");
  file = none;
  status = form.form_value (codes "status");
  opts = none;
  metadata = [];
  mentions = [];
  routing_mode = form.form_value (codes "routing_mode");
  bot_id = form.form_value (codes "bot_id");
  no_parse = false;
}

-- A text that begins with a bracket.
abbrev pub is_array : Str → Bool
is_array [] = false
is_array (c ∷ s) = c == b'['

-- `readFilePart`
abbrev read_file_part : SendPayload → Option (Str × Result Str) → Result SendPayload
read_file_part p none = ok p
read_file_part p (some (name, fail e)) = fail (wrap_error (codes "reading uploaded file: ") e)
read_file_part p (some (name, ok content)) =
    ok (record p { file = some (record { name = name; data_base64 = content }) })

module _ (json : FormCodec) (form : Form) where
  abbrev with_mentions : SendPayload → Result SendPayload
  with_mentions p =
      let raw = form.form_value (codes "mentions") in
      if null raw
      then read_file_part p form.form_file
      else if not (json.is_json raw)
      then fail (new_error (codes "invalid mentions JSON"))
      else if not (is_array (trim_space raw))
      then fail (new_error (codes "mentions must be a JSON array"))
      else read_file_part (record p { mentions = raw }) form.form_file

  abbrev with_metadata : SendPayload → Result SendPayload
  with_metadata p =
      let raw = form.form_value (codes "metadata") in
      if null raw
      then with_mentions p
      else if not (json.is_json raw)
      then fail (new_error (codes "invalid metadata JSON"))
      else with_mentions (record p { metadata = raw })

  unfoldable pub parse_form : Result SendPayload
  parse_form =
      let p = fields_of form in
      if null (form.form_value (codes "opts"))
      then with_metadata p
      else elim (json.read_opts (form.form_value (codes "opts"))) [
        | fail e ↦ fail (wrap_error (codes "invalid opts JSON: ") e)
        | ok opts ↦ with_metadata (record p { opts = some opts })
      ]

unfoldable pub parse_multipart : FormCodec → Result Form → Result SendPayload
unfolding parse_form
parse_multipart json (fail e) = fail (wrap_error (codes "parsing multipart form: ") e)
parse_multipart json (ok form) = parse_form json form

unfoldable pub parse_json : Result SendPayload → Result SendPayload
parse_json (fail e) = fail (wrap_error (codes "invalid JSON: ") e)
parse_json (ok p) = ok p
