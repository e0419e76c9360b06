-- ===== src/Server/Mattermost/Render.antt =====
-- The text and the state of a post. strings.ToLower and the encoding of a value that is neither text
-- nor truth value are parameters. The records leave out what no handler reads: a post's own id, the
-- fallback and the color of an attachment, and whether a field is short.
use express_botx.Common.{
  Bool, List, Option, [], false, if◌then◌else◌, none, null, reverse, some, true, ◌++◌, ◌==◌, ◌||◌,
  ◌∷◌,
}
use express_botx.MultiSend.ChatIds.Laws.{entries}
use express_botx.Server.Alerts.Alertmanager.{label_of}
use express_botx.Text.{Str, codes, join, str_eq, trim_space}

-- A field's value: absent, a text, a truth value, or another value with its JSON text, if it has one.
pub data FieldValue : Type 0 where
  nil_field : FieldValue
  string_field : Str → FieldValue
  bool_field : Bool → FieldValue
  other_field : Option Str → FieldValue

pub record MattermostField : Type 0 where
  pub field_title : Str
  pub field_value : FieldValue

pub record MattermostAttachment : Type 0 where
  pub title : Str
  pub title_link : Str
  pub text : Str
  pub fields : List MattermostField

pub record MattermostPost : Type 0 where
  pub channel_id : Str
  pub message : Str
  pub attachments : List MattermostAttachment

pub record MattermostConfig : Type 0 where
  pub default_chat_id : Str
  pub error_severities : List Str
  pub warning_severities : List Str
  pub icons : List (Str × Str)
  pub fallback_chat_id : Str

-- strings.Trim with a quote.
abbrev trim_quote_left : Str → Str
trim_quote_left [] = []
trim_quote_left (c ∷ s) = let rest = trim_quote_left s in if c == b'"' then rest else c ∷ s

unfoldable pub trim_quotes : Str → Str
trim_quotes s = reverse (trim_quote_left (reverse (trim_quote_left s)))

unfoldable pub mattermost_field_value : FieldValue → Str
unfolding trim_quotes trim_space
mattermost_field_value nil_field = []
mattermost_field_value (string_field s) = trim_space s
mattermost_field_value (bool_field true) = codes "true"
mattermost_field_value (bool_field false) = codes "false"
mattermost_field_value (other_field none) = []
mattermost_field_value (other_field (some encoded)) = trim_quotes encoded

-- The lines that `add` appends: none for an empty text.
abbrev line : Str → List Str
line s = if null s then [] else s ∷ []

abbrev field_line : MattermostField → List Str
field_line f =
    let value = mattermost_field_value f.field_value in
    let name = trim_space f.field_title in
    if null value
    then []
    else if null name
    then value ∷ []
    else (name ++ (codes ": " ++ value)) ∷ []

abbrev field_lines : List MattermostField → List Str
field_lines [] = []
field_lines (f ∷ fields) = field_line f ++ field_lines fields

unfoldable pub attachment_lines : MattermostAttachment → List Str
attachment_lines att =
    line (trim_space att.title)
    ++ (line (trim_space att.text) ++ (field_lines att.fields ++ line (trim_space att.title_link)))

-- `containsFold`
unfoldable pub contains_fold : (Str → Str) → List Str → Str → Bool
unfolding str_eq trim_space
contains_fold to_lower [] want = false
contains_fold to_lower (entry ∷ entries) want =
    str_eq (to_lower (trim_space entry)) want || contains_fold to_lower entries want

-- `mattermostFields`: a later field takes the place of an earlier one.
unfoldable pub mattermost_fields :
    (Str → Str) → List (Str × Str) → List MattermostField → List (Str × Str)
unfolding trim_space
mattermost_fields to_lower out [] = out
mattermost_fields to_lower out (f ∷ fields) =
    let name = to_lower (trim_space f.field_title) in
    mattermost_fields to_lower
      (if null name
        then out
        else (name, to_lower (trim_space (mattermost_field_value f.field_value))) ∷ out)
      fields

module _ (to_lower : Str → Str) (mm : MattermostConfig) where
  -- `state`
  unfoldable pub attachment_state : MattermostAttachment → Str
  unfolding mattermost_fields contains_fold str_eq
  attachment_state att =
      let fields = mattermost_fields to_lower [] att.fields in
      let status = label_of fields (codes "status") in
      let severity = label_of fields (codes "severity") in
      if str_eq status (codes "resolved")
      then codes "resolved"
      else if str_eq status (codes "acknowledged")
      then codes "acknowledged"
      else if null severity || str_eq severity (codes "-")
      then codes "default"
      else if contains_fold to_lower mm.error_severities severity
      then codes "error"
      else if contains_fold to_lower mm.warning_severities severity
      then codes "warning"
      else codes "default"

  unfoldable pub post_state : MattermostPost → Str
  post_state post = elim post.attachments [
    | [] ↦ codes "default"
    | att ∷ rest ↦ attachment_state att
  ]

  unfoldable pub resolve_mattermost_status : MattermostPost → Str
  unfolding str_eq
  resolve_mattermost_status post =
      if str_eq (post_state post) (codes "error") then codes "error" else codes "ok"

  abbrev icon_of : MattermostAttachment → Str
  icon_of att = if null mm.icons then [] else label_of mm.icons (attachment_state att)

  abbrev with_icon : Str → List Str → List Str
  with_icon icon [] = []
  with_icon icon (l ∷ ls) = (if null icon then l else icon ++ (codes " " ++ l)) ∷ ls

  abbrev attachment_blocks : List MattermostAttachment → List Str
  attachment_blocks [] = []
  attachment_blocks (att ∷ rest) =
      (if null (attachment_lines att)
        then []
        else join (codes "\n") (with_icon (icon_of att) (attachment_lines att)) ∷ [])
      ++ attachment_blocks rest

  unfoldable pub render_mattermost_post : MattermostPost → Str
  unfolding attachment_lines join
  render_mattermost_post post =
      trim_space
        (join (codes "\n\n") (line (trim_space post.message) ++ attachment_blocks post.attachments))
