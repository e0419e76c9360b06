-- ===== src/Botapi/Requests.antt =====
-- `BuildSendRequest` and `capBody` of internal/botapi/client.go, `filterOrphanMentions` of
-- internal/botapi/mentions_filter.go and the delivery policy of internal/config/delivery.go.
pub mod Laws
use express_botx.Botapi.Truncate.{mention_core, truncate_message}
use express_botx.Common.{
  Bool, List, Option, [], false, if◌then◌else◌, length, ltb, negsuc, none, not, null, pos, some, ℕ,
  ℤ, ◌&&◌, ◌++◌, ◌==◌, ◌||◌, ◌∷◌,
}
use express_botx.Errors.{Result, fail, ok, wrap_error}
use express_botx.Server.Config.{get_key}
use express_botx.Text.{Str, codes, contains}

-- encoding/json: the elements of an array, the `mention_id` of an object (empty if it has none),
-- and the array of given elements. Raw JSON is its text, empty if there is none.
pub record MentionCodec : Type 0 where
  pub entries : Str → Result (List Str)
  pub mention_id : Str → Result Str
  pub marshal : List Str → Result Str

-- `F` is the type of an attached file.
pub record SendParams (F : Type 0) : Type 0 where
  pub chat_id : Str
  pub message : Str
  pub status : Str
  pub file : Option F
  pub metadata : Str
  pub mentions : Str
  pub silent : Bool
  pub stealth : Bool
  pub force_dnd : Bool
  pub no_notify : Bool
  pub max_message_length : ℕ
  pub truncate_suffix : Str

-- `silent_response` is the one field of the notification's options.
pub record SendNotification : Type 0 where
  pub status : Str
  pub body : Str
  pub metadata : Str
  pub mentions : Str
  pub silent_response : Bool

pub record DeliveryOpts : Type 0 where
  pub force_dnd : Bool
  pub send : Option Bool

pub record SendOpts : Type 0 where
  pub stealth_mode : Bool
  pub notification_opts : Option DeliveryOpts

pub record SendRequest (F : Type 0) : Type 0 where
  pub group_chat_id : Str
  pub notification : Option SendNotification
  pub file : Option F
  pub opts : Option SendOpts

abbrev pub mention_placeholder : Str → Str
mention_placeholder id = mention_core ++ (id ++ codes "}")

-- The body lost the placeholder of the mention.
unfoldable pub is_orphan : Str → Str → Str → Bool
unfolding contains
is_orphan original body id =
    not (null id)
    && contains original (mention_placeholder id)
    && not (contains body (mention_placeholder id))

module _ (json : MentionCodec) where
  -- The loop over the entries.
  unfoldable pub keep_entries : Str → Str → List Str → Result (List Str)
  keep_entries original body [] = ok []
  keep_entries original body (entry ∷ entries) =
      let rest = keep_entries original body entries in
      elim (json.mention_id entry) [
        | fail e ↦ fail (wrap_error (codes "mention entry is not a JSON object: ") e)
        | ok id ↦ elim rest [
          | fail e ↦ fail e
          | ok kept ↦ if is_orphan original body id then ok kept else ok (entry ∷ kept)
        ]
      ]

  filter_entries : Str → Str → Str → List Str → Result Str
  filter_entries mentions original body entries = elim (keep_entries original body entries) [
    | fail e ↦ fail e
    | ok kept ↦ if length kept == length entries then ok mentions else json.marshal kept
  ]

  unfoldable pub filter_orphan_mentions : Str → Str → Str → Result Str
  unfolding filter_entries keep_entries is_orphan
  filter_orphan_mentions mentions original body =
      if null mentions then ok mentions else elim (json.entries mentions) [
        | fail e ↦ fail (wrap_error (codes "mentions is not a JSON array: ") e)
        | ok entries ↦ filter_entries mentions original body entries
      ]

  abbrev or_original : Str → Result Str → Str
  or_original mentions (fail e) = mentions
  or_original mentions (ok filtered) = filtered

  unfoldable pub cap_body : {F : Type 0} → SendParams F → Str × Str
  cap_body p =
      let (body, truncated) = truncate_message p.message p.truncate_suffix p.max_message_length in
      if not truncated
      then (p.message, p.mentions)
      else (body, or_original p.mentions (filter_orphan_mentions p.mentions p.message body))

  abbrev notification_of : {F : Type 0} → SendParams F → Str → Str → SendNotification
  notification_of p body mentions = record {
    status = p.status;
    body = body;
    metadata = p.metadata;
    mentions = mentions;
    silent_response = p.silent;
  }

  notification_for : {F : Type 0} → SendParams F → Option SendNotification
  notification_for p =
      let (body, mentions) = cap_body p in
      if not (null p.message)
      then some (notification_of p body mentions)
      else if ltb 0 (length p.metadata) || ltb 0 (length p.mentions)
      then some (notification_of p [] p.mentions)
      else none

  delivery_opts : {F : Type 0} → SendParams F → Option DeliveryOpts
  delivery_opts p =
      if p.force_dnd || p.no_notify
      then some
          (record { force_dnd = p.force_dnd; send = if p.no_notify then some false else none })
      else none

  unfoldable pub build_send_request : {F : Type 0} → SendParams F → SendRequest F
  unfolding notification_for delivery_opts
  build_send_request p = record {
    group_chat_id = p.chat_id;
    notification = notification_for p;
    file = p.file;
    opts =
        if p.stealth || p.force_dnd || p.no_notify
        then some (record { stealth_mode = p.stealth; notification_opts = delivery_opts p })
        else none;
  }

pub record BotPolicy : Type 0 where
  pub max_message_length : Option ℤ
  pub truncate_suffix : Option Str

abbrev default_limit : ℕ
default_limit = 4096

abbrev default_suffix : Str
default_suffix = codes "…"

abbrev limit_of : Option ℤ → ℕ
limit_of none = default_limit
limit_of (some (pos n)) = n
limit_of (some (negsuc n)) = 0

abbrev suffix_of : Option Str → Str
suffix_of none = default_suffix
suffix_of (some suffix) = suffix

unfoldable pub bot_delivery_policy : List (Str × BotPolicy) → Str → ℕ × Str
unfolding get_key
bot_delivery_policy bots bot_name = elim (get_key bots bot_name) [
  | none ↦ (default_limit, default_suffix)
  | some b ↦ (limit_of b.max_message_length, suffix_of b.truncate_suffix)
]
