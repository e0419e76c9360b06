-- ===== src/Tests/Requests.antt =====
-- A message with two mentions that is cut before the second.
use express_botx.Botapi.Requests.{
  MentionCodec, SendNotification, SendParams, build_send_request, filter_orphan_mentions,
}
use express_botx.Botapi.Requests.Laws.{
  KeptMentions, build_send_request-IsCapped, filter_orphan_mentions-KeptMentions,
}
use express_botx.Common.{[], arith, false, length, none, refl, some, true, ℕ, ◌↔◌, ◌∷◌, ◌≡◌, ◌≤◌}
use express_botx.Errors.{ok}
use express_botx.Text.{Str, codes, has_prefix}

abbrev first_mention : Str
first_mention = codes "1"

abbrev second_mention : Str
second_mention = codes "2"

-- An array of entries is two entries, each entry its id.
abbrev two_mentions : MentionCodec
two_mentions = record {
  entries = λ text. ok (first_mention ∷ second_mention ∷ []);
  mention_id = λ entry. ok entry;
  marshal = λ list. elim list [ [] ↦ ok (codes "[]") | x ∷ xs ↦ ok x ];
}

abbrev mentioning : Str
mentioning = codes "@{mention:1} and also @{mention:2}"

abbrev shortened : Str
shortened = codes "@{mention:1} and"

filter_orphan_mentions-KeptMentions_example :
    KeptMentions two_mentions mentioning shortened (codes "[1,2]") first_mention
unfolding filter_orphan_mentions has_prefix
filter_orphan_mentions-KeptMentions_example =
    filter_orphan_mentions-KeptMentions two_mentions (codes "[1,2]") mentioning shortened
      first_mention refl

abbrev params : SendParams ℕ
params = record {
  chat_id = codes "c";
  message = mentioning;
  status = codes "ok";
  file = none;
  metadata = [];
  mentions = codes "[1,2]";
  silent = false;
  stealth = false;
  force_dnd = false;
  no_notify = true;
  max_message_length = 20;
  truncate_suffix = codes "..";
}

build_send_request-IsCapped_example :
    ((n : SendNotification)
      → (build_send_request two_mentions params).notification ≡ some n
      → length n.body ≤ 20)
    × (((build_send_request two_mentions params).notification ≡ none)
        ↔ ((params.message ≡ []) × (params.metadata ≡ []) × (params.mentions ≡ [])))
build_send_request-IsCapped_example = build_send_request-IsCapped two_mentions params (omega arith)
