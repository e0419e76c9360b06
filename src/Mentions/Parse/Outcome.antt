-- ===== src/Mentions/Parse/Outcome.antt =====
-- The result of `Parse`.
use express_botx.Common.{List, Option, [], length, ℕ, ◌≡◌, ◌≢◌, ◌≤◌, ◌⊎◌}
use express_botx.Errors.{Result}
use express_botx.Mentions.Parse.{MentionEntry, MergeCodec, ParseResult, merge_mentions}
use express_botx.Mentions.Parse.Loop.{Renders}
use express_botx.Mentions.Scan.{scan}
use express_botx.Text.{Str}

module _ {S : Type 0} (new_mention_id : S → Str × S)
    (get_user_by_email : Option (Str → S → Result (Str × Str) × S))
    (query_unescape : Str → Result Str) (max_mentions : ℕ) (msg : Str) where
  abbrev pub Describes : MergeCodec → Str → ParseResult → List MentionEntry → Type 0
  Describes json raw r es =
      Renders new_mention_id get_user_by_email query_unescape max_mentions msg 0 0
        (scan max_mentions msg) r.message es
      × (r.mentions ≡ merge_mentions json raw es)
      × (length es ≤ max_mentions)
      × ((es ≢ []) ⊎ (r.message ≡ msg))
