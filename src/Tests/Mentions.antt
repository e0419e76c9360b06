-- ===== src/Tests/Mentions.antt =====
-- Inline mentions: a user, everybody, a token that does not end.
use express_botx.Common.{
  All, Option, [], arith, if◌then◌else◌, inr, length, none, null, refl, true, ℕ, ◌*◌, ◌+◌, ◌↔◌, ◌∷◌,
  ◌≡◌, ◌≤◌, ◌⊎◌,
}
use express_botx.Errors.{Result, ok}
use express_botx.Mentions.Parse.{
  MergeCodec, normalize, parse_loop, parse_mentions, parse_step, parse_tokens, resolved_token,
  well_formed,
}
use express_botx.Mentions.Scan.{scan}
use express_botx.Mentions.Scan.Laws.{InOrder, IsToken, LiesIn, scan-InOrder, scan-LiesIn}
use express_botx.Mentions.Token.{ParsedToken, huid, parse_token_body}
use express_botx.Mentions.Token.Laws.{
  Grammar, parse_token_body-Grammar_iff, parse_token_body-print_token, print_token,
}
use express_botx.Text.{Str, codes, has_prefix, str_eq}
use express_botx.Text.Character.{has_char}

-- Nothing is escaped.
abbrev plain_unescape : Str → Result Str
plain_unescape s = ok s

abbrev greeting : Str
greeting = codes "hi @mention[huid:u1;Ann] @mention[bot] @mention[al"

scan-InOrder_example :
    All (IsToken greeting) (scan 2 greeting) × InOrder greeting 0 (scan 2 greeting)
scan-InOrder_example = scan-InOrder 2 greeting

scan-LiesIn_example : LiesIn 3 (scan 2 greeting) ⊎ (2 * 2 ≤ length (scan 2 greeting))
unfolding has_prefix
scan-LiesIn_example = scan-LiesIn 2 greeting 3 refl

abbrev ann : ParsedToken
ann = record { resolver = huid; value = codes "u1"; display_name = codes "Ann" }

parse_token_body-Grammar_iff_example :
    (parse_token_body plain_unescape (codes "huid:u1;Ann") ≡ ok ann)
    ↔ Grammar plain_unescape (codes "huid:u1;Ann") ann
parse_token_body-Grammar_iff_example =
    parse_token_body-Grammar_iff plain_unescape (codes "huid:u1;Ann") ann

parse_token_body-print_token_example :
    parse_token_body plain_unescape (print_token (λ s. s) ann) ≡ ok ann
unfolding has_char
parse_token_body-print_token_example =
    parse_token_body-print_token (λ s. s) plain_unescape ann (inr refl) (λ h. ground arith) refl
      refl refl

-- Ids are counted.
abbrev next_id : ℕ → Str × ℕ
next_id n = (n ∷ [], n + 1)

abbrev no_users : Option (Str → ℕ → Result (Str × Str) × ℕ)
no_users = none

abbrev plain_merge : MergeCodec
plain_merge = record {
  raw_array = λ raw. raw ∷ [];
  entry_json = λ e. e.mention_id;
  array_json = λ items. if null items then [] else codes "[..]";
}

everybody_is_mentioned :
    (parse_mentions next_id no_users plain_unescape 1
      (codes "@mention[all]")
      plain_merge
      []
      true
      48).0.message
    ≡ codes "@{mention:0}"
unfolding parse_mentions scan express_botx.Mentions.Parse.parse_tokens
    express_botx.Mentions.Parse.parse_loop express_botx.Mentions.Parse.parse_step parse_token_body
    express_botx.Text.str_eq express_botx.Mentions.Parse.well_formed
    express_botx.Mentions.Parse.resolved_token express_botx.Mentions.Parse.normalize
everybody_is_mentioned = refl
