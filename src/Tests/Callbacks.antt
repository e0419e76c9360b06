-- ===== src/Tests/Callbacks.antt =====
-- A callback of one bot, with a token of its own.
use express_botx.Callbacks.Event.{parse_event_type}
use express_botx.Callbacks.Handler.{
  CallbackPayload, Received, command_endpoint, dispatch, handle_command, received, untouched,
}
use express_botx.Callbacks.Handler.Genuine.{FromBot, command_endpoint-FromBot}
use express_botx.Callbacks.Handler.Laws.{Ran, Refused, handle_command-Ran}
use express_botx.Callbacks.Jwt.{
  JwtClaims, JwtCodec, callback_jwt_middleware, is_early, is_expired, verify_callback_jwt,
  verify_parts,
}
use express_botx.Callbacks.Jwt.Laws.{
  GenuineIn, IsTimely, ParsesInt64, verify_callback_jwt-Genuine_iff,
}
use express_botx.Callbacks.Router.{RouterRule, Selected, hears, route, route-Selected}
use express_botx.Common.{
  List, Option, [], arith, false, if◌then◌else◌, refl, some, true, ℕ, ◌+◌, ◌==◌, ◌↔◌, ◌∷◌, ◌≡◌, ◌⊎◌,
}
use express_botx.Errors.{Result, fail, ok}
use express_botx.Tests.Samples.{denied_error}
use express_botx.Text.{Str, codes, has_prefix, split, str_eq}

-- Every encoding is the text itself; the signature is the secret.
abbrev plain_codec : JwtCodec
plain_codec = record {
  decode = λ part. ok part;
  parse_header = λ bytes. ok (record { alg = bytes });
  parse_claims = λ bytes. ok (record { aud = bytes; exp = some 20; nbf = some 100 });
  hmac = λ secret input. secret;
  equal_fold = λ a b. str_eq a b;
}

abbrev bot_one : Str
bot_one = codes "bot-1"

abbrev one_secret : Str → Result Str
one_secret name = if str_eq name bot_one then ok (codes "key") else fail denied_error

abbrev bot_token : Str
bot_token = codes "HS256.bot-1.key"

abbrev bot_claims : JwtClaims
bot_claims = record { aud = bot_one; exp = some 20; nbf = some 100 }

verify_callback_jwt-Genuine_iff_example :
    (verify_callback_jwt plain_codec one_secret 50 bot_token ≡ ok bot_claims)
    ↔ GenuineIn plain_codec one_secret 50 (IsTimely plain_codec one_secret 50) bot_token bot_claims
unfolding str_eq
verify_callback_jwt-Genuine_iff_example =
    verify_callback_jwt-Genuine_iff plain_codec one_secret 50 bot_token bot_claims refl
      (omega arith) int64_claims
  where
    int64_claims : ParsesInt64 plain_codec one_secret 50
    int64_claims bytes claims h = ground arith

-- Handlers are numbers; each adds itself to the state, and the handler 0 fails.
abbrev add_number : ℕ → Str → Str → ℕ → Result (Unit {0}) × ℕ
add_number n event raw s = if n == 0 then (fail denied_error, s) else (ok tt, s + n)

abbrev chat_rules : List (RouterRule ℕ)
chat_rules =
    record { events = codes "chat_created" ∷ []; handler = 3; async = false }
    ∷ record { events = codes "*" ∷ []; handler = 5; async = true }
    ∷ record { events = codes "message" ∷ []; handler = 7; async = false }
    ∷ []

abbrev created : CallbackPayload
created = record {
  sync_id = codes "s";
  bot_id = bot_one;
  group_chat_id = codes "g";
  command_body = codes "system:chat_created";
}

abbrev created_body : Received CallbackPayload
created_body = received (codes "raw") created

route-Selected_example :
    Selected (codes "chat_created") chat_rules (route chat_rules (codes "chat_created"))
route-Selected_example = route-Selected chat_rules (codes "chat_created")

handle_command-Ran_example :
    Ran add_number
      (route chat_rules (parse_event_type created.command_body))
      (parse_event_type created.command_body)
      (codes "raw")
      (untouched 0)
      (handle_command add_number chat_rules bot_one created_body 0).1
unfolding handle_command str_eq
handle_command-Ran_example =
    handle_command-Ran add_number chat_rules bot_one (codes "raw") created 0 refl

-- The first handler runs, the second is started, the third does not hear the event.
created_runs :
    (handle_command add_number chat_rules bot_one created_body 0).1
    ≡ record { spawned = 5 ∷ []; captured = []; state = 3 }
unfolding handle_command str_eq route hears parse_event_type dispatch
created_runs = refl

abbrev bot_header : Option Str
bot_header = some (codes "Bearer HS256.bot-1.key")

command_endpoint-FromBot_example :
    Refused add_number 0 (
      command_endpoint add_number plain_codec 50
        (some one_secret)
        true
        bot_header
        chat_rules
        created_body
        0)
    ⊎ FromBot plain_codec 50 (some one_secret) bot_header created_body
command_endpoint-FromBot_example =
    command_endpoint-FromBot add_number plain_codec 50 (some one_secret) bot_header chat_rules
      created_body 0

-- The same request passes the verification and is accepted.
created_accepted :
    (command_endpoint add_number plain_codec 50
      (some one_secret)
      true
      bot_header
      chat_rules
      created_body
      0).0.status
    ≡ 202
unfolding command_endpoint handle_command callback_jwt_middleware verify_callback_jwt verify_parts
    is_early is_expired has_prefix str_eq split
created_accepted = refl
