-- ===== src/Settings/Bots.antt =====
-- The bots of a configuration: `ValidateBotIDs`, `BotEntries` and the choice of a bot.
pub mod Laws
use express_botx.Common.{
  Bool, List, Option, [], false, if◌then◌else◌, map, negsuc, none, not, null, pos, some, ℕ, ℤ, ◌++◌,
  ◌==◌, ◌∷◌,
}
use express_botx.Errors.{GoError, Result, fail, new_error, ok}
use express_botx.Queue.Catalog.{BotEntry}
use express_botx.Server.Bots.{quoted}
use express_botx.Server.Config.{get_key}
use express_botx.Settings.Chats.{sorted_map_keys}
use express_botx.Text.{Str, codes, join, str_eq}

-- What a bot's entry says that delivery depends on. The limit and the suffix are the effective ones,
-- which `BotDeliveryPolicy` gives.
pub record BotRuntime : Type 0 where
  pub host : Str
  pub secret : Str
  pub token : Str
  pub timeout : ℤ
  pub limit : ℕ
  pub suffix : Str

pub record BotConfig : Type 0 where
  pub id : Str
  pub runtime : BotRuntime

abbrev pub same_int : ℤ → ℤ → Bool
same_int (pos a) (pos b) = a == b
same_int (negsuc a) (negsuc b) = a == b
same_int (pos a) (negsuc b) = false
same_int (negsuc a) (pos b) = false

abbrev pub conflict : Str → Str → Str → Str → GoError
conflict name alias id what = new_error (
    codes "bot "
    ++ (quoted name
        ++ (codes " and "
            ++ (quoted alias
                ++ (codes " have same id " ++ (quoted id ++ (codes " but different " ++ what)))))))

-- The first field in which two bots with one id differ; the values that the message adds are left
-- out.
unfoldable pub runtime_conflict : BotRuntime → BotRuntime → Option Str
unfolding str_eq
runtime_conflict bot prev =
    if not (str_eq bot.host prev.host)
    then some (codes "host")
    else if not (str_eq bot.secret prev.secret)
    then some (codes "secret")
    else if not (str_eq bot.token prev.token)
    then some (codes "token")
    else if not (same_int bot.timeout prev.timeout)
    then some (codes "timeout")
    else if not (bot.limit == prev.limit)
    then some (codes "max_message_length")
    else if not (str_eq bot.suffix prev.suffix)
    then some (codes "truncate_suffix")
    else none

-- The loop of `ValidateBotIDs` over the bots in the order of their names; `seen` keeps, for an id,
-- the first alias and what its entry says.
unfoldable pub validate_ids :
    List (Str × (Str × BotRuntime)) → List (Str × BotConfig) → Option GoError
unfolding get_key
validate_ids seen [] = none
validate_ids seen ((name, bot) ∷ bots) =
    if null bot.id then validate_ids seen bots else elim (get_key seen bot.id) [
      | none ↦ validate_ids ((bot.id, (name, bot.runtime)) ∷ seen) bots
      | some prev ↦ elim (runtime_conflict bot.runtime prev.1) [
        | some what ↦ some (conflict name prev.0 bot.id what)
        | none ↦ validate_ids seen bots
      ]
    ]

-- A map read in the order of its sorted names.
unfoldable pub sorted_bots : List (Str × BotConfig) → List Str → List (Str × BotConfig)
unfolding get_key
sorted_bots bots [] = []
sorted_bots bots (name ∷ names) =
    let rest = sorted_bots bots names in
    elim (get_key bots name) [ none ↦ rest | some bot ↦ (name, bot) ∷ rest ]

unfoldable pub validate_bot_ids : List (Str × BotConfig) → Option GoError
unfolding validate_ids
validate_bot_ids bots = validate_ids [] (sorted_bots bots (sorted_map_keys bots))

-- `BotEntries`
unfoldable pub bot_entries : List (Str × BotConfig) → List BotEntry
bot_entries bots =
    map (λ e. record { name = e.0; host = e.1.runtime.host; id = e.1.id })
      (sorted_bots bots (sorted_map_keys bots))

-- `resolveBot`: the bot that a flag names, or the only one; none where nothing is configured.
unfoldable pub resolve_bot_flag : List (Str × BotConfig) → Str → Result (Option (Str × BotConfig))
unfolding get_key sorted_map_keys join
resolve_bot_flag bots [] = by_count bots
  where
    by_count : List (Str × BotConfig) → Result (Option (Str × BotConfig))
    by_count [] = ok none
    by_count (b ∷ []) = ok (some b)
    by_count (a ∷ b ∷ rest) = fail (
        new_error (
          codes "multiple bots configured ("
          ++ (join (codes ", ") (sorted_map_keys bots)
              ++ codes "), specify one with --bot or use --all")))
resolve_bot_flag bots (c ∷ flag) = elim (get_key bots (c ∷ flag)) [
  | some bot ↦ ok (some (c ∷ flag, bot))
  | none ↦ fail (
      new_error (
        codes "unknown bot "
        ++ (quoted (c ∷ flag)
            ++ (codes ", available: " ++ join (codes ", ") (sorted_map_keys bots)))))
]
