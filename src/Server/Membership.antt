-- ===== src/Server/Membership.antt =====
-- The membership cache: internal/server/membership.go. Requests run concurrently, and the lookups
-- of BotX apart from them; the mutex makes each stretch between a Lock and its Unlock one step. A
-- key is the pair (bot, chat) with the chat in lower case; time is in nanoseconds.
pub mod Bounds
pub mod Fresh
use express_botx.Common.{
  Bool, List, Option, [], if◌then◌else◌, leb, length, ltb, none, not, some, true, ℕ, ◌+◌, ◌∷◌, ◌≡◌,
  ◌≤◌,
}
use express_botx.Server.Config.{get_key}
use express_botx.Text.{Str, elem, str_eq}

abbrev pub max_entries : ℕ
max_entries = 10000

abbrev pub max_inflight : ℕ
max_inflight = 32

pub record Entry : Type 0 where
  pub member : Bool
  pub expires : ℕ

pub record Options : Type 0 where
  pub ttl : ℕ
  pub negative_ttl : ℕ

-- `membershipChecker`: what has been answered, and the keys being looked up.
pub record Checker : Type 0 where
  pub cache : List (Str × Entry)
  pub inflight : List Str

-- The rest of a map after the deletion of a key.
unfoldable pub delete_entry : Str → List (Str × Entry) → List (Str × Entry)
delete_entry k [] = []
delete_entry k ((j, e) ∷ m) =
    let rest = delete_entry k m in if str_eq j k then rest else (j, e) ∷ rest

unfoldable pub delete_call : Str → List Str → List Str
delete_call k [] = []
delete_call k (j ∷ ks) = let rest = delete_call k ks in if str_eq j k then rest else j ∷ rest

-- The locked part of `check`: an answer from the cache, a refusal, or a lookup to wait for, started
-- now or under way.
pub data CheckOutcome : Type 0 where
  cached : Bool → CheckOutcome
  busy : CheckOutcome
  started : CheckOutcome
  joined : CheckOutcome

unfoldable pub look_up : Str → Checker → CheckOutcome × Checker
look_up key m =
    if elem key m.inflight
    then (joined, m)
    else if leb max_inflight (length m.inflight)
    then (busy, m)
    else (started, record m { inflight = key ∷ m.inflight })

unfoldable pub check : Str → ℕ → Checker → CheckOutcome × Checker
unfolding look_up
check key now m = elim (get_key m.cache key) [
  | none ↦ look_up key m
  | some e ↦
      if ltb now e.expires
      then (cached e.member, m)
      else look_up key (record m { cache = delete_entry key m.cache })
]

-- The loop of `sweep` over the expired entries, and the clearing of a cache that is still full.
unfoldable pub live_entries : ℕ → List (Str × Entry) → List (Str × Entry)
live_entries now [] = []
live_entries now ((k, e) ∷ m) =
    let rest = live_entries now m in if not (ltb now e.expires) then rest else (k, e) ∷ rest

unfoldable pub sweep : ℕ → List (Str × Entry) → List (Str × Entry)
sweep now m = let live = live_entries now m in if leb max_entries (length live) then [] else live

abbrev pub make_room : ℕ → List (Str × Entry) → List (Str × Entry)
make_room now m = if leb max_entries (length m) then sweep now m else m

-- The locked part of `run`, once the lookup has answered; `none` is an error.
unfoldable pub finish_lookup : Options → Str → Option Bool → ℕ → Checker → Checker
finish_lookup opts key none now m = record m { inflight = delete_call key m.inflight }
finish_lookup opts key (some is_member) now m = record {
  inflight = delete_call key m.inflight;
  cache =
      (
        key,
        record {
          member = is_member;
          expires = now + (if is_member then opts.ttl else opts.negative_ttl);
        },
      )
      ∷ delete_entry key (make_room now m.cache);
}

-- A run from the empty checker, with the lookups' answers and their times in its history.
pub record Answer : Type 0 where
  pub key : Str
  pub member : Bool
  pub time : ℕ

abbrev pub empty_checker : Checker
empty_checker = record { cache = []; inflight = [] }

pub data Run (opts : Options) : List Answer → ℕ → Checker → Type 0 where
  initial : (t : ℕ) → Run opts [] t empty_checker
  checked :
      {h : List Answer} {t : ℕ} {m : Checker} (t' : ℕ) (key : Str)
      → t ≤ t'
      → Run opts h t m
      → Run opts h t' (check key t' m).1
  answered :
      {h : List Answer} {t : ℕ} {m : Checker} (t' : ℕ) (key : Str) (is_member : Bool)
      → t ≤ t'
      → elem key m.inflight ≡ true
      → Run opts h t m
      → Run opts
          (record { key = key; member = is_member; time = t' } ∷ h)
          t'
          (finish_lookup opts key (some is_member) t' m)
  errored :
      {h : List Answer} {t : ℕ} {m : Checker} (t' : ℕ) (key : Str)
      → t ≤ t'
      → elem key m.inflight ≡ true
      → Run opts h t m
      → Run opts h t' (finish_lookup opts key none t' m)
