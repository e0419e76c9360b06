-- ===== src/Errors.antt =====
-- Go errors: a message, and the sentinel errors that the value wraps (`fmt.Errorf` with `%w`),
-- which are what `errors.Is` finds. The sentinels are those of internal/server and botx.
use express_botx.Common.{Bool, List, [], false, inl, inr, refl, true, ◌++◌, ◌||◌, ◌∷◌, ◌≡◌, ◌⊎◌}
use express_botx.Text.{Str, codes}

pub data Sentinel : Type 0 where
  chat_not_allowed : Sentinel
  access_denied : Sentinel
  access_unavailable : Sentinel
  membership_unavailable : Sentinel
  chat_unresolved : Sentinel
  unauthorized : Sentinel

pub record GoError : Type 0 where
  pub message : Str
  pub wraps : List Sentinel

-- `errors.New`, and `fmt.Errorf` with one `%w` at its end.
abbrev pub new_error : Str → GoError
new_error msg = record { message = msg; wraps = [] }

abbrev pub wrap_error : Str → GoError → GoError
wrap_error prefix e = record e { message = prefix ++ e.message }

abbrev pub same_sentinel : Sentinel → Sentinel → Bool
same_sentinel chat_not_allowed chat_not_allowed = true
same_sentinel access_denied access_denied = true
same_sentinel access_unavailable access_unavailable = true
same_sentinel membership_unavailable membership_unavailable = true
same_sentinel chat_unresolved chat_unresolved = true
same_sentinel unauthorized unauthorized = true
same_sentinel s t = false

abbrev pub wraps_any : List Sentinel → Sentinel → Bool
wraps_any [] s = false
wraps_any (t ∷ ts) s = same_sentinel t s || wraps_any ts s

-- `errors.Is`
abbrev pub is_error : GoError → Sentinel → Bool
is_error e s = wraps_any e.wraps s

abbrev pub not_allowed_text : Str
not_allowed_text = codes "chat not allowed for this key"

abbrev pub unavailable_text : Str
unavailable_text = codes "chat access could not be checked, retry later"

-- `ErrAccessUnavailable`, `ErrMembershipUnavailable` wrapping it, `ErrChatNotAllowed`, and
-- `errNotMember`, which wraps `ErrAccessDenied` and through it `ErrChatNotAllowed`.
abbrev pub err_membership_unavailable : GoError
err_membership_unavailable = record {
  message = codes "chat membership could not be checked: " ++ unavailable_text;
  wraps = membership_unavailable ∷ access_unavailable ∷ [];
}

abbrev pub err_not_member : GoError
err_not_member = record {
  message = not_allowed_text ++ codes ": refused at delivery: the sending bot is not a member";
  wraps = access_denied ∷ chat_not_allowed ∷ [];
}

-- A call that may fail.
pub data Result {ℓ} (A : Type ℓ) : Type ℓ where
  ok : A → Result A
  fail : GoError → Result A

-- What a chat reference resolves to: `ChatResolveResult`.
pub record ChatResult : Type 0 where
  pub chat_id : Str
  pub bot : Str

pub Result-cases {ℓ} :
    {A : Type ℓ} (r : Result A) → ((a : A) × (r ≡ ok a)) ⊎ ((e : GoError) × (r ≡ fail e))
Result-cases (ok a) = inl (a, refl)
Result-cases (fail e) = inr (e, refl)
