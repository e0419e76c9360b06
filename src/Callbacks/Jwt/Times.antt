-- ===== src/Callbacks/Jwt/Times.antt =====
-- What the comparison of a claim's time with the clock comes to: times are int64, so that a number
-- from 2^63 on stands for the negative one that is 2^64 less.
use express_botx.Callbacks.Jwt.{clock_skew, is_early, is_expired, two_63, two_64}
use express_botx.Common.{Option, arith, false, none, refl, some, ℕ, ◌+◌, ◌<◌, ◌↔◌, ◌≡◌, ◌≤◌, ◌⊎◌}

-- Not more than the skew ago: a time so late that adding the skew leaves the int64s counts as past.
abbrev pub NotExpired : ℕ → Option ℕ → Type 0
NotExpired now none = Unit {0}
NotExpired now (some exp) =
    ((exp + clock_skew < two_63) × (now ≤ exp + clock_skew))
    ⊎ ((two_63 ≤ exp) × (now + two_64 ≤ exp + clock_skew))

-- Not more than the skew ahead: a time so early that subtracting the skew leaves the int64s counts
-- as the late one that the subtraction gives.
abbrev pub NotEarly : ℕ → Option ℕ → Type 0
NotEarly now none = Unit {0}
NotEarly now (some nbf) = (nbf ≤ now + clock_skew) ⊎ (two_63 + clock_skew ≤ nbf)

abbrev pub IsInt64 : Option ℕ → Type 0
IsInt64 none = Unit {0}
IsInt64 (some t) = t < two_64

pub is_expired-NotExpired_iff :
    (now : ℕ) (exp : Option ℕ)
    → now < two_63
    → IsInt64 exp
    → (is_expired now exp ≡ false) ↔ NotExpired now exp
unfolding is_expired
is_expired-NotExpired_iff now none n h = (λ _. tt, λ _. refl)
is_expired-NotExpired_iff now (some exp) n h = ground arith

pub is_early-NotEarly_iff :
    (now : ℕ) (nbf : Option ℕ)
    → now < two_63
    → IsInt64 nbf
    → (is_early now nbf ≡ false) ↔ NotEarly now nbf
unfolding is_early
is_early-NotEarly_iff now none n h = (λ _. tt, λ _. refl)
is_early-NotEarly_iff now (some nbf) n h = ground arith
