-- ===== src/MultiSend/Response/Laws.antt =====
-- The status of a fan-out's response, on every branch.
use express_botx.Common.{
  All, Bool-cases, List, Option, Option-cases, [], arith, if◌then◌else◌, inl, inr, length, none,
  refl, some, true, ℕ, ◌+◌, ◌==◌, ◌↔◌, ◌∷◌, ◌≡◌, ◌≢◌, ◌≤◌, ◌⊎◌,
}
use express_botx.Errors.{access_denied, access_unavailable, is_error, not_allowed_text}
use express_botx.MultiSend.Fanout.{SendError}
use express_botx.MultiSend.Response.{
  authorization_failure, count_refused, failed_status, refusal_status, refused_reply,
  unavailable_error, write_access_error, write_multi_send,
}
use express_botx.Text.{Str}

abbrev pub SomeUnavailable : List SendError → Type 0
SomeUnavailable [] = ⊥
SomeUnavailable (e ∷ es) = (is_error e.cause access_unavailable ≡ true) ⊎ SomeUnavailable es

abbrev pub AllDenied : List SendError → Type 0
AllDenied es = All (λ (e : SendError). is_error e.cause access_denied ≡ true) es

count_refused-none :
    (es : List SendError) (n : ℕ) → (count_refused es n ≡ none) ↔ SomeUnavailable es
unfolding count_refused
count_refused-none [] n = (λ h. cc, λ h. absurd h)
count_refused-none (e ∷ es) n = elim (Bool-cases (is_error e.cause access_unavailable)) [
  | inl y ↦ rw y (λ h. inl refl, λ h. refl)
  | inr m ↦
      let (to, from) =
        count_refused-none es (if is_error e.cause access_denied then n + 1 else n) in
      rw m (λ h. inr (to h), elim [ inl f ↦ cc | inr h ↦ from h ])
]

count_refused-le : (es : List SendError) (n k : ℕ) → count_refused es n ≡ some k → k ≤ n + length es
unfolding count_refused
count_refused-le [] n k h = ground arith
count_refused-le (e ∷ es) n k h =
    ground (arith, count_refused-le es n k, count_refused-le es (n + 1) k)

-- Every refusal counted, exactly if all errors are refusals.
count_refused-full :
    (es : List SendError) (n k : ℕ)
    → count_refused es n ≡ some k
    → (k ≡ n + length es) ↔ AllDenied es
unfolding count_refused
count_refused-full [] n k h = (λ e. tt, λ d. ground arith)
count_refused-full (e ∷ es) n k h = elim (Bool-cases (is_error e.cause access_unavailable)) [
  | inl y ↦ cc (rw y at h)
  | inr m ↦ elim (Bool-cases (is_error e.cause access_denied)) [
    | inl d ↦
        let h' : count_refused es (n + 1) ≡ some k = rw (m, d) at h in
        let (to, from) = count_refused-full es (n + 1) k h' in
        (λ q. (d, to (omega arith)), λ (_, ds). omega (arith, from ds))
    | inr d ↦
        let h' : count_refused es n ≡ some k = rw (m, d) at h in
        (λ q. absurd (omega (arith, count_refused-le es n k h')), λ (d', _). cc)
  ]
]

-- What decides the answer when nothing was delivered.
data Verdict (errs : List SendError) : Option (ℕ × Str) → Type 0 where
  retry_later : SomeUnavailable errs → Verdict errs (some (503, unavailable_error))
  refuse : ¬ SomeUnavailable errs → AllDenied errs → Verdict errs (some (403, not_allowed_text))
  gateway : ¬ SomeUnavailable errs → ¬ AllDenied errs → Verdict errs none

authorization_failure-Verdict : (errs : List SendError) → Verdict errs (authorization_failure errs)
unfolding authorization_failure
authorization_failure-Verdict errs = elim (Option-cases (count_refused errs 0)) [
  | inl e ↦ rw (e, authorization_failure) (retry_later ((count_refused-none errs 0).0 e))
  | inr (k, e) ↦
      let no_outage : ¬ SomeUnavailable errs = λ h. let f = (count_refused-none errs 0).1 h in cc in
      let (to, from) = count_refused-full errs 0 k e in
      rw (e, authorization_failure)
        (elim (Bool-cases (k == length errs)) [
          | inl y ↦ rw y (refuse no_outage (to (ground arith)))
          | inr n ↦ rw n (gateway no_outage (λ d. ground (arith, from d)))
        ])
]

abbrev pub IsStatus : List SendError → ℕ → Type 0
IsStatus errs code =
    (SomeUnavailable errs × (code ≡ 503))
    ⊎ ((¬ SomeUnavailable errs) × AllDenied errs × (code ≡ 403))
    ⊎ ((¬ SomeUnavailable errs) × (¬ AllDenied errs) × (code ≡ 502))

refused_reply-IsStatus :
    (errs : List SendError) (a : Option (ℕ × Str))
    → Verdict errs a
    → IsStatus errs (refused_reply a errs).status
      × ((refused_reply a errs).status ≡ refusal_status a)
      × (((refused_reply a errs).retry_after ≡ true) ↔ SomeUnavailable errs)
unfolding write_access_error
refused_reply-IsStatus errs _ (retry_later h) = (inl (h, refl), refl, (λ _. h, λ _. refl))
refused_reply-IsStatus errs _ (refuse n d) =
    (inr (inl (n, d, refl)), refl, (λ e. cc, λ h. absurd (n h)))
refused_reply-IsStatus errs _ (gateway n d) =
    (inr (inr (n, d, refl)), refl, (λ e. cc, λ h. absurd (n h)))

-- A request that delivered nothing because every chat failed is answered 503 with `Retry-After`
-- if some chat's access could not be checked, 403 if every chat was refused, and 502 otherwise;
-- `failedStatus` announces that very status.
pub write_multi_send-IsStatus :
    (errs : List SendError) (success : ℕ)
    → errs ≢ []
    → IsStatus errs (write_multi_send [] errs success).status
      × ((write_multi_send [] errs success).status ≡ failed_status errs)
      × (((write_multi_send [] errs success).retry_after ≡ true) ↔ SomeUnavailable errs)
unfolding write_multi_send failed_status
write_multi_send-IsStatus [] success n = absurd (n refl)
write_multi_send-IsStatus (e ∷ errs) success n =
    refused_reply-IsStatus (e ∷ errs) _ (authorization_failure-Verdict (e ∷ errs))
