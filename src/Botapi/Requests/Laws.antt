-- ===== src/Botapi/Requests/Laws.antt =====
-- What a request to the platform carries after a message was cut.
use express_botx.Botapi.Requests.{
  MentionCodec, SendNotification, SendParams, build_send_request, cap_body, filter_orphan_mentions,
  is_orphan, keep_entries, mention_placeholder,
}
use express_botx.Botapi.Truncate.{truncate_message}
use express_botx.Botapi.Truncate.Laws.{length-truncate_message, truncate_message_unchanged}
use express_botx.Common.{
  ==_iff, All, Bool-cases, List, [], arith, false, inl, inr, length, none, null, refl, some, true,
  ◌<◌, ◌==◌, ◌↔◌, ◌∷◌, ◌≡◌, ◌≢◌, ◌≤◌, ◌⊎◌,
}
use express_botx.Errors.{Result-cases, ok}
use express_botx.Server.PlainSend.Prepare.Laws.{null→nil}
use express_botx.Text.{Str, contains}

module _ (json : MentionCodec) where
  -- An entry whose placeholder the cut removed: its id stands in the message, and no longer in the
  -- body.
  abbrev pub Orphan : Str → Str → Str → Type 0
  Orphan original body entry =
      (id : Str) × (json.mention_id entry ≡ ok id)
      × (id ≢ [])
      × (contains original (mention_placeholder id) ≡ true)
      × (contains body (mention_placeholder id) ≡ false)

  pub data Filtered (original body : Str) : List Str → List Str → Type 0 where
    no_entries : Filtered original body [] []
    keeps :
        {entry : Str} {entries kept : List Str}
        → ¬ Orphan original body entry
        → Filtered original body entries kept
        → Filtered original body (entry ∷ entries) (entry ∷ kept)
    drops :
        {entry : Str} {entries kept : List Str}
        → Orphan original body entry
        → Filtered original body entries kept
        → Filtered original body (entry ∷ entries) kept

  is_orphan_iff :
      (original body id : Str)
      → (is_orphan original body id ≡ true) ↔ (
          (id ≢ [])
          × (contains original (mention_placeholder id) ≡ true)
          × (contains body (mention_placeholder id) ≡ false))
  is_orphan_iff original body [] = unfold is_orphan in (λ h. cc, λ (n, _, _). absurd (n refl))
  is_orphan_iff original body (c ∷ id) = unfold is_orphan in ground arith

  keep_entries-Filtered :
      (original body : Str) (entries kept : List Str)
      → keep_entries json original body entries ≡ ok kept
      → Filtered original body entries kept
  unfolding keep_entries
  keep_entries-Filtered original body [] kept h =
      let same : [] ≡ kept = cc in rw (← same) no_entries
  keep_entries-Filtered original body (entry ∷ entries) kept h =
      elim (Result-cases (json.mention_id entry)) [
        | inr (e, f) ↦ cc (rw (f, keep_entries) at h)
        | inl (id, f) ↦ elim (Result-cases (keep_entries json original body entries)) [
          | inr (e, g) ↦ cc (rw (f, keep_entries, g) at h)
          | inl (rest, g) ↦
              let onward = keep_entries-Filtered original body entries rest g in
              let (to, from) = is_orphan_iff original body id in
              elim (Bool-cases (is_orphan original body id)) [
                | inl y ↦
                    let same : rest ≡ kept = cc (rw (f, keep_entries, g, y) at h) in
                    rw (← same) (let (a, b, c) = to y in drops (id, f, a, b, c) onward)
                | inr n ↦
                    let same : entry ∷ rest ≡ kept = cc (rw (f, keep_entries, g, n) at h) in
                    let whole : ¬ Orphan original body entry = λ (id', f', a, b, c).
                      (let eq : id' ≡ id = cc in let y = from (rw (← eq) (a, b, c)) in cc) in
                    rw (← same) (keeps whole onward)
              ]
        ]
      ]

  length-Filtered :
      (original body : Str) {entries kept : List Str}
      → Filtered original body entries kept
      → length kept ≤ length entries
  length-Filtered original body no_entries = omega arith
  length-Filtered original body (keeps n f) = omega (arith, length-Filtered original body f)
  length-Filtered original body (drops n f) = omega (arith, length-Filtered original body f)

  -- A filter that drops none found no orphan.
  Filtered-whole :
      (original body : Str) {entries kept : List Str}
      → Filtered original body entries kept
      → length kept ≡ length entries
      → All (λ entry. ¬ Orphan original body entry) entries
  Filtered-whole original body no_entries e = tt
  Filtered-whole original body (keeps n f) e = (n, Filtered-whole original body f (omega arith))
  Filtered-whole original body (drops o f) e =
      absurd (omega (arith, length-Filtered original body f))

  -- The mentions as they were, where there are none or no entry is an orphan; or else an array of
  -- the entries that the filter left, fewer than before.
  abbrev pub KeptMentions : Str → Str → Str → Str → Type 0
  KeptMentions original body mentions out =
      ((out ≡ mentions)
        × ((mentions ≡ [])
            ⊎ ((list : List Str) × (json.entries mentions ≡ ok list)
                × All (λ entry. ¬ Orphan original body entry) list)))
      ⊎ ((list : List Str) × (kept : List Str) × (json.entries mentions ≡ ok list)
          × Filtered original body list kept
          × (length kept < length list)
          × (json.marshal kept ≡ ok out))

  -- Where the filter answers, it gives the mentions as they were if there are none or the cut
  -- removed the placeholder of no entry, and otherwise the array of those entries whose placeholder
  -- the cut did not remove, all of them and in their order.
  pub filter_orphan_mentions-KeptMentions :
      (mentions original body out : Str)
      → filter_orphan_mentions json mentions original body ≡ ok out
      → KeptMentions original body mentions out
  filter_orphan_mentions-KeptMentions mentions original body out h =
      elim (Bool-cases (null mentions)) [
        | inl y ↦ unfold filter_orphan_mentions in inl (ground arith, inl (null→nil mentions y))
        | inr y ↦ elim (Result-cases (json.entries mentions)) [
          | inr (e, f) ↦ unfold filter_orphan_mentions in ground arith
          | inl (list, f) ↦ elim (Result-cases (keep_entries json original body list)) [
            | inr (e, g) ↦ unfold filter_orphan_mentions in ground arith
            | inl (kept, g) ↦
                let left = keep_entries-Filtered original body list kept g in
                elim (Bool-cases (length kept == length list)) [
                  | inl z ↦
                      unfold filter_orphan_mentions in
                      inl (
                        ground arith,
                        inr (
                          list,
                          f,
                          Filtered-whole original body left
                              ((==_iff (length kept) (length list)).0 z),
                        ),
                      )
                  | inr z ↦ inr (
                    list,
                    kept,
                    f,
                    left,
                    ground (arith, length-Filtered original body left),
                    unfold filter_orphan_mentions in ground arith,
                  )
                ]
          ]
        ]
      ]

  cap_body-IsCapped :
      {F : Type 0} (p : SendParams F)
      → 0 < p.max_message_length
      → length (cap_body json p).0 ≤ p.max_message_length
  cap_body-IsCapped p positive =
      let q = truncate_message p.message p.truncate_suffix p.max_message_length in
      elim (Bool-cases q.1) [
        | inl y ↦
            unfold cap_body in
            rw (y, cap_body)
              (length-truncate_message p.message p.truncate_suffix p.max_message_length positive)
        | inr n ↦
            let (to, from) =
              truncate_message_unchanged p.message p.truncate_suffix p.max_message_length in
            unfold cap_body in rw (n, cap_body) (elim (to n) [ inl z ↦ omega arith | inr l ↦ l ])
      ]

-- With a limit, the body of a request is no longer than it; and a request carries a notification
-- exactly if there is a message, metadata or mentions to carry.
pub build_send_request-IsCapped :
    (json : MentionCodec) {F : Type 0} (p : SendParams F)
    → 0 < p.max_message_length
    → ((n : SendNotification)
        → (build_send_request json p).notification ≡ some n
        → length n.body ≤ p.max_message_length)
      × (((build_send_request json p).notification ≡ none)
          ↔ ((p.message ≡ []) × (p.metadata ≡ []) × (p.mentions ≡ [])))
build_send_request-IsCapped json p positive = (
  λ n h. elim (Bool-cases (null p.message)) [
    | inl y ↦ unfold build_send_request in ground arith
    | inr y ↦ let c = cap_body-IsCapped json p positive in unfold build_send_request in ground arith
  ],
  unfold build_send_request in ground arith,
)
