-- ===== src/Server/PlainSend/Prepare/Laws.antt =====
-- What the checks leave.
use express_botx.Common.{
  Bool-cases, Option, [], arith, false, if◌then◌else◌, inl, inr, none, null, refl, some, true, ◌∷◌,
  ◌≡◌, ◌≢◌, ◌⊎◌,
}
use express_botx.Errors.{Result, fail, ok}
use express_botx.MultiSend.ChatIds.{parse_chat_ids, same_chats}
use express_botx.Server.PlainSend.Form.{FormCodec, is_array, parse_json, parse_multipart}
use express_botx.Server.PlainSend.Prepare.{
  PlainRequest, Prepared, mentions_of, message_of, parsed_request, prepare, read_request, to_send,
  turned_down, with_content, with_default_chat, with_query_chat, with_status,
}
use express_botx.Server.Send.{SendPayload}
use express_botx.Text.{Str, codes, is_some, join, str_eq}
use express_botx.Text.Equality.{str_eq→eq}

-- A payload that may be sent: chats, a message or a file, one of the two statuses, and mentions that
-- are an array if there are any; the message stands in `message`.
abbrev pub Complete : SendPayload → Type 0
Complete p =
    (p.chat_id ≢ [])
    × ((p.message ≢ []) ⊎ (is_some p.file ≡ true))
    × ((p.status ≡ codes "ok") ⊎ (p.status ≡ codes "error"))
    × (p.text ≡ [])
    × ((p.mentions ≡ []) ⊎ (is_array p.mentions ≡ true))

abbrev pub IsChecked : Prepared → Type 0
IsChecked (turned_down reply) = (reply.status ≡ 400) ⊎ (reply.status ≡ 415)
IsChecked (to_send p) = Complete p

-- The parts of `Complete` that the steps before a step have settled.
abbrev Settled : SendPayload → Type 0
Settled p = (p.text ≡ []) × ((p.mentions ≡ []) ⊎ (is_array p.mentions ≡ true))

with_status-IsChecked :
    (p : SendPayload)
    → p.chat_id ≢ []
    → (p.message ≢ []) ⊎ (is_some p.file ≡ true)
    → Settled p
    → IsChecked (with_status p)
with_status-IsChecked p c m (t, a) =
    let status = if null p.status then codes "ok" else p.status in
    elim (Bool-cases (str_eq status (codes "ok"))) [
      | inl y ↦ let e = str_eq→eq status (codes "ok") y in rw y (c, m, inl e, t, a)
      | inr n ↦ elim (Bool-cases (str_eq status (codes "error"))) [
        | inl y ↦ let e = str_eq→eq status (codes "error") y in rw (n, y) (c, m, inr e, t, a)
        | inr k ↦ rw (n, k) (inl refl)
      ]
    ]

pub null→nil : (s : Str) → null s ≡ true → s ≡ []
null→nil [] h = refl
null→nil (c ∷ s) h = ground arith

pub not_null : (s : Str) → null s ≡ false → s ≢ []
not_null s h = λ e. ground arith

with_content-IsChecked : (p : SendPayload) → p.chat_id ≢ [] → Settled p → IsChecked (with_content p)
unfolding with_content
with_content-IsChecked p c q = elim (Bool-cases (null p.message)) [
  | inl y ↦ elim (Bool-cases (is_some p.file)) [
    | inl f ↦ rw (y, f) (with_status-IsChecked p c (inr f) q)
    | inr f ↦ rw (y, f) (inl refl)
  ]
  | inr n ↦ rw n (with_status-IsChecked p c (inl (not_null p.message n)) q)
]

module _ (default_chat : Str) where
  with_default_chat-IsChecked :
      (p : SendPayload) → Settled p → IsChecked (with_default_chat default_chat p)
  unfolding with_default_chat
  with_default_chat-IsChecked p q = elim (Bool-cases (null p.chat_id)) [
    | inr n ↦ rw n (with_content-IsChecked p (not_null p.chat_id n) q)
    | inl y ↦ elim (Bool-cases (null default_chat)) [
      | inl d ↦ rw (y, d) (inl refl)
      | inr d ↦
          rw (y, d)
            (with_content-IsChecked (record p { chat_id = default_chat }) (not_null default_chat d)
              q)
    ]
  ]

  with_query_chat-IsChecked :
      (query : Option Str) (p : SendPayload)
      → Settled p
      → IsChecked (with_query_chat default_chat query p)
  unfolding with_query_chat
  with_query_chat-IsChecked none p q = with_default_chat-IsChecked p q
  with_query_chat-IsChecked (some value) p q = elim (Bool-cases (null (parse_chat_ids value))) [
    | inl y ↦ rw y (inl refl)
    | inr n ↦ elim (Bool-cases (null p.chat_id)) [
      | inl e ↦
          rw (n, e)
            (with_default_chat-IsChecked
              (record p { chat_id = join (codes ",") (parse_chat_ids value) }) q)
      | inr c ↦ elim (Bool-cases (same_chats (parse_chat_ids p.chat_id) (parse_chat_ids value))) [
        | inl same ↦ rw (n, c, same) (with_default_chat-IsChecked p q)
        | inr other ↦ rw (n, c, other) (inl refl)
      ]
    ]
  ]

  prepare-IsChecked :
      (query : Option Str) (p : SendPayload) → IsChecked (prepare default_chat query p)
  unfolding prepare
  prepare-IsChecked query p =
      let m = if str_eq p.mentions (codes "null") then [] else p.mentions in
      let p' = message_of default_chat (mentions_of default_chat p) in
      elim (Bool-cases (null m)) [
        | inl y ↦ rw y (with_query_chat-IsChecked query p' (refl, inl (null→nil m y)))
        | inr n ↦ elim (Bool-cases (is_array m)) [
          | inl a ↦ rw (n, a) (with_query_chat-IsChecked query p' (refl, inr a))
          | inr a ↦ rw (n, a) (inl refl)
        ]
      ]

  parsed_request-IsChecked :
      (query : Option Str) (p : Result SendPayload)
      → IsChecked (parsed_request default_chat query p)
  parsed_request-IsChecked query (fail e) = inl refl
  parsed_request-IsChecked query (ok p) = prepare-IsChecked query p

  -- Whatever a request carries, it is turned down with 400 or 415, or leaves a payload that names a
  -- chat, has a message or a file, the status ok or error, and mentions that are an array if any.
  pub read_request-IsChecked :
      (json : FormCodec) (r : PlainRequest) → IsChecked (read_request default_chat json r)
  unfolding read_request
  read_request-IsChecked json r =
      elim (Bool-cases (str_eq r.media_type (codes "application/json"))) [
        | inl y ↦ rw y (parsed_request-IsChecked r.query_chat (parse_json r.json_body))
        | inr n ↦ elim (Bool-cases (str_eq r.media_type (codes "multipart/form-data"))) [
          | inl y ↦ rw (n, y) (parsed_request-IsChecked r.query_chat (parse_multipart json r.form))
          | inr k ↦ rw (n, k) (inr refl)
        ]
      ]
