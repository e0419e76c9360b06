-- ===== src/Mentions/Parse/Loop.antt =====
-- The loop of `Parse`, step by step.
use express_botx.Common.{
  Bool-cases, List, Option, [], ap, append-nil, append_assoc, arith, drop, false, inl, inr, length,
  length-append, ltb, refl, subst, sym, ℕ, ◌++◌, ◌+◌, ◌∙◌, ◌∷◌, ◌≡◌, ◌≤◌, ◌⊎◌,
}
use express_botx.Errors.{Result, Result-cases, ok}
use express_botx.Mentions.Parse.{
  MentionEntry, ParseError, Parsing, normalize, parse_loop, parse_step, placeholder, resolved_token,
  well_formed,
}
use express_botx.Mentions.Parse.Laws.{
  IsLeft, IsUnresolved, MadeFrom, Reads, Rendered, normalize-IsUnresolved, normalize-MadeFrom,
  text_stays, token_replaced, token_stays,
}
use express_botx.Mentions.Scan.{TokenSpan, body_text, raw_text, slice}
use express_botx.Mentions.Token.{ParsedToken, email, huid, parse_token_body}
use express_botx.Mentions.Token.Laws.{parse_token_body-Grammar_iff}
use express_botx.Text.{Str, codes}

module _ {S : Type 0} (new_mention_id : S → Str × S)
    (get_user_by_email : Option (Str → S → Result (Str × Str) × S))
    (query_unescape : Str → Result Str) (max_mentions : ℕ) (msg : Str) where
  abbrev step : Parsing S → TokenSpan → Parsing S
  step = parse_step new_mention_id get_user_by_email query_unescape max_mentions msg

  -- The limit is only marked as hit when it is.
  abbrev pub LimitSeen : Parsing S → Type 0
  LimitSeen acc = (acc.limit_hit ≡ false) ⊎ (max_mentions ≤ acc.processed)

  abbrev Keeps : Parsing S → TokenSpan → Parsing S → Type 0
  Keeps acc t acc' =
      (acc'.out ≡ acc.out ++ (slice acc.cursor t.start msg ++ raw_text t msg))
      × (acc'.parsed ≡ acc.parsed)
      × (acc'.cursor ≡ t.stop)
      × IsLeft new_mention_id get_user_by_email query_unescape max_mentions msg acc.processed t
          acc'.processed
      × LimitSeen acc'

  abbrev Replaces : Parsing S → TokenSpan → Parsing S → Type 0
  Replaces acc t acc' =
      (e : MentionEntry) × (pt : ParsedToken) × Reads new_mention_id get_user_by_email
        query_unescape max_mentions msg t pt
      × MadeFrom new_mention_id get_user_by_email pt e
      × (acc'.out ≡ acc.out ++ (slice acc.cursor t.start msg ++ placeholder e))
      × (acc'.parsed ≡ acc.parsed ++ e ∷ [])
      × (acc'.cursor ≡ t.stop)
      × (acc'.processed ≡ acc.processed + 1)
      × (acc.processed + 1 ≤ max_mentions)
      × LimitSeen acc'

  resolved_token-cases :
      (acc : Parsing S) (t : TokenSpan) (pt : ParsedToken) (q : (ParseError ⊎ MentionEntry) × S)
      → Reads new_mention_id get_user_by_email query_unescape max_mentions msg t pt
      → ((e : MentionEntry) → q.0 ≡ inr e → MadeFrom new_mention_id get_user_by_email pt e)
      → ((e : ParseError) → q.0 ≡ inl e → IsUnresolved new_mention_id get_user_by_email pt)
      → acc.processed + 1 ≤ max_mentions
      → acc.limit_hit ≡ false
      → (let acc' =
            resolved_token new_mention_id get_user_by_email query_unescape max_mentions msg
              (record acc { processed = acc.processed + 1 })
              t
              q in
          Keeps acc t acc' ⊎ Replaces acc t acc')
  unfolding resolved_token
  resolved_token-cases acc t pt (inl e, s) p m u l h =
      inl (refl, refl, refl, inr (inr (pt, p, u e refl, l, refl)), inl h)
  resolved_token-cases acc t pt (inr e, s) p m u l h =
      inr (e, pt, p, m e refl, refl, refl, refl, refl, l, inl h)

  resolver_cases :
      (t : TokenSpan) (pt : ParsedToken)
      → Reads new_mention_id get_user_by_email query_unescape max_mentions msg t pt
      → (pt.resolver ≡ codes "all") ⊎ (pt.resolver ≡ email) ⊎ (pt.resolver ≡ huid)
  resolver_cases t pt (u, p) =
      elim ((parse_token_body-Grammar_iff query_unescape (body_text t msg) pt).0 p) [
        | inl (b, e) ↦ inl (ap (λ z. z.resolver) e)
        | inr (r, v, f, g) ↦ inr r
      ]

  well_formed-cases :
      (acc : Parsing S) (t : TokenSpan) (pt : ParsedToken)
      → Reads new_mention_id get_user_by_email query_unescape max_mentions msg t pt
      → acc.limit_hit ≡ false
      → (let acc' =
            well_formed new_mention_id get_user_by_email query_unescape max_mentions msg acc t pt in
          Keeps acc t acc' ⊎ Replaces acc t acc')
  unfolding well_formed
  well_formed-cases acc t pt p h = elim (Bool-cases (ltb max_mentions (acc.processed + 1))) [
    | inl y ↦
        let over : max_mentions ≤ acc.processed = ground arith in
        rw y (inl (refl, refl, refl, inr (inl (over, omega arith)), inr (omega arith)))
    | inr n ↦ rw n (
        resolved_token-cases acc t pt
          (normalize new_mention_id get_user_by_email pt (raw_text t msg) acc.state) p
          (normalize-MadeFrom new_mention_id get_user_by_email pt (raw_text t msg) acc.state)
          (λ e.
            normalize-IsUnresolved new_mention_id get_user_by_email pt (raw_text t msg) acc.state e
              (resolver_cases t pt p))
          (ground arith) h)
  ]

  step-well_formed :
      (acc : Parsing S) (t : TokenSpan) (pt : ParsedToken)
      → acc.limit_hit ≡ false
      → t.unclosed ≡ false
      → parse_token_body query_unescape (body_text t msg) ≡ ok pt
      → step acc t
        ≡ well_formed new_mention_id get_user_by_email query_unescape max_mentions msg acc t pt
  unfolding parse_step
  step-well_formed acc t pt a b f = cc

  step-cases :
      (acc : Parsing S) (t : TokenSpan)
      → LimitSeen acc
      → Keeps acc t (step acc t) ⊎ Replaces acc t (step acc t)
  step-cases acc t seen = elim (Bool-cases acc.limit_hit) [
    | inl y ↦
        let over : max_mentions ≤ acc.processed = ground arith in
        unfold parse_step in
        inl (ground arith, ground arith, ground arith, inr (inl (over, ground arith)), ground arith)
    | inr a ↦ elim (Bool-cases t.unclosed) [
      | inl y ↦
          unfold parse_step in
          inl (ground arith, ground arith, ground arith, inl (inl y, ground arith), ground arith)
      | inr b ↦ elim (Result-cases (parse_token_body query_unescape (body_text t msg))) [
        | inr (e, f) ↦
            unfold parse_step in
            inl (
              ground arith,
              ground arith,
              ground arith,
              inl (inr (e, f), ground arith),
              ground arith,
            )
        | inl (pt, f) ↦
            subst (λ z. Keeps acc t z ⊎ Replaces acc t z) (sym (step-well_formed acc t pt a b f))
              (well_formed-cases acc t pt (b, f) a)
      ]
    ]
  ]

  abbrev pub parse_run : List TokenSpan → Parsing S → Parsing S
  parse_run = parse_loop new_mention_id get_user_by_email query_unescape max_mentions msg

  abbrev rest_out : List TokenSpan → Parsing S → Str
  rest_out ts acc = (parse_run ts acc).out ++ drop (parse_run ts acc).cursor msg

  abbrev pub Renders : ℕ → ℕ → List TokenSpan → Str → List MentionEntry → Type 0
  Renders = Rendered new_mention_id get_user_by_email query_unescape max_mentions msg

  abbrev pub LoopOutcome : List TokenSpan → Parsing S → Type 0
  LoopOutcome ts acc =
      (out : Str) × (es : List MentionEntry) × Renders acc.cursor acc.processed ts out es
      × (rest_out ts acc ≡ acc.out ++ out)
      × ((parse_run ts acc).parsed ≡ acc.parsed ++ es)

  outcome_kept :
      (t : TokenSpan) (ts : List TokenSpan) (acc acc' : Parsing S)
      → step acc t ≡ acc'
      → Keeps acc t acc'
      → LoopOutcome ts acc'
      → LoopOutcome (t ∷ ts) acc
  unfolding parse_loop
  outcome_kept t ts acc acc' s (o, p, c, left, seen) (out, es, r, e, q) = (
    (slice acc.cursor t.start msg ++ raw_text t msg) ++ out,
    es,
    token_stays left refl (subst (λ z. Renders z acc'.processed ts out es) c r),
    ap (λ z. rest_out ts z) s
        ∙ e
        ∙ ap (λ z. z ++ out) o
        ∙ append_assoc acc.out (slice acc.cursor t.start msg ++ raw_text t msg) out,
    ap (λ z. (parse_run ts z).parsed) s ∙ q ∙ ap (λ z. z ++ es) p,
  )

  outcome_replaced :
      (t : TokenSpan) (ts : List TokenSpan) (acc acc' : Parsing S)
      → step acc t ≡ acc'
      → Replaces acc t acc'
      → LoopOutcome ts acc'
      → LoopOutcome (t ∷ ts) acc
  unfolding parse_loop
  outcome_replaced t ts acc acc' s (m, pt, reads, made, o, p, c, n, l, seen) (out, es, r, e, q) = (
    (slice acc.cursor t.start msg ++ placeholder m) ++ out,
    m ∷ es,
    token_replaced pt reads made l refl (
        subst (λ z. Renders t.stop z ts out es) n
          (subst (λ z. Renders z acc'.processed ts out es) c r)),
    ap (λ z. rest_out ts z) s
        ∙ e
        ∙ ap (λ z. z ++ out) o
        ∙ append_assoc acc.out (slice acc.cursor t.start msg ++ placeholder m) out,
    ap (λ z. (parse_run ts z).parsed) s
        ∙ q
        ∙ ap (λ z. z ++ es) p
        ∙ append_assoc acc.parsed (m ∷ []) es,
  )

  pub parse_loop-LoopOutcome :
      (ts : List TokenSpan) (acc : Parsing S) → LimitSeen acc → LoopOutcome ts acc
  unfolding parse_loop
  parse_loop-LoopOutcome [] acc seen =
      (drop acc.cursor msg, [], text_stays refl, refl, sym (append-nil acc.parsed))
  parse_loop-LoopOutcome (t ∷ ts) acc seen = elim (step-cases acc t seen) [
    | inl k ↦
        let (o, p, c, left, seen') = k in
        outcome_kept t ts acc (step acc t) refl k (parse_loop-LoopOutcome ts (step acc t) seen')
    | inr k ↦
        let (m, pt, reads, made, o, p, c, n, l, seen') = k in
        outcome_replaced t ts acc (step acc t) refl k (parse_loop-LoopOutcome ts (step acc t) seen')
  ]

  -- At most as many entries as well-formed tokens, and as the limit.
  abbrev pub InLimit : Parsing S → Type 0
  InLimit acc =
      LimitSeen acc × (length acc.parsed ≤ acc.processed) × (length acc.parsed ≤ max_mentions)

  step-InLimit : (acc : Parsing S) (t : TokenSpan) → InLimit acc → InLimit (step acc t)
  step-InLimit acc t (seen, a, b) = elim (step-cases acc t seen) [
    | inl (o, p, c, left, seen') ↦ let e = ap length p in (seen', ground arith, omega arith)
    | inr (m, pt, reads, made, o, p, c, n, l, seen') ↦
        let e = ap length p ∙ length-append acc.parsed (m ∷ []) in (seen', omega arith, omega arith)
  ]

  pub parse_loop-InLimit :
      (ts : List TokenSpan) (acc : Parsing S) → InLimit acc → InLimit (parse_run ts acc)
  unfolding parse_loop
  parse_loop-InLimit [] acc h = h
  parse_loop-InLimit (t ∷ ts) acc h = parse_loop-InLimit ts (step acc t) (step-InLimit acc t h)
