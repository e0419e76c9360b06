-- ===== src/Mentions/Parse/Laws.antt =====
-- What becomes of a message: text and tokens that stay, and tokens that become mentions.
use express_botx.Common.{
  Bool-cases, List, Option, Option-cases, [], ap, append_assoc, arith, drop, drop-drop, false,
  if◌then◌else◌, inl, inr, none, null, refl, some, sym, take-append-drop, true, ℕ, ◌++◌, ◌+◌, ◌-◌,
  ◌∙◌, ◌∷◌, ◌≡◌, ◌≤◌, ◌⊎◌,
}
use express_botx.Errors.{GoError, Result, fail, ok}
use express_botx.Mentions.Parse.{
  MentionEntry, ParseError, found_user, normalize, normalize_user, placeholder,
}
use express_botx.Mentions.Scan.{TokenSpan, body_text, raw_text, slice}
use express_botx.Mentions.Scan.Laws.{InOrder}
use express_botx.Mentions.Token.{ParsedToken, email, huid, parse_token_body}
use express_botx.Text.{Str, codes, str_eq}
use express_botx.Text.Equality.{eq→str_eq, str_eq→eq}

slice-drop : (a b : ℕ) (s : Str) → a ≤ b → slice a b s ++ drop b s ≡ drop a s
slice-drop a b s h =
    let e : a + (b - a) ≡ b = omega arith in
    ap (λ z. slice a b s ++ drop z s) (sym e)
    ∙ ap (λ z. slice a b s ++ z) (sym (drop-drop a (b - a) s))
    ∙ take-append-drop (b - a) (drop a s)

module _ {S : Type 0} (new_mention_id : S → Str × S)
    (get_user_by_email : Option (Str → S → Result (Str × Str) × S)) where
  -- The entry for a token: everybody, the user with the token's id, or the user that the lookup gave
  -- for its address, named as the token says or else as the lookup says.
  abbrev pub MadeFrom : ParsedToken → MentionEntry → Type 0
  MadeFrom pt e =
      ((pt.resolver ≡ codes "all") × (e.mention_type ≡ codes "all") × (e.mention_data ≡ none))
      ⊎ ((pt.resolver ≡ huid)
          × (e.mention_type ≡ codes "user")
          × (e.mention_data ≡ some (record { user_huid = pt.value; name = pt.display_name })))
      ⊎ ((get : Str → S → Result (Str × Str) × S) × (user : Str) × (name : Str) × (before : S)
          × (after : S) × (pt.resolver ≡ email)
          × (get_user_by_email ≡ some get)
          × (get pt.value before ≡ (ok (user, name), after))
          × (e.mention_type ≡ codes "user")
          × (e.mention_data
              ≡ some (record {
                user_huid = user;
                name = if null pt.display_name then name else pt.display_name;
              })))

  found_user-MadeFrom :
      (pt : ParsedToken) (raw : Str) (get : Str → S → Result (Str × Str) × S) (s : S)
      (q : Result (Str × Str) × S) (e : MentionEntry)
      → pt.resolver ≡ email
      → get_user_by_email ≡ some get
      → get pt.value s ≡ q
      → (found_user new_mention_id get_user_by_email pt raw q).0 ≡ inr e
      → MadeFrom pt e
  unfolding found_user normalize_user
  found_user-MadeFrom pt raw get s (fail x, s') e r g l h = cc
  found_user-MadeFrom pt raw get s (ok (user, name), s') e r g l h =
      inr (inr (get, user, name, s, s', r, g, l, ground arith, ground arith))

  pub normalize-MadeFrom :
      (pt : ParsedToken) (raw : Str) (s : S) (e : MentionEntry)
      → (normalize new_mention_id get_user_by_email pt raw s).0 ≡ inr e
      → MadeFrom pt e
  normalize-MadeFrom pt raw s e h = elim (Bool-cases (str_eq pt.resolver email)) [
    | inl y ↦
        let r = str_eq→eq pt.resolver email y in
        elim (Option-cases get_user_by_email) [
          | inl n ↦ unfold normalize in ground arith
          | inr (get, g) ↦
              found_user-MadeFrom pt raw get s (get pt.value s) e r g refl
                (unfold normalize in ground arith)
        ]
    | inr n ↦ elim (Bool-cases (str_eq pt.resolver huid)) [
      | inl y ↦
          let r = str_eq→eq pt.resolver huid y in
          unfold normalize in inr (inl (r, ground arith, ground arith))
      | inr m ↦ elim (Bool-cases (str_eq pt.resolver (codes "all"))) [
        | inl y ↦
            let r = str_eq→eq pt.resolver (codes "all") y in
            unfold normalize in inl (r, ground arith, ground arith)
        | inr k ↦ unfold normalize in ground arith
      ]
    ]
  ]

  -- A token of a user's address that could not be looked up.
  abbrev pub IsUnresolved : ParsedToken → Type 0
  IsUnresolved pt =
      (pt.resolver ≡ email)
      × ((get_user_by_email ≡ none)
          ⊎ ((get : Str → S → Result (Str × Str) × S) × (before : S) × (after : S) × (e : GoError)
              × (get_user_by_email ≡ some get)
              × (get pt.value before ≡ (fail e, after))))

  found_user-IsUnresolved :
      (pt : ParsedToken) (raw : Str) (get : Str → S → Result (Str × Str) × S) (s : S)
      (q : Result (Str × Str) × S) (e : ParseError)
      → pt.resolver ≡ email
      → get_user_by_email ≡ some get
      → get pt.value s ≡ q
      → (found_user new_mention_id get_user_by_email pt raw q).0 ≡ inl e
      → IsUnresolved pt
  unfolding found_user normalize_user
  found_user-IsUnresolved pt raw get s (fail x, s') e r g l h = (r, inr (get, s, s', x, g, l))
  found_user-IsUnresolved pt raw get s (ok (user, name), s') e r g l h = cc

  pub normalize-IsUnresolved :
      (pt : ParsedToken) (raw : Str) (s : S) (e : ParseError)
      → (pt.resolver ≡ codes "all") ⊎ (pt.resolver ≡ email) ⊎ (pt.resolver ≡ huid)
      → (normalize new_mention_id get_user_by_email pt raw s).0 ≡ inl e
      → IsUnresolved pt
  normalize-IsUnresolved pt raw s e k h = elim (Bool-cases (str_eq pt.resolver email)) [
    | inl y ↦
        let r = str_eq→eq pt.resolver email y in
        elim (Option-cases get_user_by_email) [
          | inl n ↦ (r, inl n)
          | inr (get, g) ↦
              found_user-IsUnresolved pt raw get s (get pt.value s) e r g refl
                (unfold normalize in ground arith)
        ]
    | inr n ↦ elim (Bool-cases (str_eq pt.resolver huid)) [
      | inl y ↦ unfold normalize in ground arith
      | inr m ↦ elim (Bool-cases (str_eq pt.resolver (codes "all"))) [
        | inl y ↦ unfold normalize in ground arith
        | inr a ↦ elim k [
          | inl w ↦ let y = eq→str_eq pt.resolver (codes "all") w in cc
          | inr (inl w) ↦ let y = eq→str_eq pt.resolver email w in cc
          | inr (inr w) ↦ let y = eq→str_eq pt.resolver huid w in cc
        ]
      ]
    ]
  ]

  module _ (query_unescape : Str → Result Str) (max_mentions : ℕ) (msg : Str) where
    -- The token stands for `pt`.
    abbrev pub Reads : TokenSpan → ParsedToken → Type 0
    Reads t pt = (t.unclosed ≡ false) × (parse_token_body query_unescape (body_text t msg) ≡ ok pt)

    -- Why a token stays: it is malformed; the limit of well-formed tokens is reached; or it is an
    -- address that could not be looked up. `n` and `n'` are the well-formed tokens before and after.
    abbrev pub IsLeft : ℕ → TokenSpan → ℕ → Type 0
    IsLeft n t n' =
        (((t.unclosed ≡ true)
            ⊎ ((e : GoError) × (parse_token_body query_unescape (body_text t msg) ≡ fail e)))
          × (n' ≡ n))
        ⊎ ((max_mentions ≤ n) × (n ≤ n'))
        ⊎ ((pt : ParsedToken) × Reads t pt
            × IsUnresolved pt
            × (n + 1 ≤ max_mentions)
            × (n' ≡ n + 1))

    -- What becomes of the text from `cursor` on, with `n` well-formed tokens before it: text stays,
    -- and each token stays for a reason or gives way to the placeholder of an entry that is made for
    -- it; the entries stand in the order of their tokens.
    pub data Rendered : ℕ → ℕ → List TokenSpan → Str → List MentionEntry → Type 0 where
      text_stays : {cursor n : ℕ} {out : Str} → out ≡ drop cursor msg → Rendered cursor n [] out []
      token_stays :
          {cursor n n' : ℕ} {t : TokenSpan} {ts : List TokenSpan} {out whole : Str}
          {es : List MentionEntry}
          → IsLeft n t n'
          → whole ≡ (slice cursor t.start msg ++ raw_text t msg) ++ out
          → Rendered t.stop n' ts out es
          → Rendered cursor n (t ∷ ts) whole es
      token_replaced :
          {cursor n : ℕ} {t : TokenSpan} {ts : List TokenSpan} {out whole : Str}
          {es : List MentionEntry} {e : MentionEntry} (pt : ParsedToken)
          → Reads t pt
          → MadeFrom pt e
          → n + 1 ≤ max_mentions
          → whole ≡ (slice cursor t.start msg ++ placeholder e) ++ out
          → Rendered t.stop (n + 1) ts out es
          → Rendered cursor n (t ∷ ts) whole (e ∷ es)

    -- Where no entry is made, the text is as it was.
    pub Rendered-unchanged :
        {cursor n : ℕ} {ts : List TokenSpan} {out : Str} {es : List MentionEntry}
        → Rendered cursor n ts out es
        → InOrder msg cursor ts
        → es ≡ []
        → out ≡ drop cursor msg
    Rendered-unchanged (text_stays e) o z = e
    Rendered-unchanged (token_stays {cursor} {n} {n'} {t} {ts} {out} {whole} {es} left e r)
          (a, b, c, o) z =
        let rest = Rendered-unchanged r o z in
        e
        ∙ ap (λ x. (slice cursor t.start msg ++ raw_text t msg) ++ x) rest
        ∙ append_assoc (slice cursor t.start msg) (raw_text t msg) (drop t.stop msg)
        ∙ ap (λ x. slice cursor t.start msg ++ x) (slice-drop t.start t.stop msg (omega arith))
        ∙ slice-drop cursor t.start msg a
    Rendered-unchanged (token_replaced pt p m l e r) o z = cc
