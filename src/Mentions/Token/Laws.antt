-- ===== src/Mentions/Token/Laws.antt =====
-- The tokens that are accepted, and what they stand for.
use express_botx.Common.{
  Bool-cases, Option-cases, [], append-nil, arith, drop, drop-length_suc, false, if◌then◌else◌, inl,
  inr, null, refl, sym, take, take-length-append, ℕ, ◌++◌, ◌+◌, ◌↔◌, ◌∙◌, ◌∷◌, ◌≡◌, ◌≢◌, ◌⊎◌,
}
use express_botx.Errors.{Result, Result-cases, ok}
use express_botx.Mentions.Token.{
  ParsedToken, all_token, email, huid, parse_token_body, with_name, with_resolver, with_rest,
  with_value,
}
use express_botx.Text.{Str, codes, contains, index, str_eq}
use express_botx.Text.Character.{
  has_char, index-single-none, index-single-some, index-single_append, single,
}
use express_botx.Text.Equality.{eq→str_eq, str_eq_iff, str_eq→eq}

module _ (query_unescape : Str → Result Str) where
  -- "resolver:value", or "resolver:value;name" with the name URL-encoded.
  abbrev pub Named : Str → ParsedToken → Type 0
  Named rest t =
      ((rest ≡ t.value) × (t.display_name ≡ []))
      ⊎ ((raw : Str) × (rest ≡ t.value ++ b';' ∷ raw)
          × (has_char b';' raw ≡ false)
          × (query_unescape raw ≡ ok t.display_name))

  abbrev pub Rest : Str → Str → ParsedToken → Type 0
  Rest resolver rest t =
      (t.resolver ≡ resolver) × (t.value ≢ []) × (has_char b';' t.value ≡ false) × Named rest t

  abbrev pub Grammar : Str → ParsedToken → Type 0
  Grammar body t =
      ((body ≡ codes "all") × (t ≡ all_token))
      ⊎ (((t.resolver ≡ email) ⊎ (t.resolver ≡ huid))
          × (t.value ≢ [])
          × (has_char b';' t.value ≡ false)
          × ((rest : Str) × (body ≡ t.resolver ++ b':' ∷ rest) × Named rest t))

  with_value_iff :
      (resolver value name : Str) (t : ParsedToken)
      → (with_value query_unescape resolver value name ≡ ok t)
        ↔ ((value ≢ []) × (t ≡ record { resolver = resolver; value = value; display_name = name }))
  unfolding with_value
  with_value_iff resolver [] name t = (λ h. cc, λ (n, _). absurd (n refl))
  with_value_iff resolver (c ∷ value) name t = ground arith

  contains-single : (s : Str) (c : ℕ) → contains s (single c) ≡ has_char c s
  contains-single s c = elim (Option-cases (index s (single c))) [
    | inl e ↦ unfold contains in rw e (sym ((index-single-none s c).0 e))
    | inr (i, e) ↦ elim (Bool-cases (has_char c s)) [
      | inl y ↦ unfold contains in rw e (sym y)
      | inr n ↦ let f = (index-single-none s c).1 n in cc
    ]
  ]

  with_name_iff :
      (resolver value raw : Str) (t : ParsedToken)
      → (with_name query_unescape resolver value raw ≡ ok t) ↔ (
          (has_char b';' raw ≡ false)
          × (value ≢ [])
          × (t.resolver ≡ resolver)
          × (t.value ≡ value)
          × (query_unescape raw ≡ ok t.display_name))
  unfolding with_name
  with_name_iff resolver value raw t = elim (Bool-cases (contains raw (single b';'))) [
    | inl y ↦ let z = contains-single raw b';' in rw y (λ h. cc, λ (n, _, _, _, _). cc)
    | inr n ↦
        let z = contains-single raw b';' in
        elim (Result-cases (query_unescape raw)) [
          | inr (e, f) ↦ rw (n, f) (λ h. cc, λ (_, _, _, _, g). cc)
          | inl (d, f) ↦
              let (to, from) = with_value_iff resolver value d t in
              rw (n, f)
                (
                  λ h. let (v, e) = to h in (sym z ∙ n, v, rw e refl, rw e refl, rw e refl),
                  λ (_, v, p, q, g). let same : t.display_name ≡ d = cc in from (v, ground arith),
                )
        ]
  ]

  -- Where the value ends is where the first semicolon stands.
  with_rest_sound :
      (resolver rest : Str) (t : ParsedToken)
      → with_rest query_unescape resolver rest ≡ ok t
      → Rest resolver rest t
  unfolding with_rest
  with_rest_sound resolver rest t h = elim (Option-cases (index rest (single b';'))) [
    | inl e ↦
        let (v, p) = (with_value_iff resolver rest [] t).0 (rw (e, with_rest) at h) in
        let free = (index-single-none rest b';').0 e in rw p (refl, v, free, inl (refl, refl))
    | inr (i, e) ↦
        let (p, q) = index-single-some rest b';' i e in
        let (a, v, r, w, u) =
          (with_name_iff resolver (take i rest) (drop (i + 1) rest) t).0 (rw (e, with_rest) at h) in
        (r, rw w v, rw w q, inr (drop (i + 1) rest, rw w p, a, u))
  ]

  with_rest_plain :
      (resolver value : Str)
      → value ≢ []
      → has_char b';' value ≡ false
      → with_rest query_unescape resolver value
        ≡ ok (record { resolver = resolver; value = value; display_name = [] })
  unfolding with_rest
  with_rest_plain resolver value v f =
      let none_found = (index-single-none value b';').1 f in
      rw (none_found, with_rest) ((with_value_iff resolver value [] _).1 (v, refl))

  with_rest_named :
      (resolver value raw name : Str)
      → value ≢ []
      → has_char b';' value ≡ false
      → has_char b';' raw ≡ false
      → query_unescape raw ≡ ok name
      → with_rest query_unescape resolver (value ++ b';' ∷ raw)
        ≡ ok (record { resolver = resolver; value = value; display_name = name })
  unfolding with_rest
  with_rest_named resolver value raw name v f a u =
      let found_at = index-single_append value raw b';' f in
      rw
        (found_at, with_rest, take-length-append value (b';' ∷ raw), drop-length_suc value b';' raw)
        ((with_name_iff resolver value raw _).1 (a, v, refl, refl, u))

  with_rest_complete :
      (resolver rest : Str) (t : ParsedToken)
      → Rest resolver rest t
      → with_rest query_unescape resolver rest ≡ ok t
  with_rest_complete resolver rest t (r, v, f, inl (e, d)) =
      rw e (with_rest_plain resolver t.value v f ∙ ground arith)
  with_rest_complete resolver rest t (r, v, f, inr (raw, e, a, u)) =
      rw e (with_rest_named resolver t.value raw t.display_name v f a u ∙ ground arith)

  -- A resolver has no colon in its name, so the first colon of a body ends it.
  with_resolver_iff :
      (resolver rest : Str) (t : ParsedToken)
      → (with_resolver query_unescape resolver rest ≡ ok t) ↔ (
          ((resolver ≡ email) ⊎ (resolver ≡ huid))
          × (with_rest query_unescape resolver rest ≡ ok t))
  unfolding with_resolver
  with_resolver_iff resolver rest t =
      ground (arith, str_eq_iff resolver email, str_eq_iff resolver huid)

  abbrev pub IsResolver : Str → Type 0
  IsResolver r = (r ≡ email) ⊎ (r ≡ huid)

  resolver_colon : (r : Str) → IsResolver r → has_char b':' r ≡ false
  unfolding has_char
  resolver_colon r (inl e) = rw e refl
  resolver_colon r (inr e) = rw e refl

  not_all :
      (resolver rest : Str)
      → IsResolver resolver
      → str_eq (resolver ++ b':' ∷ rest) (codes "all") ≡ false
  unfolding str_eq
  not_all resolver rest (inl e) = rw e refl
  not_all resolver rest (inr e) = rw e refl

  parse_sound :
      (body : Str) (t : ParsedToken) → parse_token_body query_unescape body ≡ ok t → Grammar body t
  unfolding parse_token_body
  parse_sound body t h = elim (Bool-cases (str_eq body (codes "all"))) [
    | inl y ↦ inl (str_eq→eq body (codes "all") y, ground arith)
    | inr n ↦ elim (Option-cases (index body (single b':'))) [
      | inl e ↦ ground arith
      | inr (i, e) ↦
          let (p, q) = index-single-some body b':' i e in
          let (s, w) =
            (with_resolver_iff (take i body) (drop (i + 1) body) t).0
              (rw (n, parse_token_body, e) at h) in
          let (r, v, f, m) = with_rest_sound (take i body) (drop (i + 1) body) t w in
          inr (rw r s, v, f, (drop (i + 1) body, rw r p, m))
    ]
  ]

  parse_parts :
      (resolver rest : Str) (t : ParsedToken)
      → IsResolver resolver
      → with_resolver query_unescape resolver rest ≡ ok t
      → parse_token_body query_unescape (resolver ++ b':' ∷ rest) ≡ ok t
  unfolding parse_token_body
  parse_parts resolver rest t r h =
      let found_at = index-single_append resolver rest b':' (resolver_colon resolver r) in
      rw
        (
          not_all resolver rest r,
          parse_token_body,
          found_at,
          take-length-append resolver (b':' ∷ rest),
          drop-length_suc resolver b':' rest,
        )
        h

  parse_complete :
      (body : Str) (t : ParsedToken) → Grammar body t → parse_token_body query_unescape body ≡ ok t
  parse_complete body t (inl (e, same)) =
      let y = eq→str_eq body (codes "all") e in
      unfold parse_token_body in rw (y, parse_token_body, same) refl
  parse_complete body t (inr (r, v, f, (rest, e, n))) = rw e (
      parse_parts t.resolver rest t r (
        (with_resolver_iff t.resolver rest t).1
          (r, with_rest_complete t.resolver rest t (refl, v, f, n))))

-- A token body is accepted exactly if the grammar has it: "all", or "email" or "huid", a colon, a
-- value without semicolon that is not empty, and perhaps a semicolon and a URL-encoded name
-- without another one; and it then stands for that resolver, that value and the decoded name.
pub parse_token_body-Grammar_iff :
    (query_unescape : Str → Result Str) (body : Str) (t : ParsedToken)
    → (parse_token_body query_unescape body ≡ ok t) ↔ Grammar query_unescape body t
parse_token_body-Grammar_iff query_unescape body t =
    (parse_sound query_unescape body t, parse_complete query_unescape body t)

-- How a token is written: the form that the documentation gives.
unfoldable pub print_token : (Str → Str) → ParsedToken → Str
print_token query_escape t =
    t.resolver
    ++ b':' ∷ (t.value ++ (if null t.display_name then [] else b';' ∷ query_escape t.display_name))

-- What is written for a user is read back as it was, for any name: the escaping has to be undone by
-- the unescaping, and to leave no semicolon.
pub parse_token_body-print_token :
    (query_escape : Str → Str) (query_unescape : Str → Result Str) (t : ParsedToken)
    → (t.resolver ≡ email) ⊎ (t.resolver ≡ huid)
    → t.value ≢ []
    → has_char b';' t.value ≡ false
    → query_unescape (query_escape t.display_name) ≡ ok t.display_name
    → has_char b';' (query_escape t.display_name) ≡ false
    → parse_token_body query_unescape (print_token query_escape t) ≡ ok t
unfolding print_token
parse_token_body-print_token query_escape query_unescape t r v f u s =
    parse_complete query_unescape (print_token query_escape t) t (
      inr (
        r,
        v,
        f,
        (
          _,
          refl,
          elim (Bool-cases (null t.display_name)) [
            | inl y ↦ rw y (inl (append-nil _, ground arith))
            | inr n ↦ rw n (inr (query_escape t.display_name, refl, s, u))
          ],
        ),
      ))
