-- ===== src/Callbacks/Jwt/Laws.antt =====
-- Exactly the genuine tokens pass.
use express_botx.Callbacks.Jwt.{
  JwtClaims, JwtCodec, JwtHeader, by_parts, callback_jwt_middleware, claims_of, header_of, hs256,
  in_time, is_early, is_expired, parsed, signed, two_63, verify_callback_jwt, verify_claims,
  verify_parts,
}
use express_botx.Callbacks.Jwt.Times.{
  IsInt64, NotEarly, NotExpired, is_early-NotEarly_iff, is_expired-NotExpired_iff,
}
use express_botx.Common.{
  Bool-cases, List, Option, [], ap, arith, drop, false, inl, inr, length, none, null, refl, some,
  sym, true, ℕ, ◌++◌, ◌<◌, ◌↔◌, ◌∙◌, ◌∷◌, ◌≡◌, ◌≢◌,
}
use express_botx.Errors.{Result, Result-cases, ok}
use express_botx.Server.Middleware.{bearer, header_value}
use express_botx.Text.{Str, codes, split, str_eq}
use express_botx.Text.Equality.{str_eq_iff, str_eq_self}
use express_botx.Text.Search.{has_prefix→eq}

module _ (lib : JwtCodec) (secret_lookup : Str → Result Str) (now : ℕ) where
  -- The part of a token is the base64 encoding of the JSON of a value.
  abbrev pub Parses : {A : Type 0} → (Str → Result A) → Str → A → Type 0
  Parses parse part a = (bytes : Str) × (lib.decode part ≡ ok bytes) × (parse bytes ≡ ok a)

  parsed_iff :
      {A : Type 0} (encoding json : Str) (parse : Str → Result A) (part : Str) (a : A)
      → (parsed lib secret_lookup now encoding json parse part ≡ ok a) ↔ Parses parse part a
  parsed_iff encoding json parse part a = elim (Result-cases (lib.decode part)) [
    | inr (e, f) ↦ rw f (λ h. cc, λ (bytes, g, _). cc)
    | inl (bytes, f) ↦ elim (Result-cases (parse bytes)) [
      | inr (e, g) ↦ rw (f, parsed, g) (λ h. cc, λ (bytes', p, q). cc)
      | inl (b, g) ↦ rw (f, parsed, g) (λ h. (bytes, refl, g ∙ h), λ (bytes', p, q). cc)
    ]
  ]

  abbrev pub InTime : JwtClaims → Type 0
  InTime claims = (is_expired now claims.exp ≡ false) × (is_early now claims.nbf ≡ false)

  in_time_iff :
      (claims c : JwtClaims)
      → (in_time lib secret_lookup now claims ≡ ok c) ↔ ((claims ≡ c) × InTime claims)
  unfolding in_time
  in_time_iff claims c = ground arith

  signed_iff :
      (signing_input signature secret : Str) (claims c : JwtClaims)
      → (signed lib secret_lookup now signing_input signature claims secret ≡ ok c) ↔ (
          (claims ≡ c)
          × InTime claims
          × (lib.decode signature ≡ ok (lib.hmac secret signing_input)))
  unfolding signed
  signed_iff signing_input signature secret claims c =
      let (to, from) = in_time_iff claims c in
      elim (Result-cases (lib.decode signature)) [
        | inr (e, f) ↦ (λ h. ground arith, λ (_, _, g). ground arith)
        | inl (actual, f) ↦
            let (sound, complete) = str_eq_iff (lib.hmac secret signing_input) actual in
            elim (Bool-cases (str_eq (lib.hmac secret signing_input) actual)) [
              | inl y ↦
                  rw (f, signed, y)
                    (
                      λ h. let (e, t) = to h in (e, t, ap ok (sym (sound y))),
                      λ (e, t, _). from (e, t),
                    )
              | inr n ↦ rw (f, signed, n) (λ h. cc, λ (_, _, g). cc (complete (ground arith)))
            ]
      ]

  -- The claims of a token that was signed with the secret of the bot they name, under HS256, and
  -- whose times are as `Timely` asks.
  abbrev pub GenuineIn : (JwtClaims → Type 0) → Str → JwtClaims → Type 0
  GenuineIn Timely token claims =
      (head : Str) × (body : Str) × (signature : Str) × (header : JwtHeader) × (secret : Str)
      × (split b'.' token ≡ head ∷ body ∷ signature ∷ [])
      × Parses lib.parse_header head header
      × (header.alg ≡ hs256)
      × Parses lib.parse_claims body claims
      × (claims.aud ≢ [])
      × (secret_lookup claims.aud ≡ ok secret)
      × (lib.decode signature ≡ ok (lib.hmac secret (head ++ (codes "." ++ body))))
      × Timely claims

  -- With times that the comparisons of the source let pass.
  abbrev pub Genuine : Str → JwtClaims → Type 0
  Genuine token claims = GenuineIn InTime token claims

  -- With times not further off than the clock skew allows.
  abbrev pub IsTimely : JwtClaims → Type 0
  IsTimely claims = NotExpired now claims.exp × NotEarly now claims.nbf

  -- JSON's times are decoded into int64s.
  abbrev pub ParsesInt64 : Type 0
  ParsesInt64 =
      (bytes : Str) (claims : JwtClaims)
      → lib.parse_claims bytes ≡ ok claims
      → IsInt64 claims.exp × IsInt64 claims.nbf

  verify_claims_iff :
      (signing_input signature : Str) (claims c : JwtClaims)
      → (verify_claims lib secret_lookup now signing_input signature claims ≡ ok c) ↔ (
          (claims ≡ c)
          × (claims.aud ≢ [])
          × ((secret : Str) × (secret_lookup claims.aud ≡ ok secret)
              × (lib.decode signature ≡ ok (lib.hmac secret signing_input)))
          × InTime claims)
  unfolding verify_claims
  verify_claims_iff signing_input signature claims c = elim (Bool-cases (null claims.aud)) [
    | inl y ↦ rw y (λ h. cc, λ (_, n, _, _). absurd (n (ground arith)))
    | inr y ↦ elim (Result-cases (secret_lookup claims.aud)) [
      | inr (e, f) ↦ rw (y, f) (λ h. cc, λ (_, _, (s, g, _), _). cc)
      | inl (secret, f) ↦
          let (to, from) = signed_iff signing_input signature secret claims c in
          rw (y, f)
            (
              λ h. let (e, t, g) = to h in (e, (λ z. ground arith), (secret, refl, g), t),
              λ (e, _, (s, g, d), t).
                  let same : secret ≡ s = ground arith in from (e, t, rw same d),
            )
    ]
  ]

  header_of_iff :
      (part : Str) (header : JwtHeader)
      → (header_of lib secret_lookup now part ≡ ok header) ↔ Parses lib.parse_header part header
  unfolding header_of
  header_of_iff part header =
      parsed_iff (codes "invalid JWT header encoding: ") (codes "invalid JWT header JSON: ")
        lib.parse_header part header

  claims_of_iff :
      (part : Str) (claims : JwtClaims)
      → (claims_of lib secret_lookup now part ≡ ok claims) ↔ Parses lib.parse_claims part claims
  unfolding claims_of
  claims_of_iff part claims =
      parsed_iff (codes "invalid JWT claims encoding: ") (codes "invalid JWT claims JSON: ")
        lib.parse_claims part claims

  verify_parts_sound :
      (head body signature : Str) (claims : JwtClaims)
      → verify_parts lib secret_lookup now head body signature ≡ ok claims
      → (header : JwtHeader) × (c : JwtClaims) × (header_of lib secret_lookup now head ≡ ok header)
        × (header.alg ≡ hs256)
        × (claims_of lib secret_lookup now body ≡ ok c)
        × (verify_claims lib secret_lookup now (head ++ (codes "." ++ body)) signature c
            ≡ ok claims)
  verify_parts_sound head body signature claims h =
      elim (Result-cases (header_of lib secret_lookup now head)) [
        | inr (e, f) ↦ unfold verify_parts in cc
        | inl (header, f) ↦ elim (Result-cases (claims_of lib secret_lookup now body)) [
          | inr (e, g) ↦ unfold verify_parts in ground arith
          | inl (c, g) ↦
              unfold verify_parts in
              (header, c, f, ground (arith, str_eq_iff header.alg hs256), g, ground arith)
        ]
      ]

  verify_parts_complete :
      (head body signature : Str) (header : JwtHeader) (claims : JwtClaims)
      → lib.equal_fold hs256 (codes "none") ≡ false
      → header_of lib secret_lookup now head ≡ ok header
      → header.alg ≡ hs256
      → claims_of lib secret_lookup now body ≡ ok claims
      → verify_claims lib secret_lookup now (head ++ (codes "." ++ body)) signature claims
        ≡ ok claims
      → verify_parts lib secret_lookup now head body signature ≡ ok claims
  verify_parts_complete head body signature header claims n f a g h =
      let same = str_eq_self hs256 in
      let not_none : lib.equal_fold header.alg (codes "none") ≡ false = rw a n in
      let alg_ok : str_eq header.alg hs256 ≡ true = rw a same in unfold verify_parts in ground arith

  -- With the token in its three parts.
  by_parts_sound :
      (parts : List Str) (claims : JwtClaims)
      → by_parts lib secret_lookup now parts ≡ ok claims
      → (head : Str) × (body : Str) × (signature : Str) × (parts ≡ head ∷ body ∷ signature ∷ [])
        × (verify_parts lib secret_lookup now head body signature ≡ ok claims)
  unfolding by_parts
  by_parts_sound [] claims h = cc
  by_parts_sound (a ∷ []) claims h = cc
  by_parts_sound (a ∷ b ∷ []) claims h = cc
  by_parts_sound (head ∷ body ∷ signature ∷ []) claims h = (head, body, signature, refl, h)
  by_parts_sound (a ∷ b ∷ c ∷ d ∷ rest) claims h = cc

  verify_sound :
      (token : Str) (claims : JwtClaims)
      → verify_callback_jwt lib secret_lookup now token ≡ ok claims
      → Genuine token claims
  verify_sound token claims h =
      let (head, body, signature, parts, v) =
        by_parts_sound (split b'.' token) claims (unfold verify_callback_jwt in h) in
      let (header, c, p, a, q, w) = verify_parts_sound head body signature claims v in
      let (e, n, (secret, l, d), t) = (verify_claims_iff _ signature c claims).0 w in
      (
        head,
        body,
        signature,
        header,
        secret,
        parts,
        (header_of_iff head header).0 p,
        a,
        (claims_of_iff body claims).0 (q ∙ ap ok e),
        rw (← e) n,
        rw (← e) l,
        d,
        rw (← e) t,
      )

  verify_complete :
      (token : Str) (claims : JwtClaims)
      → lib.equal_fold hs256 (codes "none") ≡ false
      → Genuine token claims
      → verify_callback_jwt lib secret_lookup now token ≡ ok claims
  unfolding verify_callback_jwt
  verify_complete token claims f
        (head, body, signature, header, secret, parts, p, a, q, n, l, d, t) =
      rw (parts, by_parts)
        (verify_parts_complete head body signature header claims f ((header_of_iff head header).1 p)
          a ((claims_of_iff body claims).1 q)
          ((verify_claims_iff _ signature claims claims).1 (refl, n, (secret, l, d), t)))

module _ (lib : JwtCodec) (secret_lookup : Str → Result Str) (now : ℕ) (token : Str)
    (claims : JwtClaims) where
  InTime-IsTimely_iff :
      now < two_63
      → IsInt64 claims.exp × IsInt64 claims.nbf
      → InTime lib secret_lookup now claims ↔ IsTimely lib secret_lookup now claims
  InTime-IsTimely_iff clock (e, n) =
      let (to, from) = is_expired-NotExpired_iff now claims.exp clock e in
      let (to', from') = is_early-NotEarly_iff now claims.nbf clock n in
      (λ (a, b). (to a, to' b), λ (a, b). (from a, from' b))

  -- A token is accepted exactly if it is genuine: three parts, a header that says HS256, claims that
  -- name a bot whose secret is known, a signature that is the HMAC of the first two parts under that
  -- secret, an `exp`, if there is one, not more than the skew of 60 seconds ago, where one of the
  -- last 60 int64s counts as past, and an `nbf`, if there is one, not more than the skew ahead, where
  -- one of the first 60 int64s counts as the far time that it wraps around to. It is asked that the
  -- clock shows seconds since 1970 within the int64s, that the times of the claims are int64s, and
  -- that "HS256" is not taken for "none".
  pub verify_callback_jwt-Genuine_iff :
      lib.equal_fold hs256 (codes "none") ≡ false
      → now < two_63
      → ParsesInt64 lib secret_lookup now
      → (verify_callback_jwt lib secret_lookup now token ≡ ok claims)
        ↔ GenuineIn lib secret_lookup now (IsTimely lib secret_lookup now) token claims
  verify_callback_jwt-Genuine_iff f clock int64s = (
    λ h.
        let (head, body, signature, header, secret, parts, p, a, (bytes, q, r), n, l, d, t) =
          verify_sound lib secret_lookup now token claims h in
        (
          head,
          body,
          signature,
          header,
          secret,
          parts,
          p,
          a,
          (bytes, q, r),
          n,
          l,
          d,
          (InTime-IsTimely_iff clock (int64s bytes claims r)).0 t,
        ),
    λ (head, body, signature, header, secret, parts, p, a, (bytes, q, r), n, l, d, t).
        verify_complete lib secret_lookup now token claims f (
          head,
          body,
          signature,
          header,
          secret,
          parts,
          p,
          a,
          (bytes, q, r),
          n,
          l,
          d,
          (InTime-IsTimely_iff clock (int64s bytes claims r)).1 t,
        ),
  )

-- With the verification on, a request that reaches the handler carries a genuine token of the bot
-- whose ID the handler is given.
pub callback_jwt_middleware-Genuine :
    (lib : JwtCodec) (now : ℕ) (secret_lookup : Option (Str → Result Str))
    (authorization : Option Str) (aud : Str)
    → callback_jwt_middleware lib now secret_lookup true authorization ≡ inr aud
    → (lookup : Str → Result Str) × (token : Str) × (claims : JwtClaims) × (secret_lookup
        ≡ some lookup)
      × (header_value authorization ≡ bearer ++ token)
      × Genuine lib lookup now token claims
      × (claims.aud ≡ aud)
callback_jwt_middleware-Genuine lib now none authorization aud h =
    unfold callback_jwt_middleware in cc
callback_jwt_middleware-Genuine lib now (some lookup) authorization aud h =
    let token = drop (length bearer) (header_value authorization) in
    elim (Result-cases (verify_callback_jwt lib lookup now token)) [
      | inr (e, f) ↦ unfold callback_jwt_middleware in ground arith
      | inl (claims, f) ↦ (
        lookup,
        token,
        claims,
        refl,
        has_prefix→eq (header_value authorization) bearer
            (unfold callback_jwt_middleware in ground arith),
        verify_sound lib lookup now token claims f,
        unfold callback_jwt_middleware in ground arith,
      )
    ]
