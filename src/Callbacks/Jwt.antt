-- ===== src/Callbacks/Jwt.antt =====
-- The verification of a callback's token: internal/server/callback_jwt.go. An int64 is a number
-- below 2^64 that stands for its two's complement.
pub mod Times
pub mod Laws
use express_botx.Common.{
  Bool, List, Option, [], drop, false, if◌then◌else◌, inl, inr, length, ltb, none, not, null, some,
  true, ℕ, ◌%◌, ◌++◌, ◌+◌, ◌-◌, ◌^◌, ◌∷◌, ◌⊎◌,
}
use express_botx.Errors.{Result, fail, new_error, ok, wrap_error}
use express_botx.MultiSend.Response.{Reply, write_error}
use express_botx.Server.Middleware.{bearer, header_value}
use express_botx.Text.{Str, codes, has_prefix, split, str_eq}

pub record JwtHeader : Type 0 where
  pub alg : Str

pub record JwtClaims : Type 0 where
  pub aud : Str
  pub exp : Option ℕ
  pub nbf : Option ℕ

-- The libraries' part: base64, JSON, HMAC-SHA256 and `strings.EqualFold`.
pub record JwtCodec : Type 0 where
  pub decode : Str → Result Str
  pub parse_header : Str → Result JwtHeader
  pub parse_claims : Str → Result JwtClaims
  pub hmac : Str → Str → Str
  pub equal_fold : Str → Str → Bool

abbrev pub two_64 : ℕ
two_64 = 2 ^ 64

abbrev pub two_63 : ℕ
two_63 = 2 ^ 63

abbrev pub int64_lt : ℕ → ℕ → Bool
int64_lt a b = ltb ((a + two_63) % two_64) ((b + two_63) % two_64)

abbrev pub clock_skew : ℕ
clock_skew = 60

unfoldable pub is_expired : ℕ → Option ℕ → Bool
is_expired now none = false
is_expired now (some exp) = int64_lt ((exp + clock_skew) % two_64) now

unfoldable pub is_early : ℕ → Option ℕ → Bool
is_early now none = false
is_early now (some nbf) = int64_lt now ((nbf + (two_64 - clock_skew)) % two_64)

abbrev hs256 : Str
hs256 = codes "HS256"

module _ (lib : JwtCodec) (secret_lookup : Str → Result Str) (now : ℕ) where
  abbrev parsed : {A : Type 0} → Str → Str → (Str → Result A) → Str → Result A
  parsed encoding json parse part = elim (lib.decode part) [
    | fail e ↦ fail (wrap_error encoding e)
    | ok bytes ↦ elim (parse bytes) [ fail e ↦ fail (wrap_error json e) | ok a ↦ ok a ]
  ]

  header_of : Str → Result JwtHeader
  header_of part =
      parsed (codes "invalid JWT header encoding: ") (codes "invalid JWT header JSON: ")
        lib.parse_header part

  claims_of : Str → Result JwtClaims
  claims_of part =
      parsed (codes "invalid JWT claims encoding: ") (codes "invalid JWT claims JSON: ")
        lib.parse_claims part

  in_time : JwtClaims → Result JwtClaims
  in_time claims =
      if is_expired now claims.exp
      then fail (new_error (codes "JWT has expired"))
      else if is_early now claims.nbf
      then fail (new_error (codes "JWT is not yet valid"))
      else ok claims

  signed : Str → Str → JwtClaims → Str → Result JwtClaims
  signed signing_input signature claims secret = elim (lib.decode signature) [
    | fail e ↦ fail (wrap_error (codes "invalid JWT signature encoding: ") e)
    | ok actual ↦
        if not (str_eq (lib.hmac secret signing_input) actual)
        then fail (new_error (codes "invalid JWT signature"))
        else in_time claims
  ]

  verify_claims : Str → Str → JwtClaims → Result JwtClaims
  verify_claims signing_input signature claims =
      if null claims.aud
      then fail (new_error (codes "JWT missing aud claim"))
      else elim (secret_lookup claims.aud) [
        | fail e ↦ fail (wrap_error (codes "bot secret lookup failed: ") e)
        | ok secret ↦ signed signing_input signature claims secret
      ]

  unfoldable pub verify_parts : Str → Str → Str → Result JwtClaims
  unfolding header_of claims_of verify_claims signed in_time str_eq
  verify_parts head body signature = elim (header_of head) [
    | fail e ↦ fail e
    | ok header ↦
        if lib.equal_fold header.alg (codes "none")
        then fail (new_error (codes "unsigned JWT (alg: none) is not allowed"))
        else if not (str_eq header.alg hs256)
        then fail (new_error (codes "unsupported JWT algorithm: only HS256 is allowed"))
        else elim (claims_of body) [
          | fail e ↦ fail e
          | ok claims ↦ verify_claims (head ++ (codes "." ++ body)) signature claims
        ]
  ]

  abbrev malformed_jwt : Result JwtClaims
  malformed_jwt = fail (new_error (codes "malformed JWT: expected 3 parts"))

  unfoldable pub by_parts : List Str → Result JwtClaims
  by_parts [] = malformed_jwt
  by_parts (a ∷ []) = malformed_jwt
  by_parts (a ∷ b ∷ []) = malformed_jwt
  by_parts (head ∷ body ∷ signature ∷ []) = verify_parts head body signature
  by_parts (a ∷ b ∷ c ∷ d ∷ rest) = malformed_jwt

  unfoldable pub verify_callback_jwt : Str → Result JwtClaims
  unfolding by_parts split
  verify_callback_jwt token = by_parts (split b'.' token)

-- `callbackJWTMiddleware`: an answer, or the bot ID that the handler finds in its context, empty if
-- nothing was verified.
abbrev write_jwt_error : Str → Reply
write_jwt_error msg = write_error 401 msg

module _ (lib : JwtCodec) (now : ℕ) where
  verified : Result JwtClaims → Reply ⊎ Str
  verified (fail e) = inl (write_jwt_error (codes "JWT verification failed"))
  verified (ok claims) = inr claims.aud

  unfoldable pub callback_jwt_middleware :
      Option (Str → Result Str) → Bool → Option Str → Reply ⊎ Str
  unfolding verified has_prefix
  callback_jwt_middleware secret_lookup false authorization = inr []
  callback_jwt_middleware none true authorization =
      inl (write_jwt_error (codes "JWT verification is not configured"))
  callback_jwt_middleware (some lookup) true authorization =
      let auth = header_value authorization in
      if null auth
      then inl (write_jwt_error (codes "missing Authorization header"))
      else if not (has_prefix auth bearer)
      then inl (write_jwt_error (codes "Authorization header must use Bearer scheme"))
      else if null (drop (length bearer) auth)
      then inl (write_jwt_error (codes "empty Bearer token"))
      else verified (verify_callback_jwt lib lookup now (drop (length bearer) auth))
