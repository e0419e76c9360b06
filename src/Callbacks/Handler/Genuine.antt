-- ===== src/Callbacks/Handler/Genuine.antt =====
-- The command endpoint as a whole: the verification of the token and the handler behind it.
use express_botx.Callbacks.Handler.{CallbackPayload, Received, command_endpoint, received}
use express_botx.Callbacks.Handler.Laws.{Refused, handle_command-cases}
use express_botx.Callbacks.Jwt.{JwtClaims, JwtCodec, callback_jwt_middleware, verify_callback_jwt}
use express_botx.Callbacks.Jwt.Laws.{Genuine, callback_jwt_middleware-Genuine}
use express_botx.Callbacks.Router.{RouterRule}
use express_botx.Common.{
  Bool, List, Option, arith, drop, false, inl, inr, length, none, refl, some, sym, true, ℕ, ◌++◌,
  ◌∙◌, ◌≡◌, ◌⊎◌,
}
use express_botx.Errors.{Result, Result-cases}
use express_botx.MultiSend.Response.{Reply}
use express_botx.Server.Middleware.{bearer, header_value}
use express_botx.Text.{Str}

middleware_status :
    (lib : JwtCodec) (now : ℕ) (secret_lookup : Option (Str → Result Str)) (verify_jwt : Bool)
    (authorization : Option Str) (reply : Reply)
    → callback_jwt_middleware lib now secret_lookup verify_jwt authorization ≡ inl reply
    → reply.status ≡ 401
middleware_status lib now secret_lookup false authorization reply h =
    unfold callback_jwt_middleware in cc
middleware_status lib now none true authorization reply h =
    unfold callback_jwt_middleware in ground arith
middleware_status lib now (some lookup) true authorization reply h =
    let token = drop (length bearer) (header_value authorization) in
    elim (Result-cases (verify_callback_jwt lib lookup now token)) [
      | inr (e, f) ↦ unfold callback_jwt_middleware in ground arith
      | inl (claims, f) ↦ unfold callback_jwt_middleware in ground arith
    ]

-- The request carries a genuine token of the very bot that its payload names.
abbrev pub FromBot :
    JwtCodec → ℕ → Option (Str → Result Str) → Option Str → Received CallbackPayload → Type 0
FromBot lib now secret_lookup authorization body =
    (lookup : Str → Result Str) × (token : Str) × (claims : JwtClaims) × (raw : Str)
    × (p : CallbackPayload) × (secret_lookup ≡ some lookup)
    × (header_value authorization ≡ bearer ++ token)
    × Genuine lib lookup now token claims
    × (body ≡ received raw p)
    × (p.bot_id ≡ claims.aud)

-- With the verification on, a command is refused, with an answer 400, 401 or 403 and without any
-- handler started or run, or it carries a genuine token of the very bot that its payload names:
-- no bot can speak for another.
pub command_endpoint-FromBot :
    {H S : Type 0} (handle : H → Str → Str → S → Result (Unit {0}) × S) (lib : JwtCodec) (now : ℕ)
    (secret_lookup : Option (Str → Result Str)) (authorization : Option Str)
    (rules : List (RouterRule H)) (body : Received CallbackPayload) (s : S)
    → Refused handle s
        (command_endpoint handle lib now secret_lookup true authorization rules body s)
      ⊎ FromBot lib now secret_lookup authorization body
unfolding command_endpoint
command_endpoint-FromBot handle lib now secret_lookup authorization rules body s =
    elim (gate_cases (callback_jwt_middleware lib now secret_lookup true authorization)) [
      | inl (reply, e) ↦
          rw (e, command_endpoint)
            (inl (
              refl,
              inr (inl (middleware_status lib now secret_lookup true authorization reply e)),
            ))
      | inr (aud, e) ↦ elim (handle_command-cases handle rules aud body s) [
        | inl r ↦ rw (e, command_endpoint) (inl r)
        | inr (raw, p, b, _, _, _, same, _, _) ↦
            let (lookup, token, claims, l, t, g, a) =
              callback_jwt_middleware-Genuine lib now secret_lookup authorization aud e in
            let (_, _, _, _, _, _, _, _, _, named, _, _, _) = g in
            inr (
              lookup,
              token,
              claims,
              raw,
              p,
              l,
              t,
              g,
              b,
              elim same [ inl n ↦ absurd (named (a ∙ n)) | inr m ↦ sym m ∙ sym a ],
            )
      ]
    ]
  where
    gate_cases :
        (g : Reply ⊎ Str) → ((reply : Reply) × (g ≡ inl reply)) ⊎ ((aud : Str) × (g ≡ inr aud))
    gate_cases (inl reply) = inl (reply, refl)
    gate_cases (inr aud) = inr (aud, refl)
