-- ===== src/Mentions/Token.antt =====
-- `parseTokenBody`: the grammar of a token. `url.QueryUnescape` is a parameter.
pub mod Laws
use express_botx.Common.{[], drop, if◌then◌else◌, none, not, null, some, take, ◌&&◌, ◌++◌, ◌+◌}
use express_botx.Errors.{Result, fail, new_error, ok}
use express_botx.Server.Bots.{quoted}
use express_botx.Text.{Str, codes, contains, has_prefix, index, str_eq}
use express_botx.Text.Character.{single}

pub record ParsedToken : Type 0 where
  pub resolver : Str
  pub value : Str
  pub display_name : Str

abbrev pub all_token : ParsedToken
all_token = record { resolver = codes "all"; value = []; display_name = [] }

abbrev pub email : Str
email = codes "email"

abbrev pub huid : Str
huid = codes "huid"

abbrev pub no_colon : Str → Result ParsedToken
no_colon body =
    if has_prefix body (codes "all;")
    then fail (new_error (codes "'all' does not accept value or display name"))
    else fail (new_error (codes "unknown resolver " ++ quoted body))

module _ (query_unescape : Str → Result Str) where
  -- The test after the value and the name are known.
  unfoldable pub with_value : Str → Str → Str → Result ParsedToken
  with_value resolver value display_name =
      if null value
      then fail (new_error (codes "empty value for resolver " ++ quoted resolver))
      else ok (record { resolver = resolver; value = value; display_name = display_name })

  unfoldable pub with_name : Str → Str → Str → Result ParsedToken
  with_name resolver value raw =
      if contains raw (single b';')
      then fail (new_error (codes "display name contains raw semicolon; use %3B to encode"))
      else elim (query_unescape raw) [
        | fail e ↦ fail (new_error (codes "invalid URL encoding in display name: " ++ e.message))
        | ok decoded ↦ with_value resolver value decoded
      ]

  unfoldable pub with_rest : Str → Str → Result ParsedToken
  with_rest resolver rest = elim (index rest (single b';')) [
    | none ↦ with_value resolver rest []
    | some semi ↦ with_name resolver (take semi rest) (drop (semi + 1) rest)
  ]

  unfoldable pub with_resolver : Str → Str → Result ParsedToken
  with_resolver resolver rest =
      if not (str_eq resolver email) && not (str_eq resolver huid)
      then fail (new_error (codes "unknown resolver " ++ quoted resolver))
      else with_rest resolver rest

  unfoldable pub parse_token_body : Str → Result ParsedToken
  parse_token_body body =
      if str_eq body (codes "all") then ok all_token else elim (index body (single b':')) [
        | none ↦ no_colon body
        | some colon ↦ with_resolver (take colon body) (drop (colon + 1) body)
      ]
