-- ===== src/Mentions/Parse.antt =====
-- `Parse`: the tokens of a message become placeholders and mention entries. Looking a user up and
-- drawing an id may change a state `S`; encoding/json is a parameter.
pub mod Laws
pub mod Loop
pub mod Outcome
use express_botx.Common.{
  Bool, List, Option, [], drop, false, if◌then◌else◌, inl, inr, ltb, map, none, not, null, some,
  true, ℕ, ◌++◌, ◌+◌, ◌∷◌, ◌⊎◌,
}
use express_botx.Errors.{Result, fail, ok}
use express_botx.Mentions.Scan.{TokenSpan, body_text, raw_text, scan, slice}
use express_botx.Mentions.Token.{ParsedToken, email, huid, parse_token_body}
use express_botx.Server.Bots.{quoted}
use express_botx.Text.{Str, codes, str_eq}

pub record MentionData : Type 0 where
  pub user_huid : Str
  pub name : Str

pub record MentionEntry : Type 0 where
  pub mention_id : Str
  pub mention_type : Str
  pub mention_data : Option MentionData

pub record ParseError : Type 0 where
  pub kind : Str
  pub token : Str
  pub resolver : Str
  pub value : Str
  pub cause : Str

pub record ParseResult : Type 0 where
  pub message : Str
  pub mentions : Str
  pub errors : List ParseError

-- The elements of an array, none where it cannot be read; an entry's text; an array's text.
pub record MergeCodec : Type 0 where
  pub raw_array : Str → List Str
  pub entry_json : MentionEntry → Str
  pub array_json : List Str → Str

unfoldable pub merge_mentions : MergeCodec → Str → List MentionEntry → Str
merge_mentions json raw [] = raw
merge_mentions json raw (e ∷ es) =
    json.array_json ((if null raw then [] else json.raw_array raw) ++ map json.entry_json (e ∷ es))

abbrev pub placeholder : MentionEntry → Str
placeholder e = codes "@{mention:" ++ (e.mention_id ++ codes "}")

abbrev parse_error : Str → Str → ParseError
parse_error raw cause = record {
  kind = codes "parse";
  token = raw;
  resolver = [];
  value = [];
  cause = cause;
}

-- The text of the limit's number is left out.
abbrev limit_error : ParseError
limit_error = record {
  kind = codes "limit";
  token = [];
  resolver = [];
  value = [];
  cause = codes "reached maximum of parsed mentions";
}

-- The variables of the loop; `out` is the buffer.
pub record Parsing (S : Type 0) : Type 0 where
  pub out : Str
  pub errs : List ParseError
  pub parsed : List MentionEntry
  pub cursor : ℕ
  pub processed : ℕ
  pub limit_hit : Bool
  pub state : S

module _ {S : Type 0} (new_mention_id : S → Str × S)
    (get_user_by_email : Option (Str → S → Result (Str × Str) × S)) where
  abbrev lookup_error : ParsedToken → Str → Str → ParseError
  lookup_error pt raw cause = record {
    kind = codes "lookup";
    token = raw;
    resolver = email;
    value = pt.value;
    cause = cause;
  }

  abbrev user_entry : Str → Str → Str → MentionEntry
  user_entry id user name = record {
    mention_id = id;
    mention_type = codes "user";
    mention_data = some (record { user_huid = user; name = name });
  }

  normalize_user : Str → Str → S → (ParseError ⊎ MentionEntry) × S
  normalize_user user name s =
      let (id, s') = new_mention_id s in (inr (user_entry id user name), s')

  normalize_all : S → (ParseError ⊎ MentionEntry) × S
  normalize_all s =
      let (id, s') = new_mention_id s in
      (inr (record { mention_id = id; mention_type = codes "all"; mention_data = none }), s')

  found_user : ParsedToken → Str → Result (Str × Str) × S → (ParseError ⊎ MentionEntry) × S
  found_user pt raw (fail e, s) = (inl (lookup_error pt raw e.message), s)
  found_user pt raw (ok (user, name), s) =
      normalize_user user (if null pt.display_name then name else pt.display_name) s

  normalize_email : ParsedToken → Str → S → (ParseError ⊎ MentionEntry) × S
  normalize_email pt raw s = elim get_user_by_email [
    | none ↦ (inl (lookup_error pt raw (codes "no resolver available")), s)
    | some get ↦ found_user pt raw (get pt.value s)
  ]

  unfoldable pub normalize : ParsedToken → Str → S → (ParseError ⊎ MentionEntry) × S
  unfolding normalize_email normalize_all normalize_user found_user str_eq
  normalize pt raw s =
      if str_eq pt.resolver email
      then normalize_email pt raw s
      else if str_eq pt.resolver huid
      then normalize_user pt.value pt.display_name s
      else if str_eq pt.resolver (codes "all")
      then normalize_all s
      else (inl (parse_error raw (codes "unknown resolver " ++ quoted pt.resolver)), s)

  module _ (query_unescape : Str → Result Str) (max_mentions : ℕ) (msg : Str) where
    -- The token stays as it is.
    abbrev keep : Parsing S → TokenSpan → List ParseError → Parsing S
    keep acc t errs = record acc {
      out = acc.out ++ (slice acc.cursor t.start msg ++ raw_text t msg);
      errs = acc.errs ++ errs;
      cursor = t.stop;
    }

    unfoldable pub resolved_token :
        Parsing S → TokenSpan → (ParseError ⊎ MentionEntry) × S → Parsing S
    resolved_token acc t (inl e, s) = keep (record acc { state = s }) t (e ∷ [])
    resolved_token acc t (inr entry, s) = record acc {
      out = acc.out ++ (slice acc.cursor t.start msg ++ placeholder entry);
      parsed = acc.parsed ++ entry ∷ [];
      cursor = t.stop;
      state = s;
    }

    unfoldable pub well_formed : Parsing S → TokenSpan → ParsedToken → Parsing S
    well_formed acc t pt =
        let acc' = record acc { processed = acc.processed + 1 } in
        if ltb max_mentions (acc.processed + 1)
        then keep (record acc' { limit_hit = true }) t (limit_error ∷ [])
        else resolved_token acc' t (normalize pt (raw_text t msg) acc.state)

    unfoldable pub parse_step : Parsing S → TokenSpan → Parsing S
    parse_step acc t =
        if acc.limit_hit
        then keep acc t []
        else if t.unclosed
        then keep acc t (parse_error (raw_text t msg) (codes "unclosed token") ∷ [])
        else elim (parse_token_body query_unescape (body_text t msg)) [
          | fail e ↦ keep acc t (parse_error (raw_text t msg) e.message ∷ [])
          | ok pt ↦ well_formed acc t pt
        ]

    unfoldable pub parse_loop : List TokenSpan → Parsing S → Parsing S
    parse_loop [] acc = acc
    parse_loop (t ∷ tokens) acc = parse_loop tokens (parse_step acc t)

    abbrev pub fresh_parsing : S → Parsing S
    fresh_parsing s = record {
      out = [];
      errs = [];
      parsed = [];
      cursor = 0;
      processed = 0;
      limit_hit = false;
      state = s;
    }

    unfoldable pub parse_tokens : S → Parsing S
    parse_tokens s = parse_loop (scan max_mentions msg) (fresh_parsing s)

    abbrev pub parse_result : MergeCodec → Str → Parsing S → ParseResult × S
    parse_result json raw_mentions p = (
      record {
        message = p.out ++ drop p.cursor msg;
        mentions = merge_mentions json raw_mentions p.parsed;
        errors = p.errs;
      },
      p.state,
    )

    -- `Parse`
    unfoldable pub parse_mentions : MergeCodec → Str → Bool → S → ParseResult × S
    parse_mentions json raw_mentions parse_enabled s =
        if not parse_enabled
        then (record { message = msg; mentions = raw_mentions; errors = [] }, s)
        else if null (scan max_mentions msg)
        then (record { message = msg; mentions = raw_mentions; errors = [] }, s)
        else parse_result json raw_mentions (parse_tokens s)
