-- ===== src/Gitlab/Templates.antt =====
-- The template registry of internal/server/handler_gitlab.go. A parsed template is a value of an
-- arbitrary type `T`; parsing and executing one belong to text/template.
use express_botx.Common.{List, if◌then◌else◌, length, none, not, null, some, take, ◌-◌}
use express_botx.Server.Config.{get_key}
use express_botx.Text.{Str, codes, has_suffix}

pub record GitlabTemplates (T : Type 0) : Type 0 where
  pub by_key : List (Str × T)
  pub fallback : T

-- `canonGitlabTemplateKey`, with `strings.CutSuffix`.
unfoldable pub canon_template_key : Str → Str
canon_template_key key = if has_suffix key (codes ".*") then take (length key - 2) key else key

unfoldable pub select_template : {T : Type 0} → GitlabTemplates T → Str → Str → T
unfolding get_key
select_template gt kind key = elim (get_key gt.by_key key) [
  | some t ↦ t
  | none ↦
      if not (null kind)
      then elim (get_key gt.by_key kind) [ some t ↦ t | none ↦ gt.fallback ]
      else gt.fallback
]
