-- ===== src/Gitlab/Routing/Selector.antt =====
-- From a selector to the candidate values for an event.
use express_botx.Common.{
  List, Option, [], drop, false, if◌then◌else◌, length, none, null, some, true, ◌&&◌, ◌++◌, ◌==◌,
  ◌∷◌,
}
use express_botx.Gitlab.Payload.{
  Fields, GitlabView, Items, Json, array, bool_value, gitlab_nested_get, gitlab_string_at, item,
  no_items, number, one_of, or_else, text,
}
use express_botx.Text.{Str, codes, has_prefix, str_eq}

-- `strings.CutPrefix` by the first of the prefixes that fits.
cut_ref : List Str → Str → Option Str
cut_ref [] ref = none
cut_ref (prefix ∷ ps) ref =
    if has_prefix ref prefix then some (drop (length prefix) ref) else cut_ref ps ref

abbrev ref_prefixes : List Str
ref_prefixes = codes "refs/heads/" ∷ codes "refs/tags/" ∷ []

-- `path.Base`
strip_slashes : Str → Str
strip_slashes [] = []
strip_slashes (c ∷ s) =
    let rest = strip_slashes s in if c == b'/' && null rest then [] else c ∷ rest

after_slash : Str → Str → Str
after_slash cur [] = cur
after_slash cur (c ∷ s) = after_slash (if c == b'/' then [] else cur ++ c ∷ []) s

path_base : Str → Str
path_base s =
    if null s
    then codes "."
    else let base = after_slash [] (strip_slashes s) in if null base then codes "/" else base

unfoldable pub ref_branch : Str → Str
unfolding cut_ref path_base after_slash strip_slashes has_prefix
ref_branch ref =
    if null ref then [] else elim (cut_ref ref_prefixes ref) [ none ↦ path_base ref | some s ↦ s ]

unfoldable pub ref_branch_bare : Str → Str
unfolding cut_ref has_prefix
ref_branch_bare ref = elim (cut_ref ref_prefixes ref) [ none ↦ ref | some s ↦ s ]

unfoldable pub gitlab_branch : Str → Fields → Str
unfolding ref_branch ref_branch_bare
gitlab_branch kind raw =
    if one_of kind (codes "merge_request" ∷ codes "note" ∷ [])
    then or_else (gitlab_string_at raw (codes "object_attributes.target_branch"))
        (gitlab_string_at raw (codes "merge_request.target_branch"))
    else if one_of kind (codes "push" ∷ codes "tag_push" ∷ [])
    then ref_branch (gitlab_string_at raw (codes "ref"))
    else if str_eq kind (codes "build")
    then ref_branch_bare (gitlab_string_at raw (codes "ref"))
    else if str_eq kind (codes "pipeline")
    then gitlab_string_at raw (codes "object_attributes.ref")
    else []

unfoldable pub gitlab_project : Fields → Str
gitlab_project raw =
    or_else (gitlab_string_at raw (codes "project.path_with_namespace"))
      (gitlab_string_at raw (codes "project.name"))

abbrev pub non_empty : Str → List Str
non_empty v = if null v then [] else v ∷ []

-- `gitlabScalarString`
unfoldable pub scalar_string : Json → Option Str
scalar_string (text x) = some x
scalar_string (bool_value true) = some (codes "true")
scalar_string (bool_value false) = some (codes "false")
scalar_string (number x) = some x
scalar_string v = none

abbrev push_some : Option Str → List Str → List Str
push_some none out = out
push_some (some s) out = s ∷ out

item_strings : Items → List Str
item_strings no_items = []
item_strings (item e es) = push_some (scalar_string e) (item_strings es)

-- `gitlabSelectorStrings`
unfoldable pub selector_strings : Json → List Str
unfolding item_strings scalar_string
selector_strings (array x) = item_strings x
selector_strings v = push_some (scalar_string v) []

unfoldable pub resolve_selector : GitlabView → Str → List Str
unfolding gitlab_branch gitlab_project selector_strings
resolve_selector view selector =
    if str_eq selector (codes "kind")
    then non_empty view.kind
    else if str_eq selector (codes "event")
    then non_empty view.event_key
    else if str_eq selector (codes "action")
    then non_empty view.action
    else if str_eq selector (codes "project")
    then non_empty (gitlab_project view.raw)
    else if str_eq selector (codes "branch")
    then non_empty (gitlab_branch view.kind view.raw)
    else if str_eq selector (codes "user")
    then non_empty view.user
    else if str_eq selector (codes "title")
    then non_empty view.title
    else if str_eq selector (codes "url")
    then non_empty view.url
    else selector_strings (gitlab_nested_get view.raw selector)
