-- ===== src/Gitlab/Payload.antt =====
-- The decoded payload and the view of it: the first half of internal/server/handler_gitlab.go and
-- the selectors of internal/server/gitlab_routing.go.
use express_botx.Common.{
  Bool, List, Option, [], false, if◌then◌else◌, none, not, null, some, true, ◌&&◌, ◌++◌, ◌||◌, ◌∷◌,
}
use express_botx.Text.{Str, codes, split, str_eq}

-- `map[string]any` and what it holds. A number is given by its text under
-- `strconv.FormatFloat(x, 'f', -1, 64)`, which is all that the source reads of it; a nil map and
-- an empty one are read alike.
mutual
  pub data Json : Type 0 where
    null_value : Json
    bool_value : Bool → Json
    number : Str → Json
    text : Str → Json
    array : Items → Json
    object : Fields → Json

  pub data Items : Type 0 where
    no_items : Items
    item : Json → Items → Items

  pub data Fields : Type 0 where
    no_fields : Fields
    field : Str → Json → Fields → Fields

get_field : Fields → Str → Option Json
get_field no_fields key = none
get_field (field k v fs) key = if str_eq k key then some v else get_field fs key

-- The loop of `gitlabNestedGet`; nil is `null_value`.
walk : List Str → Json → Json
walk [] cur = cur
walk (part ∷ parts) (object fs) = elim (get_field fs part) [
  | none ↦ null_value
  | some v ↦ walk parts v
]
walk (part ∷ parts) cur = null_value

unfoldable pub gitlab_nested_get : Fields → Str → Json
unfolding walk get_field split
gitlab_nested_get m path =
    let found = walk (split b'.' path) (object m) in if null path then null_value else found

abbrev text_or_empty : Json → Str
text_or_empty (text s) = s
text_or_empty v = []

unfoldable pub gitlab_string_at : Fields → Str → Str
unfolding gitlab_nested_get
gitlab_string_at m path = text_or_empty (gitlab_nested_get m path)

-- `kind` is one of the listed ones: a `case` of a `switch`.
abbrev pub one_of : Str → List Str → Bool
one_of kind [] = false
one_of kind (k ∷ ks) = str_eq kind k || one_of kind ks

-- The first text that is not empty.
abbrev pub or_else : Str → Str → Str
or_else s fallback = if null s then fallback else s

derive_subtype : Fields → Str → Str
derive_subtype raw kind =
    if one_of kind (codes "merge_request" ∷ codes "issue" ∷ [])
    then gitlab_string_at raw (codes "object_attributes.action")
    else if str_eq kind (codes "note")
    then gitlab_string_at raw (codes "object_attributes.noteable_type")
    else if str_eq kind (codes "pipeline")
    then gitlab_string_at raw (codes "object_attributes.status")
    else if str_eq kind (codes "build")
    then gitlab_string_at raw (codes "build_status")
    else if one_of kind (codes "push" ∷ codes "tag_push" ∷ [])
    then []
    else or_else (gitlab_string_at raw (codes "object_attributes.action")) (
        or_else (gitlab_string_at raw (codes "object_attributes.status"))
          (gitlab_string_at raw (codes "status")))

abbrev pub event_key_of : Str → Str → Str
event_key_of kind subtype =
    if null kind then [] else if null subtype then kind else kind ++ (codes "." ++ subtype)

-- kind, subtype and event key
unfoldable pub derive_event_key : Fields → Str × Str × Str
unfolding derive_subtype
derive_event_key raw =
    let kind = gitlab_string_at raw (codes "object_kind") in
    let subtype = derive_subtype raw kind in (kind, subtype, event_key_of kind subtype)

pub record GitlabView : Type 0 where
  pub kind : Str
  pub action : Str
  pub event_key : Str
  pub project : Str
  pub user : Str
  pub title : Str
  pub url : Str
  pub raw : Fields

unfoldable pub normalize_gitlab : Fields → GitlabView
unfolding derive_event_key
normalize_gitlab m =
    let (k, subtype, key) = derive_event_key m in
    record {
      kind = k;
      action = or_else (gitlab_string_at m (codes "object_attributes.action")) subtype;
      event_key = key;
      project =
          or_else (gitlab_string_at m (codes "project.name"))
            (gitlab_string_at m (codes "project.path_with_namespace"));
      user = or_else (gitlab_string_at m (codes "user.name")) (
          or_else (gitlab_string_at m (codes "user.username"))
            (gitlab_string_at m (codes "user_name")));
      title = gitlab_string_at m (codes "object_attributes.title");
      url =
          or_else (gitlab_string_at m (codes "object_attributes.url"))
            (gitlab_string_at m (codes "project.web_url"));
      raw = m;
    }

unfoldable pub event_matches : Str → Str → List Str → Bool
event_matches kind key [] = false
event_matches kind key (e ∷ es) =
    (str_eq e key || str_eq e kind || str_eq e (kind ++ codes ".*")) || event_matches kind key es

unfoldable pub passes_filter : Str → Str → List Str → List Str → Bool
passes_filter kind key only exclude =
    if not (null only) && not (event_matches kind key only)
    then false
    else if event_matches kind key exclude
    then false
    else true
