-- ===== src/Gitlab/Glob.antt =====
-- `globMatch` of internal/server/gitlab_routing.go.
pub mod Spec
pub mod Segments
pub mod Laws
use express_botx.Common.{
  Bool, List, [], drop, false, if◌then◌else◌, length, none, some, true, ℕ, ◌+◌, ◌∷◌,
}
use express_botx.Text.{Str, has_prefix, has_suffix, index, split, str_eq}

abbrev pub asterisk : ℕ
asterisk = 42

-- The loop over the interior segments, then the test of the last one; the list is `parts[1:]`.
unfoldable pub glob_rest : List Str → Str → Bool
glob_rest [] value = true
glob_rest (last ∷ []) value = has_suffix value last
glob_rest (mid ∷ next ∷ more) value = elim (index value mid) [
  | none ↦ false
  | some idx ↦ glob_rest (next ∷ more) (drop (idx + length mid) value)
]

glob_parts : List Str → Str → Str → Bool
glob_parts [] pattern value = true
glob_parts (only ∷ []) pattern value = str_eq pattern value
glob_parts (first ∷ next ∷ more) pattern value =
    let rest = glob_rest (next ∷ more) (drop (length first) value) in
    if has_prefix value first then rest else false

unfoldable pub glob_match : Str → Str → Bool
unfolding glob_parts glob_rest split index has_prefix has_suffix str_eq
glob_match pattern value = glob_parts (split asterisk pattern) pattern value
