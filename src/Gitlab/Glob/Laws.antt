-- ===== src/Gitlab/Glob/Laws.antt =====
-- `globMatch` decides the meaning of a pattern.
use express_botx.Common.{
  List, [], ap, arith, drop, drop-length-append, length, refl, sym, true, ◌++◌, ◌↔◌, ◌∙◌, ◌∷◌, ◌≡◌,
}
use express_botx.Gitlab.Glob.{asterisk, glob_match, glob_parts}
use express_botx.Gitlab.Glob.Segments.{glob_rest_complete, glob_rest_sound}
use express_botx.Gitlab.Glob.Spec.{Fits, Fits→Matches, Matches, Matches→Fits}
use express_botx.Text.{Str, has_prefix, split}
use express_botx.Text.Equality.{eq→str_eq, str_eq→eq}
use express_botx.Text.Search.{has_prefix-append, has_prefix→eq}
use express_botx.Text.Split.{split-cons, split-single}

glob_parts_iff :
    (q : Str) (qs : List Str) (pattern v : Str)
    → (qs ≡ [] → q ≡ pattern)
    → (glob_parts (q ∷ qs) pattern v ≡ true) ↔ Fits (q ∷ qs) v
unfolding glob_parts
glob_parts_iff q [] pattern v h = (
  λ e. sym (str_eq→eq pattern v e) ∙ sym (h refl),
  λ f. eq→str_eq pattern v (sym (h refl) ∙ sym f),
)
glob_parts_iff q (r ∷ rs) pattern v h = (sound, complete)
  where
    sound : glob_parts (q ∷ r ∷ rs) pattern v ≡ true → Fits (q ∷ r ∷ rs) v
    sound e =
        let starts : has_prefix v q ≡ true = ground arith in
        let (skip, rest, e', f) = glob_rest_sound r rs (drop (length q) v) (ground arith) in
        (skip, rest, has_prefix→eq v q starts ∙ ap (λ z. q ++ z) e', f)

    complete : Fits (q ∷ r ∷ rs) v → glob_parts (q ∷ r ∷ rs) pattern v ≡ true
    complete (skip, rest, e, f) = rw e (
        rw (has_prefix-append q (skip ++ rest), drop-length-append q (skip ++ rest))
          (glob_rest_complete r rs (skip ++ rest) (skip, rest, refl, f)))

-- The greedy search of `globMatch` answers true exactly when the value can be divided as the
-- pattern says: every `*` a run of characters, every other character itself.
pub glob_match_iff : (pattern v : Str) → (glob_match pattern v ≡ true) ↔ Matches pattern v
glob_match_iff pattern v = (
  λ e. Fits→Matches pattern v ((parts v).0 (unfold glob_match in e)),
  λ m. unfold glob_match in (parts v).1 (Matches→Fits m),
)
  where
    parts :
        (w : Str)
        → (glob_parts (split asterisk pattern) pattern w ≡ true) ↔ Fits (split asterisk pattern) w
    parts w =
        let (q, qs, e) = split-cons asterisk pattern in
        rw e (
          glob_parts_iff q qs pattern w
            λ n. split-single asterisk pattern q (e ∙ ap (λ z. q ∷ z) n))
