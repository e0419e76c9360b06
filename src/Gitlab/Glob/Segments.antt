-- ===== src/Gitlab/Glob/Segments.antt =====
-- The loop of `globMatch` decides whether the segments fit.
use express_botx.Common.{
  List, Option-cases, [], ap, append_assoc, drop, inl, inr, length, refl, sym, true, ◌++◌, ◌+◌, ◌∙◌,
  ◌∷◌, ◌≡◌,
}
use express_botx.Gitlab.Glob.{glob_rest}
use express_botx.Gitlab.Glob.Spec.{Floats}
use express_botx.Text.{Str, index}
use express_botx.Text.Search.{has_suffix_iff, index-first, index-split}

pub glob_rest_sound :
    (q : Str) (qs : List Str) (v : Str) → glob_rest (q ∷ qs) v ≡ true → Floats (q ∷ qs) v
unfolding glob_rest
glob_rest_sound q [] v h = let (a, e) = (has_suffix_iff v q).0 h in (a, q, e, refl)
glob_rest_sound q (r ∷ rs) v h = elim (Option-cases (index v q)) [
  | inl e ↦ cc (rw (e, glob_rest) at h)
  | inr (i, e) ↦
      let (skip, rest, e', f) =
        glob_rest_sound r rs (drop (i + length q) v) (rw (e, glob_rest) at h) in
      let (before, e'') = index-split v q i e in
      (before, q ++ (skip ++ rest), e'' ∙ ap (λ z. before ++ (q ++ z)) e', (skip, rest, refl, f))
]

pub glob_rest_complete :
    (q : Str) (qs : List Str) (v : Str) → Floats (q ∷ qs) v → glob_rest (q ∷ qs) v ≡ true
unfolding glob_rest
glob_rest_complete q [] v (skip, rest, e, f) = (has_suffix_iff v q).1 (skip, rw f at e)
glob_rest_complete q (r ∷ rs) v (a, rest, e, (skip, last, e', f)) =
    let (i, z, p, t) = index-first a q (skip ++ last) in
    let whole : v ≡ a ++ (q ++ (skip ++ last)) = rw e' at e in
    rw whole (
      rw (p, glob_rest)
        (glob_rest_complete r rs _ (z ++ skip, last, t ∙ sym (append_assoc z skip last), f)))
