-- ===== src/Text/Subset.antt =====
-- Counting: a list without repetitions that lies in another is no longer than it.
use express_botx.Common.{
  Bool-cases, List, [], ap, arith, false, if◌then◌else◌, inl, inr, length, suc, sym, true, ◌∷◌, ◌≡◌,
  ◌≢◌, ◌≤◌,
}
use express_botx.Text.{Str, elem, str_eq}
use express_botx.Text.Dedup.{IsDistinct}
use express_botx.Text.Equality.{elem_later, eq→str_eq, str_eq_iff, str_eq_self}

abbrev pub Within : List Str → List Str → Type 0
Within xs ys = (s : Str) → elem s xs ≡ true → elem s ys ≡ true

erase : Str → List Str → List Str
erase x [] = []
erase x (y ∷ ys) = if str_eq y x then ys else y ∷ erase x ys

length-erase : (x : Str) (ys : List Str) → elem x ys ≡ true → suc (length (erase x ys)) ≡ length ys
unfolding erase elem
length-erase x [] h = cc
length-erase x (y ∷ ys) h = ground (arith, length-erase x ys)

elem-erase : (x s : Str) (ys : List Str) → elem s ys ≡ true → s ≢ x → elem s (erase x ys) ≡ true
unfolding erase elem
elem-erase x s [] h n = cc
elem-erase x s (y ∷ ys) h n = ground (arith, elem-erase x s ys, str_eq_iff y x, str_eq_iff y s)

Within-erase :
    (x : Str) (xs ys : List Str) → elem x xs ≡ false → Within (x ∷ xs) ys → Within xs (erase x ys)
Within-erase x xs ys fresh w s h =
    elem-erase x s ys (w s (unfold elem in ground arith)) (λ e. cc (ap (λ z. elem z xs) e))

pub length-le_of_Within : (xs ys : List Str) → IsDistinct xs → Within xs ys → length xs ≤ length ys
length-le_of_Within [] ys d w = omega arith
length-le_of_Within (x ∷ xs) ys (fresh, d) w = omega (
  arith,
  length-erase x ys (w x (unfold elem in ground (arith, str_eq_self x))),
  length-le_of_Within xs (erase x ys) d (Within-erase x xs ys fresh w),
)

-- If it is no shorter, the two lists hold the same strings.
pub Within-sym :
    (xs ys : List Str) → IsDistinct xs → Within xs ys → length ys ≤ length xs → Within ys xs
Within-sym [] [] d w l s h = h
Within-sym [] (y ∷ ys) d w l s h = absurd (omega arith)
Within-sym (x ∷ xs) ys (fresh, d) w l s h = elim (Bool-cases (str_eq x s)) [
  | inl e ↦ unfold elem in ground arith
  | inr n ↦
      let here : elem x ys ≡ true = w x (unfold elem in ground (arith, str_eq_self x)) in
      let rest : elem s xs ≡ true =
        Within-sym xs (erase x ys) d (Within-erase x xs ys fresh w)
          (omega (arith, length-erase x ys here)) s
          (elem-erase x s ys h (λ e. ground (arith, eq→str_eq x s (sym e)))) in
      elem_later s x xs rest
]
