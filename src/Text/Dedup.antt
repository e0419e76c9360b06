-- ===== src/Text/Dedup.antt =====
-- Lists of strings without repetitions: what the source's `seen` maps are for.
use express_botx.Common.{
  Bool-cases, List, [], ap, append-nil, append_assoc, arith, false, if◌then◌else◌, inl, inr, not,
  refl, sym, true, ◌&&◌, ◌++◌, ◌∙◌, ◌∷◌, ◌≡◌,
}
use express_botx.Text.{Str, elem}
use express_botx.Text.Equality.{str_eq_iff, str_eq_self}

-- The strings of the second list that are not in the first, in their order.
unfoldable pub minus : List Str → List Str → List Str
unfolding elem
minus seen [] = []
minus seen (y ∷ ys) = let rest = minus seen ys in if elem y seen then rest else y ∷ rest

-- The first occurrence of each string, in order.
unfoldable pub dedup : List Str → List Str
unfolding minus
dedup [] = []
dedup (x ∷ xs) = x ∷ minus (x ∷ []) (dedup xs)

-- The source's loop: a string not yet in `seen` is noted there and appended.
unfoldable pub dedup_loop : List Str → List Str → List Str → List Str × List Str
unfolding elem
dedup_loop seen out [] = (seen, out)
dedup_loop seen out (x ∷ xs) =
    let again = dedup_loop seen out xs in
    let fresh = dedup_loop (x ∷ seen) (out ++ x ∷ []) xs in if elem x seen then again else fresh

abbrev pub IsDistinct : List Str → Type 0
IsDistinct [] = Unit
IsDistinct (x ∷ xs) = (elem x xs ≡ false) × IsDistinct xs

minus-cons : (x : Str) (seen ys : List Str) → minus (x ∷ seen) ys ≡ minus seen (minus (x ∷ []) ys)
unfolding minus
minus-cons x seen [] = refl
minus-cons x seen (y ∷ ys) = unfold elem in ground (arith, minus-cons x seen ys, str_eq_iff x y)

minus-minus_of_elem :
    (x : Str) (seen ys : List Str)
    → elem x seen ≡ true
    → minus seen (minus (x ∷ []) ys) ≡ minus seen ys
unfolding minus
minus-minus_of_elem x seen [] h = refl
minus-minus_of_elem x seen (y ∷ ys) h =
    ground (arith, minus-minus_of_elem x seen ys h, str_eq_iff x y)

-- The loop appends the first occurrences of what has not been seen.
pub dedup_loop_lem :
    (seen out xs : List Str) → (dedup_loop seen out xs).1 ≡ out ++ minus seen (dedup xs)
unfolding dedup_loop dedup
dedup_loop_lem seen out [] = sym (append-nil out)
dedup_loop_lem seen out (x ∷ xs) = elim (Bool-cases (elem x seen)) [
  | inl e ↦ rw e (
      dedup_loop_lem seen out xs
      ∙ ap (λ z. out ++ z) (sym (minus-minus_of_elem x seen (dedup xs) e)))
  | inr e ↦ rw e (
      dedup_loop_lem (x ∷ seen) (out ++ x ∷ []) xs
      ∙ append_assoc out _ _
      ∙ ap (λ z. out ++ x ∷ z) (minus-cons x seen (dedup xs)))
]

pub elem-minus :
    (s : Str) (seen ys : List Str) → elem s (minus seen ys) ≡ (elem s ys && not (elem s seen))
unfolding minus
elem-minus s seen [] = refl
elem-minus s seen (y ∷ ys) = ground (arith, elem-minus s seen ys, str_eq_iff y s)

minus-nil : (ys : List Str) → minus [] ys ≡ ys
unfolding minus
minus-nil [] = refl
minus-nil (y ∷ ys) = ap (◌∷◌ y) (minus-nil ys)

-- With nothing seen before, the loop gives the first occurrences.
pub dedup_loop-dedup : (xs : List Str) → (dedup_loop [] [] xs).1 ≡ dedup xs
dedup_loop-dedup xs = dedup_loop_lem [] [] xs ∙ minus-nil (dedup xs)

minus-IsDistinct : (seen ys : List Str) → IsDistinct ys → IsDistinct (minus seen ys)
unfolding minus
minus-IsDistinct seen [] h = tt
minus-IsDistinct seen (y ∷ ys) (fresh, h) = elim (Bool-cases (elem y seen)) [
  | inl e ↦ rw e (minus-IsDistinct seen ys h)
  | inr e ↦ rw e (ground (arith, elem-minus y seen ys), minus-IsDistinct seen ys h)
]

pub dedup-IsDistinct : (xs : List Str) → IsDistinct (dedup xs)
unfolding dedup
dedup-IsDistinct [] = tt
dedup-IsDistinct (x ∷ xs) = (
  rw (elem-minus x (x ∷ []) (dedup xs)) (unfold elem in ground (arith, str_eq_self x)),
  minus-IsDistinct (x ∷ []) (dedup xs) (dedup-IsDistinct xs),
)

pub elem-dedup : (s : Str) (xs : List Str) → elem s (dedup xs) ≡ elem s xs
unfolding dedup
elem-dedup s [] = refl
elem-dedup s (x ∷ xs) =
    let e = elem-minus s (x ∷ []) (dedup xs) in
    let ih = elem-dedup s xs in unfold elem in ground (arith, str_eq_iff x s)

pub dedup_loop-append :
    (seen out xs ys : List Str)
    → dedup_loop (dedup_loop seen out xs).0 (dedup_loop seen out xs).1 ys
      ≡ dedup_loop seen out (xs ++ ys)
unfolding dedup_loop
dedup_loop-append seen out [] ys = refl
dedup_loop-append seen out (x ∷ xs) ys = elim (Bool-cases (elem x seen)) [
  | inl e ↦ rw e (dedup_loop-append seen out xs ys)
  | inr e ↦ rw e (dedup_loop-append (x ∷ seen) (out ++ x ∷ []) xs ys)
]
