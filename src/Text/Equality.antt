-- ===== src/Text/Equality.antt =====
-- Equality of strings and membership in a set of them are decided rightly.
use express_botx.Common.{List, [], arith, refl, true, ◌++◌, ◌||◌, ◌↔◌, ◌∷◌, ◌≡◌}
use express_botx.Text.{Str, elem, str_eq}

pub str_eq→eq : (a b : Str) → str_eq a b ≡ true → a ≡ b
unfolding str_eq
str_eq→eq [] [] h = refl
str_eq→eq (x ∷ xs) (y ∷ ys) h = ground (arith, str_eq→eq xs ys)
str_eq→eq [] (y ∷ ys) h = ground arith
str_eq→eq (x ∷ xs) [] h = ground arith

pub str_eq_self : (a : Str) → str_eq a a ≡ true
unfolding str_eq
str_eq_self [] = refl
str_eq_self (x ∷ xs) = ground (arith, str_eq_self xs)

pub eq→str_eq : (a b : Str) → a ≡ b → str_eq a b ≡ true
eq→str_eq a b e = ground (arith, str_eq_self a)

pub str_eq_iff : (a b : Str) → (str_eq a b ≡ true) ↔ (a ≡ b)
str_eq_iff a b = (str_eq→eq a b, eq→str_eq a b)

pub elem-append : (s : Str) (xs ys : List Str) → elem s (xs ++ ys) ≡ (elem s xs || elem s ys)
unfolding elem
elem-append s [] ys = refl
elem-append s (x ∷ xs) ys = ground (arith, elem-append s xs ys)

pub elem_later : (s x : Str) (xs : List Str) → elem s xs ≡ true → elem s (x ∷ xs) ≡ true
unfolding elem
elem_later s x xs h = ground arith

pub elem_here : (x : Str) (xs : List Str) → elem x (x ∷ xs) ≡ true
unfolding elem
elem_here x xs = ground (arith, str_eq_self x)
