-- ===== src/Base/Membership.antt =====
-- Membership in appended, filtered and sorted lists.
use mathlib.Core.Path.{◌≡◌, ap, subst}
use mathlib.Core.Logic.{◌↔◌, ◌⊎◌, inl, inr}
use mathlib.Core.Bool.{Bool, true}
use mathlib.Core.List.{List, [], ◌∷◌, ◌++◌}
use native.Mathlib.Omega.{arith}
use react_ai_healthycare.Base.Lists.{Elem, All-elem, filter}
use react_ai_healthycare.Base.Sort.{insert_sorted, sort_by, IsSorted}

module _ {A : Type 0} where
  pub Elem-append : (x : A) (xs ys : List A) → Elem x (xs ++ ys) ↔ (Elem x xs ⊎ Elem x ys)
  Elem-append x [] ys = ground arith
  Elem-append x (y ∷ xs) ys = ground (arith, Elem-append x xs ys)

  pub Elem-insert_sorted :
      (p : A → A → Bool) (x y : A) (xs : List A)
      → Elem x (insert_sorted p y xs) ↔ ((y ≡ x) ⊎ Elem x xs)
  Elem-insert_sorted p x y [] = ground arith
  Elem-insert_sorted p x y (z ∷ xs) = ground (arith, Elem-insert_sorted p x y xs)

  pub Elem-sort_by : (p : A → A → Bool) (x : A) (xs : List A) → Elem x (sort_by p xs) ↔ Elem x xs
  Elem-sort_by p x [] = ground arith
  Elem-sort_by p x (y ∷ xs) =
      ground (arith, Elem-insert_sorted p x y (sort_by p xs), Elem-sort_by p x xs)

  same_test : (p : A → Bool) (x y : A) → x ≡ y → p x ≡ p y
  same_test p x y e = ap p e

  pub Elem-filter :
      (p : A → Bool) (x : A) (xs : List A) → Elem x (filter p xs) ↔ (Elem x xs × (p x ≡ true))
  Elem-filter p x [] = ground arith
  Elem-filter p x (y ∷ xs) = ground (arith, same_test p y x, Elem-filter p x xs)

  -- In order, what is in front may stand before what is behind.
  pub sorted-append :
      (p : A → A → Bool) (xs ys : List A) (x y : A)
      → IsSorted p (xs ++ ys)
      → Elem x xs
      → Elem y ys
      → p x y ≡ true
  sorted-append p [] ys x y s e f = elim e [ ]
  sorted-append p (z ∷ xs) ys x y s (inl q) f =
      subst (λ w. p w y ≡ true) q
        (All-elem (λ b. p z b ≡ true) (xs ++ ys) s.0 ((Elem-append y xs ys).1 (inr f)))
  sorted-append p (z ∷ xs) ys x y s (inr e) f = sorted-append p xs ys x y s.1 e f
