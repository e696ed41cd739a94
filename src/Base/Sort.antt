-- ===== src/Base/Sort.antt =====
-- `Array.prototype.sort`, which is stable: insertion before the first element that must come later.
use Prim.Native.Nat.{suc}
use mathlib.Core.Path.{◌≡◌, refl, ap, ◌∙◌}
use mathlib.Core.Logic.{inl, inr}
use mathlib.Core.Bool.{Bool, true, false}
use mathlib.Core.List.{List, [], ◌∷◌, Perm}
use native.Mathlib.Omega.{arith}
use react_ai_healthycare.Base.Tests.{if◌then◌else◌, Bool-cases}
use react_ai_healthycare.Base.Lists.{length, All}
use mathlib.Core.List.Perm

-- `before a b` is that `a` may stand in front of `b`: the comparison gave no positive number.
module _ {ℓ} {A : Type ℓ} (before : A → A → Bool) where
  abbrev pub insert_sorted : A → List A → List A
  insert_sorted a [] = a ∷ []
  insert_sorted a (b ∷ bs) = if before a b then a ∷ b ∷ bs else b ∷ insert_sorted a bs

  abbrev pub sort_by : List A → List A
  sort_by [] = []
  sort_by (a ∷ xs) = insert_sorted a (sort_by xs)

  abbrev pub IsSorted : List A → Type ℓ
  IsSorted [] = Unit
  IsSorted (a ∷ xs) = All (λ b. before a b ≡ true) xs × IsSorted xs

  pub insert_sorted-perm : (a : A) (xs : List A) → Perm (insert_sorted a xs) (a ∷ xs)
  insert_sorted-perm a [] = Perm.refl _
  insert_sorted-perm a (b ∷ bs) = elim (Bool-cases (before a b)) [
    | inl h ↦ rw h (Perm.refl _)
    | inr h ↦ rw h (Perm.trans (Perm.cons b (insert_sorted-perm a bs)) (Perm.swap a b bs))
  ]

  -- Sorting neither loses nor makes up elements.
  pub sort_by-perm : (xs : List A) → Perm (sort_by xs) xs
  sort_by-perm [] = Perm.refl _
  sort_by-perm (a ∷ xs) =
      Perm.trans (insert_sorted-perm a (sort_by xs)) (Perm.cons a (sort_by-perm xs))

  pub length-insert_sorted : (a : A) (xs : List A) → length (insert_sorted a xs) ≡ suc (length xs)
  length-insert_sorted a [] = refl
  length-insert_sorted a (b ∷ bs) = ground (arith, length-insert_sorted a bs)

  pub length-sort_by : (xs : List A) → length (sort_by xs) ≡ length xs
  length-sort_by [] = refl
  length-sort_by (a ∷ xs) = length-insert_sorted a (sort_by xs) ∙ ap suc (length-sort_by xs)

module _ {ℓ κ} {A : Type ℓ} (before : A → A → Bool) (P : A → Type κ) where
  pub All-insert_sorted : (a : A) (xs : List A) → P a → All P xs → All P (insert_sorted before a xs)
  All-insert_sorted a [] p h = (p, tt)
  All-insert_sorted a (b ∷ bs) p h = ground (arith, All-insert_sorted a bs p h.1)

  pub All-sort_by : (xs : List A) → All P xs → All P (sort_by before xs)
  All-sort_by [] h = tt
  All-sort_by (a ∷ xs) h = All-insert_sorted a (sort_by before xs) h.0 (All-sort_by xs h.1)

module _ {ℓ} {A : Type ℓ} (before : A → A → Bool)
    (total : (a b : A) → before a b ≡ false → before b a ≡ true)
    (trans : (a b c : A) → before a b ≡ true → before b c ≡ true → before a c ≡ true) where
  All-before :
      (a b : A) (xs : List A)
      → before a b ≡ true
      → All (λ c. before b c ≡ true) xs
      → All (λ c. before a c ≡ true) xs
  All-before a b [] h hs = tt
  All-before a b (c ∷ xs) h hs = (trans a b c h hs.0, All-before a b xs h hs.1)

  insert_sorted-IsSorted :
      (a : A) (xs : List A) → IsSorted before xs → IsSorted before (insert_sorted before a xs)
  insert_sorted-IsSorted a [] s = (tt, tt)
  insert_sorted-IsSorted a (b ∷ bs) s = elim (Bool-cases (before a b)) [
    | inl h ↦ rw h ((h, All-before a b bs h s.0), s)
    | inr h ↦ rw h (
      All-insert_sorted before (λ c. before b c ≡ true) a bs (total a b h) s.0,
      insert_sorted-IsSorted a bs s.1,
    )
  ]

  -- Of a total and transitive comparison the result is in order.
  pub sort_by-IsSorted : (xs : List A) → IsSorted before (sort_by before xs)
  sort_by-IsSorted [] = tt
  sort_by-IsSorted (a ∷ xs) = insert_sorted-IsSorted a (sort_by before xs) (sort_by-IsSorted xs)
