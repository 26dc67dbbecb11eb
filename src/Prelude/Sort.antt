-- ===== src/Prelude/Sort.antt =====
-- Python's `sorted`, which is stable, as an insertion sort by a test.
use mathlib.Core.Path.{◌≡◌}
use mathlib.Core.Logic.{inl, inr}
use mathlib.Core.Bool.{Bool, true, false}
use mathlib.Core.List.Perm
use mathlib.Core.List.{List, [], ◌∷◌, Perm}
use native.Mathlib.Omega.{arith}
use optimizr_actions.Prelude.Tests.{if◌then◌else◌, Bool-cases}
use optimizr_actions.Prelude.Lists.{All, All-mono}

-- `before x y`: `x` may stand before `y`. An element goes in front of those that it may precede,
-- so elements of equal rank keep the order they came in.
module _ {A : Type 0} (before : A → A → Bool) where
  unfoldable pub insert : A → List A → List A
  insert x [] = x ∷ []
  insert x (y ∷ ys) = let rest = insert x ys in if before x y then x ∷ y ∷ ys else y ∷ rest

  unfoldable pub sorted : List A → List A
  unfolding insert
  sorted [] = []
  sorted (x ∷ xs) = insert x (sorted xs)

  abbrev pub IsSorted : List A → Type 0
  IsSorted [] = Unit
  IsSorted (x ∷ xs) = All (λ y. before x y ≡ true) xs × IsSorted xs

  insert-perm : (x : A) (xs : List A) → Perm (insert x xs) (x ∷ xs)
  unfolding insert
  insert-perm x [] = Perm.refl _
  insert-perm x (y ∷ ys) = elim (Bool-cases (before x y)) [
    | inl e ↦ rw e (Perm.refl _)
    | inr e ↦ rw e (Perm.trans (Perm.cons y (insert-perm x ys)) (Perm.swap x y ys))
  ]

  pub sorted-perm : (xs : List A) → Perm (sorted xs) xs
  unfolding sorted
  sorted-perm [] = Perm.refl _
  sorted-perm (x ∷ xs) = Perm.trans (insert-perm x (sorted xs)) (Perm.cons x (sorted-perm xs))

module _ {A : Type 0} (before : A → A → Bool)
    (total : (x y : A) → before x y ≡ false → before y x ≡ true)
    (transitive : (x y z : A) → before x y ≡ true → before y z ≡ true → before x z ≡ true) where
  insert-All :
      (z x : A) (xs : List A)
      → before z x ≡ true
      → All (λ y. before z y ≡ true) xs
      → All (λ y. before z y ≡ true) (insert before x xs)
  unfolding insert
  insert-All z x [] h k = (h, tt)
  insert-All z x (y ∷ ys) h k = ground (arith, insert-All z x ys h k.1)

  insert-IsSorted :
      (x : A) (xs : List A) → IsSorted before xs → IsSorted before (insert before x xs)
  unfolding insert
  insert-IsSorted x [] h = (tt, tt)
  insert-IsSorted x (y ∷ ys) h = elim (Bool-cases (before x y)) [
    | inl e ↦ rw e ((e, All-mono (λ z. transitive x y z e) ys h.0), h)
    | inr e ↦ rw e (insert-All y x ys (total x y e) h.0, insert-IsSorted x ys h.1)
  ]

  pub sorted-IsSorted : (xs : List A) → IsSorted before (sorted before xs)
  unfolding sorted
  sorted-IsSorted [] = tt
  sorted-IsSorted (x ∷ xs) = insert-IsSorted x (sorted before xs) (sorted-IsSorted xs)
