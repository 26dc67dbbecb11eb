-- ===== src/Prelude/Lists.antt =====
-- Lists measured by native numbers, and searches through them.
use Prim.Native.Nat.{ℕ, zero, suc, ◌+◌}
use mathlib.Core.Path.{◌≡◌, refl}
use mathlib.Core.Logic.{◌⊎◌, inl, inr}
use mathlib.Core.Bool.{Bool, true, false, ◌&&◌, ◌||◌}
use mathlib.Core.List.{List, [], ◌∷◌, ◌++◌}
use mathlib.Core.Option.{Option, none, some}
use native.Mathlib.Omega.{arith}
use optimizr_actions.Prelude.Tests.{if◌then◌else◌}

module _ {ℓ} {A : Type ℓ} where
  abbrev pub length : List A → ℕ
  length [] = 0
  length (x ∷ xs) = suc (length xs)

  -- Python's `any(p(x) for x in xs)`.
  abbrev pub any : (A → Bool) → List A → Bool
  any p [] = false
  any p (x ∷ xs) = p x || any p xs

  -- Python's `all(p(x) for x in xs)`.
  abbrev pub all : (A → Bool) → List A → Bool
  all p [] = true
  all p (x ∷ xs) = p x && all p xs

  -- Python's `next((x for x in xs if p(x)), None)`.
  abbrev pub find : (A → Bool) → List A → Option A
  find p [] = none
  find p (x ∷ xs) = let rest = find p xs in if p x then some x else rest

  abbrev pub take : ℕ → List A → List A
  take zero xs = []
  take (suc n) [] = []
  take (suc n) (x ∷ xs) = x ∷ take n xs

  abbrev pub drop : ℕ → List A → List A
  drop zero xs = xs
  drop (suc n) [] = []
  drop (suc n) (x ∷ xs) = drop n xs

  abbrev pub replicate : ℕ → A → List A
  replicate zero a = []
  replicate (suc n) a = a ∷ replicate n a

-- Python's `sum(f(x) for x in xs)`.
abbrev pub sum_by {ℓ} : {A : Type ℓ} → (A → ℕ) → List A → ℕ
sum_by f [] = 0
sum_by f (x ∷ xs) = f x + sum_by f xs

-- A predicate on every element, as a tuple.
abbrev pub All {ℓ κ} : {A : Type ℓ} → (A → Type κ) → List A → Type κ
All P [] = Unit
All P (x ∷ xs) = P x × All P xs

-- Some element satisfies the predicate.
abbrev pub Any {ℓ} : {A : Type ℓ} → (A → Type 0) → List A → Type 0
Any P [] = ⊥
Any P (x ∷ xs) = P x ⊎ Any P xs

module _ {ℓ} {A : Type ℓ} where
  pub length-append : (xs ys : List A) → length (xs ++ ys) ≡ length xs + length ys
  length-append [] ys = omega arith
  length-append (x ∷ xs) ys = omega (arith, length-append xs ys)

  pub sum_by-append : (f : A → ℕ) (xs ys : List A) → sum_by f (xs ++ ys) ≡ sum_by f xs + sum_by f ys
  sum_by-append f [] ys = omega arith
  sum_by-append f (x ∷ xs) ys = omega (arith, sum_by-append f xs ys)

  pub All-append : (P : A → Type 0) (xs ys : List A) → All P xs → All P ys → All P (xs ++ ys)
  All-append P [] ys h k = k
  All-append P (x ∷ xs) ys h k = (h.0, All-append P xs ys h.1 k)

  pub All-mono : {P Q : A → Type 0} (f : (x : A) → P x → Q x) (xs : List A) → All P xs → All Q xs
  All-mono f [] h = tt
  All-mono f (x ∷ xs) h = (f x h.0, All-mono f xs h.1)

  pub All-at : (P : A → Type 0) (x : A) (xs ys : List A) → All P (xs ++ x ∷ ys) → P x
  All-at P x [] ys h = h.0
  All-at P x (y ∷ xs) ys h = All-at P x xs ys h.1

  pub all_sound : (p : A → Bool) (xs : List A) → all p xs ≡ true → All (λ x. p x ≡ true) xs
  all_sound p [] h = tt
  all_sound p (x ∷ xs) h = (ground arith, all_sound p xs (ground arith))

  pub all_complete : (p : A → Bool) (xs : List A) → All (λ x. p x ≡ true) xs → all p xs ≡ true
  all_complete p [] h = refl
  all_complete p (x ∷ xs) h = ground (arith, all_complete p xs h.1)

  pub find-none : (p : A → Bool) (xs : List A) → find p xs ≡ none → All (λ x. p x ≡ false) xs
  find-none p [] h = tt
  find-none p (x ∷ xs) h = (ground arith, find-none p xs (ground arith))

  pub all-append_right : (p : A → Bool) (xs ys : List A) → all p (xs ++ ys) ≡ true → all p ys ≡ true
  all-append_right p [] ys h = h
  all-append_right p (x ∷ xs) ys h = all-append_right p xs ys (ground arith)

  -- A test that the found element fails does not hold of all.
  pub find_refutes :
      (p q : A → Bool) (xs : List A) {y : A}
      → ((x : A) → p x ≡ true → q x ≡ false)
      → find p xs ≡ some y
      → all q xs ≡ false
  find_refutes p q [] r h = cc
  find_refutes p q (x ∷ xs) {y} r h = ground (arith, r x, find_refutes p q xs {y = y} r)

-- An element of two lists in a row is in one of them.
pub Any-append {ℓ} :
    {A : Type ℓ} (P : A → Type 0) (xs ys : List A) → Any P (xs ++ ys) → Any P xs ⊎ Any P ys
Any-append P [] ys h = inr h
Any-append P (x ∷ xs) ys (inl h) = inl (inl h)
Any-append P (x ∷ xs) ys (inr h) = elim (Any-append P xs ys h) [
  | inl k ↦ inl (inr k)
  | inr k ↦ inr k
]
