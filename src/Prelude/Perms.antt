-- ===== src/Prelude/Perms.antt =====
-- Sums over a list and tests of it do not depend on its order.
use native.Mathlib.Nat.{ℕ_set}
use mathlib.Core.Logic.{∥∥₁_elim}
use mathlib.Core.List.{Perm, Permᴰ}
use optimizr_actions.Prelude.Lists.{sum_by, all}
use Prim.Native.Nat.{ℕ}
use mathlib.Core.Path.{◌≡◌, refl, ◌∙◌}
use mathlib.Core.List.{List}
use mathlib.Core.Bool.{Bool, Bool-set}
use native.Mathlib.Omega.{arith}

module _ {A : Type 0} (f : A → ℕ) where
  sum_by-permᴰ : {xs ys : List A} → Permᴰ xs ys → sum_by f xs ≡ sum_by f ys
  sum_by-permᴰ Permᴰ.nil = refl
  sum_by-permᴰ (Permᴰ.cons e p) = ground (arith, sum_by-permᴰ p)
  sum_by-permᴰ (Permᴰ.swap d e) = ground arith
  sum_by-permᴰ (Permᴰ.trans p q) = sum_by-permᴰ p ∙ sum_by-permᴰ q

  pub sum_by-perm : {xs ys : List A} → Perm xs ys → sum_by f xs ≡ sum_by f ys
  sum_by-perm p = ∥∥₁_elim p (ℕ_set _ _) (λ d. sum_by-permᴰ d)

module _ {A : Type 0} where
  all-permᴰ : (p : A → Bool) {xs ys : List A} → Permᴰ xs ys → all p xs ≡ all p ys
  all-permᴰ p Permᴰ.nil = refl
  all-permᴰ p (Permᴰ.cons e h) = ground (arith, all-permᴰ p h)
  all-permᴰ p (Permᴰ.swap d e) = ground arith
  all-permᴰ p (Permᴰ.trans h k) = all-permᴰ p h ∙ all-permᴰ p k

pub all-perm : {A : Type 0} (p : A → Bool) {xs ys : List A} → Perm xs ys → all p xs ≡ all p ys
all-perm p h = ∥∥₁_elim h (Bool-set _ _) (λ d. all-permᴰ p d)
