-- ===== src/Prelude/Gives.antt =====
-- Every value that a call returns has a property.
use mathlib.Core.Path.{◌≡◌, refl, subst}
use mathlib.Core.Bool.{Bool, true, false}
use mathlib.Core.List.{List, [], ◌∷◌}
use mathlib.Core.Option.{Option, none, some}
use optimizr_actions.Prelude.Lists.{All}
use optimizr_actions.Prelude.Results.{
  Result, ok, err, ◌>>=◌, ◌>>◌, guard, raise_if, or_raise, bind_then, guard_then, raise_if_then,
  map_result,
}

module _ {E : Type 0} where
  pub record Gives {A : Type 0} (Q : A → Type 0) (call : Result E A) : Type 0 where
    pub gives : (a : A) → call ≡ ok a → Q a

  pub Gives-ok : {A : Type 0} (Q : A → Type 0) (a : A) → Q a → Gives Q (ok a)
  Gives-ok {A = A} Q a q = record { gives = λ b e. subst Q (same_value e) q }
    where
      same_value : {x y : A} → Path (Result E A) (ok x) (ok y) → x ≡ y
      same_value e = cc

  pub Gives-err : {A : Type 0} (Q : A → Type 0) (e : E) → Gives Q (err e)
  Gives-err Q e = record { gives = λ b h. absurd cc }

  pub Gives-bind :
      {A B : Type 0} (Q : B → Type 0) (first : Result E A) (next : A → Result E B)
      → ((a : A) → first ≡ ok a → Gives Q (next a))
      → Gives Q (first >>= next)
  Gives-bind Q first next f = record {
    gives = λ b h. let (a, e, k) = bind_then first next h in (f a e).gives b k;
  }

  pub Gives-guard :
      {B : Type 0} (Q : B → Type 0) (test : Bool) (failure : E) (next : Result E B)
      → (test ≡ true → Gives Q next)
      → Gives Q (guard test failure >> next)
  Gives-guard Q test failure next f = record {
    gives = λ b h. let (e, k) = guard_then test failure next h in (f e).gives b k;
  }

  pub Gives-raise_if :
      {B : Type 0} (Q : B → Type 0) (test : Bool) (failure : E) (next : Result E B)
      → (test ≡ false → Gives Q next)
      → Gives Q (raise_if test failure >> next)
  Gives-raise_if Q test failure next f = record {
    gives = λ b h. let (e, k) = raise_if_then test failure next h in (f e).gives b k;
  }

  pub Gives-or_raise :
      {A : Type 0} (Q : A → Type 0) (value : Option A) (failure : E)
      → ((a : A) → value ≡ some a → Q a)
      → Gives Q (or_raise value failure)
  Gives-or_raise Q none failure f = Gives-err Q failure
  Gives-or_raise Q (some a) failure f = Gives-ok Q a (f a refl)

  -- A call for each element.
  pub Gives-map_result :
      {A B : Type 0} (Q : B → Type 0) (call : A → Result E B) (xs : List A)
      → ((a : A) → Gives Q (call a))
      → Gives (All Q) (map_result call xs)
  Gives-map_result Q call [] f = Gives-ok (All Q) [] tt
  Gives-map_result Q call (x ∷ xs) f = Gives-bind (All Q) (call x) _ (λ y e.
      Gives-bind (All Q) (map_result call xs) _ (λ ys es.
        Gives-ok (All Q) (y ∷ ys) ((f x).gives y e, (Gives-map_result Q call xs f).gives ys es)))
