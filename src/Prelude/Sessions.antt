-- ===== src/Prelude/Sessions.antt =====
-- Calls that may raise and that change a state: a program goes from a state to its result and the
-- state after it.
use mathlib.Core.Path.{◌≡◌, refl}
use mathlib.Core.Bool.{Bool, true, false}
use optimizr_actions.Prelude.Tests.{if◌then◌else◌}
use optimizr_actions.Prelude.Results.{Result, ok, err}

abbrev pub Session : Type 0 → Type 0 → Type 0 → Type 0
Session S E A = S → Result E A × S

module _ {S E : Type 0} where
  abbrev pub continue_with : {A B : Type 0} → (A → Session S E B) → Result E A × S → Result E B × S
  continue_with next (ok a, state) = next a state
  continue_with next (err e, state) = (err e, state)

  abbrev pub lift : {A : Type 0} → Result E A → Session S E A
  lift result state = (result, state)

  infixl 5 ◌>>=◌ ◌>>◌
  abbrev pub ◌>>=◌ : {A B : Type 0} → Session S E A → (A → Session S E B) → Session S E B
  ◌>>=◌ first next state = continue_with next (first state)

  abbrev pub ◌>>◌ : {B : Type 0} → Session S E (Unit {0}) → Session S E B → Session S E B
  ◌>>◌ first next state = continue_with (λ _. next) (first state)

  -- What holds after a program that returned, and after one that raised.
  abbrev pub Holds : {A : Type 0} → (A → S → Type 0) → (E → S → Type 0) → Result E A × S → Type 0
  Holds Q X (ok a, state) = Q a state
  Holds Q X (err e, state) = X e state

  pub record Runs {A : Type 0} (P : S → Type 0) (Q : A → S → Type 0) (X : E → S → Type 0)
      (program : Session S E A) : Type 0 where
    pub runs : (state : S) → P state → Holds Q X (program state)

  pub Runs-ok :
      {A : Type 0} (P : S → Type 0) (Q : A → S → Type 0) (X : E → S → Type 0) (a : A)
      → ((state : S) → P state → Q a state)
      → Runs P Q X (lift (ok a))
  Runs-ok P Q X a q = record { runs = q }

  pub Runs-err :
      {A : Type 0} (P : S → Type 0) (Q : A → S → Type 0) (X : E → S → Type 0) (e : E)
      → ((state : S) → P state → X e state)
      → Runs P Q X (lift (err e))
  Runs-err P Q X e x = record { runs = x }

  pub Runs-bind :
      {A B : Type 0} (P : S → Type 0) (R : A → S → Type 0) (Q : B → S → Type 0) (X : E → S → Type 0)
      (first : Session S E A) (next : A → Session S E B)
      → Runs P R X first
      → ((a : A) → Runs (R a) Q X (next a))
      → Runs P Q X (first >>= next)
  Runs-bind {A = A} {B = B} P R Q X first next p q = record {
    runs = λ state h. go (first state) (p.runs state h);
  }
    where
      go : (r : Result E A × S) → Holds R X r → Holds Q X (continue_with next r)
      go (ok a, state) h = (q a).runs state h
      go (err e, state) h = h

  pub Runs-if :
      {A : Type 0} (P : S → Type 0) (Q : A → S → Type 0) (X : E → S → Type 0) (test : Bool)
      (x y : Session S E A)
      → (test ≡ true → Runs P Q X x)
      → (test ≡ false → Runs P Q X y)
      → Runs P Q X (if test then x else y)
  Runs-if P Q X true x y p q = p refl
  Runs-if P Q X false x y p q = q refl

  -- A stronger condition before, and weaker ones after.
  pub Runs-mono :
      {A : Type 0} {P P₂ : S → Type 0} {Q Q₂ : A → S → Type 0} {X X₂ : E → S → Type 0}
      (program : Session S E A)
      → ((state : S) → P₂ state → P state)
      → ((a : A) (state : S) → Q a state → Q₂ a state)
      → ((e : E) (state : S) → X e state → X₂ e state)
      → Runs P Q X program
      → Runs P₂ Q₂ X₂ program
  Runs-mono {A = A} {Q = Q} {Q₂ = Q₂} {X = X} {X₂ = X₂} program p q x r = record {
    runs = λ state h. go (program state) (r.runs state (p state h));
  }
    where
      go : (r : Result E A × S) → Holds Q X r → Holds Q₂ X₂ r
      go (ok a, state) h = q a state h
      go (err e, state) h = x e state h
