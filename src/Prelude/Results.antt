-- ===== src/Prelude/Results.antt =====
-- A call that may raise: its value, or the error that it raised.
use mathlib.Core.Path.{◌≡◌, refl}
use mathlib.Core.Bool.{Bool, true, false}
use mathlib.Core.Logic.{◌⊎◌, inl, inr}
use mathlib.Core.List.{List, [], ◌∷◌}
use mathlib.Core.Option.{Option, none, some}

pub data Result {ℓ κ} (E : Type κ) (A : Type ℓ) : Type (ℓ ⊔ κ) where
  ok : A → Result E A
  err : E → Result E A

-- `except …: raise convert(e)`
abbrev pub reraise {ℓ κ μ} :
    {E : Type μ} {F : Type κ} {A : Type ℓ} → Result F A → (F → E) → Result E A
reraise (err raised) convert = err (convert raised)
reraise (ok value) convert = ok value

abbrev pub or_raise {ℓ μ} : {E : Type μ} {A : Type ℓ} → Option A → E → Result E A
or_raise none failure = err failure
or_raise (some value) failure = ok value

-- `if test: raise failure`
abbrev pub raise_if {μ} : {E : Type μ} → Bool → E → Result E (Unit {0})
raise_if true failure = err failure
raise_if false failure = ok tt

-- `if not test: raise failure`
abbrev pub guard {μ} : {E : Type μ} → Bool → E → Result E (Unit {0})
guard false failure = err failure
guard true failure = ok tt

infixl 5 ◌>>=◌ ◌>>◌
abbrev pub ◌>>=◌ {ℓ κ μ} :
    {E : Type μ} {A : Type ℓ} {B : Type κ} → Result E A → (A → Result E B) → Result E B
err raised >>= next = err raised
ok value >>= next = next value

abbrev pub ◌>>◌ {ℓ μ} : {E : Type μ} {B : Type ℓ} → Result E (Unit {0}) → Result E B → Result E B
err raised >> next = err raised
ok _ >> next = next

-- What a check that passed has tested, and what followed.
pub guard_then {ℓ μ} :
    {E : Type μ} {B : Type ℓ} (test : Bool) (failure : E) (next : Result E B) {final : B}
    → (guard test failure >> next) ≡ ok final
    → (test ≡ true) × (next ≡ ok final)
guard_then false failure next returned = cc
guard_then true failure next returned = (refl, returned)

pub raise_if_then {ℓ μ} :
    {E : Type μ} {B : Type ℓ} (test : Bool) (failure : E) (next : Result E B) {final : B}
    → (raise_if test failure >> next) ≡ ok final
    → (test ≡ false) × (next ≡ ok final)
raise_if_then false failure next returned = (refl, returned)
raise_if_then true failure next returned = cc

-- A call for each element, in order; the first error ends the loop.
abbrev pub map_result {ℓ κ μ} :
    {E : Type μ} {A : Type ℓ} {B : Type κ} → (A → Result E B) → List A → Result E (List B)
map_result call [] = ok []
map_result call (x ∷ xs) = call x >>= λ y. map_result call xs >>= λ ys. ok (y ∷ ys)

-- A sequence that returned: each part of it returned.
pub seq_then {ℓ μ} :
    {E : Type μ} {B : Type ℓ} (first : Result E (Unit {0})) (next : Result E B) {final : B}
    → (first >> next) ≡ ok final
    → (first ≡ ok tt) × (next ≡ ok final)
seq_then (err raised) next returned = cc
seq_then (ok tt) next returned = (refl, returned)

pub bind_then {ℓ κ μ} :
    {E : Type μ} {A : Type ℓ} {B : Type κ} (first : Result E A) (next : A → Result E B) {final : B}
    → (first >>= next) ≡ ok final
    → (value : A) × (first ≡ ok value) × (next value ≡ ok final)
bind_then (err raised) next returned = cc
bind_then (ok value) next returned = (value, refl, returned)

pub reraise_then {ℓ κ μ} :
    {E : Type μ} {F : Type κ} {A : Type ℓ} (call : Result F A) (convert : F → E) {final : A}
    → reraise call convert ≡ ok final
    → call ≡ ok final
reraise_then (err raised) convert returned = cc
reraise_then (ok value) convert returned = cc

pub Result-cases {ℓ μ} :
    {E : Type μ} {A : Type ℓ} (r : Result E A) → ((e : E) × (r ≡ err e)) ⊎ ((a : A) × (r ≡ ok a))
Result-cases (err e) = inl (e, refl)
Result-cases (ok a) = inr (a, refl)
