-- ===== src/Prelude/Dicts.antt =====
-- A Python dict keyed by texts, in insertion order.
use mathlib.Core.Path.{◌≡◌, refl}
use mathlib.Core.Logic.{inl, inr}
use mathlib.Core.Bool.{Bool, true, false, ◌&&◌}
use mathlib.Core.List.{List, [], ◌∷◌, map}
use mathlib.Core.Option.{Option, none, some}
use native.Mathlib.Omega.{arith}
use optimizr_actions.Prelude.Tests.{if◌then◌else◌, Bool-cases}
use optimizr_actions.Prelude.Lists.{all}
use optimizr_actions.Prelude.Strings.{Text, same, same_sound, same_refl, same_comm}

abbrev pub Dict {ℓ} : Type ℓ → Type ℓ
Dict V = List (Text × V)

module _ {ℓ} {V : Type ℓ} where
  -- `d.get(k)`
  unfoldable pub lookup : Text → Dict V → Option V
  lookup k [] = none
  lookup k ((j, v) ∷ d) = let rest = lookup k d in if same j k then some v else rest

  -- `k in d`
  unfoldable pub has_key : Text → Dict V → Bool
  unfolding lookup
  has_key k d = elim (lookup k d) [ none ↦ false | some _ ↦ true ]

  abbrev pub keys : Dict V → List Text
  keys = map λ e. e.0

  abbrev pub values : Dict V → List V
  values = map λ e. e.1

  -- `d[k] = v`
  unfoldable pub insert : Text → V → Dict V → Dict V
  insert k v [] = (k, v) ∷ []
  insert k v ((j, w) ∷ d) =
      let rest = insert k v d in if same j k then (j, v) ∷ d else (j, w) ∷ rest

  -- A key's value after an insertion.
  pub lookup-insert :
      (k n : Text) (v : V) (d : Dict V)
      → lookup n (insert k v d) ≡ (if same k n then some v else lookup n d)
  unfolding lookup insert
  lookup-insert k n v [] = refl
  lookup-insert k n v ((j, w) ∷ d) = elim (Bool-cases (same j k)) [
    | inl e ↦ let equal : j ≡ k = same_sound j k e in rw (equal, same_refl k) (ground arith)
    | inr e ↦
        rw (e, lookup-insert k n v d)
          (ground (arith, same_sound j n, same_sound k n, same_refl n, same_comm j k))
  ]

  -- Inserting a key that is absent adds an entry.
  pub all-insert :
      (p : V → Bool) (k : Text) (v : V) (d : Dict V)
      → has_key k d ≡ false
      → all (λ e. p e.1) (insert k v d) ≡ (all (λ e. p e.1) d && p v)
  unfolding has_key insert
  all-insert p k v [] h = ground arith
  all-insert p k v ((j, w) ∷ d) h = ground (arith, all-insert p k v d)

  pub all-lookup :
      (p : V → Bool) (n : Text) (d : Dict V) {v : V}
      → all (λ e. p e.1) d ≡ true
      → lookup n d ≡ some v
      → p v ≡ true
  unfolding lookup
  all-lookup p n [] h e = cc
  all-lookup p n ((j, w) ∷ d) {v} h e = ground (arith, all-lookup p n d {v = v})
