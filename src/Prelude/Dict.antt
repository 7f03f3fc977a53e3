-- ===== src/Prelude/Dict.antt =====
-- Python's dict with numbers as keys: an association list in the order of the first insertions.
use Prim.Native.Nat.{ℕ}
use mathlib.Core.Path.{◌≡◌, refl, ap}
use mathlib.Core.Logic.{inl, inr}
use mathlib.Core.Option.{Option, none, some}
use mathlib.Core.List.{List, [], ◌∷◌}
use mathlib.Core.Bool.{false}
use native.Mathlib.Omega.{arith}
use geberit_aquaclean.Prelude.Tests.{◌==◌, if◌then◌else◌, Bool-cases, ==_refl}

module _ {V : Type 0} where
  -- dict.get(key)
  unfoldable pub lookup : ℕ → List (ℕ × V) → Option V
  lookup key [] = none
  lookup key (entry ∷ dict) =
      let elsewhere = lookup key dict in if entry.0 == key then some entry.1 else elsewhere

  -- dict[key] = value
  unfoldable pub insert : ℕ → V → List (ℕ × V) → List (ℕ × V)
  insert key value [] = (key, value) ∷ []
  insert key value (entry ∷ dict) =
      let rest = insert key value dict in
      if entry.0 == key then (entry.0, value) ∷ dict else entry ∷ rest

  -- What was assigned last is what is read.
  pub lookup-insert :
      (key : ℕ) (value : V) (dict : List (ℕ × V)) → lookup key (insert key value dict) ≡ some value
  unfolding lookup insert
  lookup-insert key value [] = rw (==_refl key) refl
  lookup-insert key value (entry ∷ dict) = elim (Bool-cases (entry.0 == key)) [
    | inl e ↦ rw (e, e) refl
    | inr e ↦ rw (e, e) (lookup-insert key value dict)
  ]

  -- What was assigned to one key leaves the others.
  pub lookup-insert_other :
      (key other : ℕ) (value : V) (dict : List (ℕ × V))
      → (key == other) ≡ false
      → lookup other (insert key value dict) ≡ lookup other dict
  unfolding lookup insert
  lookup-insert_other key other value [] h = rw h refl
  lookup-insert_other key other value (entry ∷ dict) h = elim (Bool-cases (entry.0 == key)) [
    | inl e ↦ let same : (entry.0 == other) ≡ false = ground arith in rw (e, same) refl
    | inr e ↦ rw e (
        ap (λ r. if entry.0 == other then some entry.1 else r)
          (lookup-insert_other key other value dict h))
  ]
