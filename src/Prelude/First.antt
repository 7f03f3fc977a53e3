-- ===== src/Prelude/First.antt =====
-- The first of the values that come one after the other: what `if v < best: best = v` keeps.
use mathlib.Core.Path.{◌≡◌, refl, sym, ap, subst, ◌∙◌}
use mathlib.Core.Logic.{inl, inr}
use mathlib.Core.Option.{Option, none, some}
use mathlib.Core.List.{List, [], ◌∷◌, ◌++◌, append_assoc}
use mathlib.Core.Bool.{Bool, true, false}
use geberit_aquaclean.Prelude.Tests.{if◌then◌else◌, Bool-cases}
use geberit_aquaclean.Prelude.Lists.{All, All-append}

-- A strict order. That of numbers is one, and that of Python's floats without NaN.
pub record IsOrdered {F : Type 0} (below : F → F → Bool) : Type 0 where
  pub asymmetric : (a b : F) → below a b ≡ true → below b a ≡ false
  pub chained : (a b c : F) → below a b ≡ false → below b c ≡ false → below a c ≡ false

-- The value that is kept, where one that comes before the other replaces it.
unfoldable pub kept : {F : Type 0} → (F → F → Bool) → Option F → F → Option F
kept before none v = some v
kept before (some m) v = if before v m then some v else some m

module _ {F : Type 0} where
  -- The first, in the order of `before`, of the values; none where there is none.
  unfoldable pub IsFirst : (F → F → Bool) → List F → Option F → Type 0
  IsFirst before values none = values ≡ []
  IsFirst before values (some m) =
      (earlier : List F) × (later : List F) × (values ≡ earlier ++ m ∷ later)
      × All (λ v. before v m ≡ false) values

  All-map {κ} : (P Q : F → Type κ) (xs : List F) → ((x : F) → P x → Q x) → All P xs → All Q xs
  All-map P Q [] f h = tt
  All-map P Q (x ∷ xs) f (p, h) = (f x p, All-map P Q xs f h)

  self-false : (before : F → F → Bool) → IsOrdered before → (v : F) → before v v ≡ false
  self-false before o v = elim (Bool-cases (before v v)) [ inl e ↦ o.asymmetric v v e | inr e ↦ e ]

  -- One more value.
  pub kept-IsFirst :
      (before : F → F → Bool)
      → IsOrdered before
      → (values : List F) (old : Option F) (v : F) → IsFirst before values old
      → IsFirst before (values ++ v ∷ []) (kept before old v)
  unfolding IsFirst kept
  kept-IsFirst before o values none v h = (
    [],
    [],
    ap (λ l. l ++ v ∷ []) h,
    subst (λ l. All (λ w. before w v ≡ false) (l ++ v ∷ [])) (sym h) (self-false before o v, tt),
  )
  kept-IsFirst before o values (some m) v (earlier, later, e, h) = elim (Bool-cases (before v m)) [
    | inl b ↦
        subst (IsFirst before (values ++ v ∷ []))
          (sym (ap (λ (x : Bool). if x then some v else some m) b))
          (
            values,
            [],
            refl,
            All-append (λ w. before w v ≡ false) values (v ∷ [])
                (All-map _ _ values (λ w k. o.chained w m v k (o.asymmetric v m b)) h)
                (self-false before o v, tt),
          )
    | inr b ↦
        subst (IsFirst before (values ++ v ∷ []))
          (sym (ap (λ (x : Bool). if x then some v else some m) b))
          (
            earlier,
            later ++ v ∷ [],
            ap (λ l. l ++ v ∷ []) e ∙ append_assoc earlier (m ∷ later) (v ∷ []),
            All-append (λ w. before w m ≡ false) values (v ∷ []) h (b, tt),
          )
  ]
