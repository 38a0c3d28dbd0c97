-- ===== src/Base/Checks.antt =====
-- A chain of early returns, `if test { return r }`, as the list of its tests and results.
use mathlib.Core.Path.{◌≡◌, refl}
use mathlib.Core.Bool.{Bool, true, false}
use mathlib.Core.Option.{Option, none, some}
use mathlib.Core.List.{List, [], ◌∷◌}

module _ {ℓ} {A : Type ℓ} where
  -- The result of the first test that holds.
  unfoldable pub first_failure : List (Bool × A) → Option A
  first_failure [] = none
  first_failure ((true, r) ∷ rest) = some r
  first_failure ((false, r) ∷ rest) = first_failure rest

  -- No test holds.
  abbrev pub AllPass : List (Bool × A) → Type 0
  AllPass [] = Unit
  AllPass (c ∷ rest) = (c.0 ≡ false) × AllPass rest

  pub first_failure-AllPass :
      (checks : List (Bool × A)) → first_failure checks ≡ none → AllPass checks
  unfolding first_failure
  first_failure-AllPass [] h = tt
  first_failure-AllPass ((true, r) ∷ rest) h = absurd (cc)
  first_failure-AllPass ((false, r) ∷ rest) h = (refl, first_failure-AllPass rest h)

  pub AllPass-first_failure :
      (checks : List (Bool × A)) → AllPass checks → first_failure checks ≡ none
  unfolding first_failure
  AllPass-first_failure [] h = refl
  AllPass-first_failure ((true, r) ∷ rest) h = absurd (cc h.0)
  AllPass-first_failure ((false, r) ∷ rest) h = AllPass-first_failure rest h.1
