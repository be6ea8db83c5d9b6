-- ===== src/Prelude/Lists.antt =====
-- Lists: lengths over the native numbers, Boolean search, and predicates on every element.
use Prim.Native.Nat.{ℕ, suc}
use mathlib.Core.Path.{◌≡◌, refl}
use mathlib.Core.Logic.{◌↔◌, ◌⊎◌, inl, inr}
use mathlib.Core.Bool.{Bool, true, false, ◌||◌}
use mathlib.Core.Option.{Option, none, some}
use mathlib.Core.List.{List, [], ◌∷◌}
use native.Mathlib.Omega.{arith}
use clean_architecture_saas.Prelude.Tests.{if◌then◌else◌, Bool-cases}

module _ {ℓ} {A : Type ℓ} where
  abbrev pub length : List A → ℕ
  length [] = 0
  length (x ∷ xs) = suc (length xs)

  abbrev pub any : (A → Bool) → List A → Bool
  any p [] = false
  any p (x ∷ xs) = p x || any p xs

  -- The rows that a condition selects, in order.
  abbrev pub keep : (A → Bool) → List A → List A
  keep p [] = []
  keep p (x ∷ xs) = let rest = keep p xs in if p x then x ∷ rest else rest

  -- `scalars().first()`
  abbrev pub first : List A → Option A
  first [] = none
  first (x ∷ xs) = some x

module _ {ℓ κ} {A : Type ℓ} (P : A → Type κ) where
  abbrev pub All : List A → Type κ
  All [] = Unit
  All (x ∷ xs) = P x × All xs

module _ {A : Type 0} (P : A → Type 0) where
  abbrev pub Some : List A → Type 0
  Some [] = ⊥
  Some (x ∷ xs) = P x ⊎ Some xs

module _ {A : Type 0} (p : A → Bool) where
  pub any_sound : (xs : List A) → any p xs ≡ true → Some (λ x. p x ≡ true) xs
  any_sound [] h = cc
  any_sound (x ∷ xs) h = elim (Bool-cases (p x)) [
    | inl here ↦ inl here
    | inr later ↦ inr (any_sound xs (rw later at h))
  ]

  pub any_complete : (xs : List A) → Some (λ x. p x ≡ true) xs → any p xs ≡ true
  any_complete [] h = elim h [ ]
  any_complete (x ∷ xs) (inl here) = rw here
  any_complete (x ∷ xs) (inr later) = ground (arith, any_complete xs later)

  pub any_iff : (xs : List A) → (any p xs ≡ true) ↔ Some (λ x. p x ≡ true) xs
  any_iff xs = (any_sound xs, any_complete xs)

  -- A condition that no row meets selects nothing.
  pub keep-none : (xs : List A) → any p xs ≡ false → keep p xs ≡ []
  keep-none [] h = refl
  keep-none (x ∷ xs) h = ground (arith, keep-none xs)
