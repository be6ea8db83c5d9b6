-- ===== src/Python/Exec.antt =====
-- Coroutines that may raise. A write made before a raise stays, so the state comes back with the
-- exception too. `await` is a bind: each handler runs to its end without interleaving.
use clean_architecture_saas.Prelude.{
  ℕ, ◌≡◌, refl, ◌⊎◌, inl, inr, String, Bool, true, false, Option, none, some,
}

-- `ValueError`, `AttributeError`, FastAPI's `HTTPException` with its status, and every other
-- exception.
pub data Exc : Type 0 where
  value_error : String → Exc
  attribute_error : String → Exc
  http : ℕ → String → Exc
  failure : String → Exc

pub data Result {ℓ} (A : Type ℓ) : Type ℓ where
  ok : A → Result A
  raised : Exc → Result A

abbrev pub Exec {ℓ} : Type ℓ → Type ℓ → Type ℓ
Exec S A = S → Result A × S

module _ {ℓ} {S A : Type ℓ} where
  abbrev pub pure : A → Exec S A
  pure a s = (ok a, s)

  abbrev pub raise : Exc → Exec S A
  raise e s = (raised e, s)

  -- An expression that reads no state.
  abbrev pub lift : Result A → Exec S A
  lift r s = (r, s)

  -- The `except` clause that takes every exception.
  abbrev pub handle : Result A → (Exc → Exec S A) → Exec S A
  handle (ok a) h s = (ok a, s)
  handle (raised e) h s = h e s

  abbrev pub attempt : Exec S A → (Exc → Exec S A) → Exec S A
  attempt m h s = let (r, s') = m s in handle r h s'

  -- The statement that runs only under a condition.
  abbrev pub when_some {κ} : {B : Type κ} → Option B → (B → Exec S A) → Exec S A → Exec S A
  when_some none f m = m
  when_some (some b) f m = f b

module _ {ℓ} {S A B : Type ℓ} where
  abbrev pub and_then : Result A → (A → Exec S B) → Exec S B
  and_then (ok a) f s = f a s
  and_then (raised e) f s = (raised e, s)

  infixl 10 ◌>>=◌ ◌>>◌
  abbrev pub ◌>>=◌ : Exec S A → (A → Exec S B) → Exec S B
  ◌>>=◌ m f s = let (r, s') = m s in and_then r f s'

  abbrev pub ◌>>◌ : Exec S A → Exec S B → Exec S B
  m >> n = m >>= λ _. n

-- Whether an action came to its end without an exception.
abbrev pub is_ok {ℓ} : {A : Type ℓ} → Result A → Bool
is_ok (ok a) = true
is_ok (raised e) = false

-- One expression after another that may raise, without a state.
abbrev pub bind {ℓ} : {A B : Type ℓ} → Result A → (A → Result B) → Result B
bind (ok a) f = f a
bind (raised e) f = raised e

pub Result-cases :
    {A : Type 0} (r : Result A) → ((a : A) × (r ≡ ok a)) ⊎ ((e : Exc) × (r ≡ raised e))
Result-cases (ok a) = inl (a, refl)
Result-cases (raised e) = inr (e, refl)
