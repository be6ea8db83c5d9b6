-- ===== src/Python/Preserves.antt =====
-- What a coroutine preserves whether it raises or not, put together as coroutines are.
use clean_architecture_saas.Prelude.{◌≡◌, refl, true, false, Bool, if◌then◌else◌}
use clean_architecture_saas.Python.Exec.{Exc, Exec, Result, ok, raised, handle, and_then}

module _ {S A : Type 0} where
  abbrev pub Preserves : (S → Type 0) → Exec S A → Type 0
  Preserves P m = (s : S) → P s → P (m s).1

  -- The part of the state that `view` shows stays as it is.
  abbrev pub Keeps : {V : Type 0} → (S → V) → Exec S A → Type 0
  Keeps view m = (s : S) → view (m s).1 ≡ view s

module _ {S A : Type 0} (P : S → Type 0) where
  -- The rules for a state: of a condition, of a handler and of a sequence.
  pub after_if :
      (b : Bool) (m n : Exec S A) (s : S) → P (m s).1 → P (n s).1 → P ((if b then m else n) s).1
  after_if true m n s h k = h
  after_if false m n s h k = k

  pub after_handle :
      (r : Result A) (h : Exc → Exec S A) (s : S)
      → P s
      → ((e : Exc) → P s → P (h e s).1)
      → P (handle r h s).1
  after_handle (ok a) h s p k = p
  after_handle (raised e) h s p k = k e p

module _ {S A B : Type 0} (P : S → Type 0) where
  pub after_bind :
      (r : Result A) (f : A → Exec S B) (s : S)
      → P s
      → ((a : A) → r ≡ ok a → P s → P (f a s).1)
      → P (and_then r f s).1
  after_bind (ok a) f s p k = k a refl p
  after_bind (raised e) f s p k = p
