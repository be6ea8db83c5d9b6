-- ===== src/Users/Caching/Beside.antt =====
-- What the cache of users relies on: a repository below that writes one row at a time, and a cache
-- that lives beside it in the state.
use mathlib.Core.Option
use clean_architecture_saas.Prelude.{ℕ, String, ◌≡◌, false, Option, some, nat_eq}
use clean_architecture_saas.Python.Exec.{ok}
use clean_architecture_saas.Python.Value.{Value, Fields, user}
pub use clean_architecture_saas.Db.Rows.{Writes, Updates, Apart}
use clean_architecture_saas.Domain.User.{User}
use clean_architecture_saas.Cache.Keys.{user_id}
use clean_architecture_saas.Users.Repository.{UserRepository}

-- What is relied on of the repository below: it reads the rows, and writes one row at a time.
pub record Stores {S : Type 0} (inner : UserRepository S) (see : S → String → Option Value)
    (rows : S → ℕ → Option User) : Type 0 where
  pub reads : (n : ℕ) (s : S) → inner.get_by_id n s ≡ (ok (rows s n), s)
  pub own_id : (n : ℕ) (u : User) (s : S) → rows s n ≡ some u → u.id ≡ some n
  pub updates : (n : ℕ) (fs : Fields) → Updates see rows n (inner.update n fs)
  pub writes_delete : (n : ℕ) → Writes see rows n (inner.delete n)
  pub writes_password : (n : ℕ) (h : String) → Writes see rows n (inner.set_password n h)
  pub writes_login : (n : ℕ) (when : ℕ) → Writes see rows n (inner.update_last_login n when)
  pub writes_email : (n : ℕ) (e : String) → Writes see rows n (inner.set_email n e)

module _ {S : Type 0} (see : S → String → Option Value) (rows : S → ℕ → Option User) where
  -- Every value under the id of a user is that user's row.
  abbrev pub Coherent : S → Type 0
  Coherent s =
      (n : ℕ) (v : Value) → see s (user_id n) ≡ some v → Option.map user (rows s n) ≡ some v

  -- The same for all ids but one.
  abbrev pub CoherentBut : ℕ → S → Type 0
  CoherentBut n s =
      (j : ℕ) (v : Value)
      → nat_eq n j ≡ false
      → see s (user_id j) ≡ some v
      → Option.map user (rows s j) ≡ some v
