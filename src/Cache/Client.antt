-- ===== src/Cache/Client.antt =====
-- ports/cache.py: the operations that every cache client has, over a state `S`. A client may raise,
-- as the one for Redis does when the server is away.
use clean_architecture_saas.Prelude.{ℕ, String, Option}
use clean_architecture_saas.Python.Exec.{Exec}
use clean_architecture_saas.Python.Int.{ℤ}
use clean_architecture_saas.Python.Value.{Value}

pub record CacheClient (S : Type 0) : Type 0 where
  pub get : String → Exec S (Option Value)
  pub set : String → Value → Option ℕ → Exec S (Unit {0})
  pub incr : String → Exec S ℤ
  pub expire : String → ℕ → Exec S (Unit {0})
  pub delete : String → Exec S (Unit {0})
