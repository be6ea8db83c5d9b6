-- ===== src/Tests/World.antt =====
-- A small state of the program: its tables beside the cache in memory.
use clean_architecture_saas.Prelude.{ℕ, String, true, false, none, some, List, [], ◌∷◌, ◌==◌}
use clean_architecture_saas.Python.Exec.{pure}
use clean_architecture_saas.Python.Value.{text, num, dict, end, field}
use clean_architecture_saas.Python.Int.{pos}
use clean_architecture_saas.Domain.User.{User}
use clean_architecture_saas.Domain.Tenant.{Tenant}
use clean_architecture_saas.Domain.Auth.{Conversions, TokenClaims}
use clean_architecture_saas.Cache.Client.{CacheClient}
use clean_architecture_saas.Cache.InMemory.{Mem, in_memory}
use clean_architecture_saas.Db.Table.{Table}
use clean_architecture_saas.Db.ListTable.{table_at}
use clean_architecture_saas.Tokens.Refresh.{RefreshToken, BlacklistedToken}
use clean_architecture_saas.Users.Service.{CryptContext}

abbrev pub user_of : ℕ → ℕ → String → String → User
user_of id tid email role = record {
  id = some id;
  tenant_id = tid;
  email = email;
  hashed_password = "old hash";
  first_name = none;
  last_name = none;
  role = role;
  email_verified = true;
  audit_enabled = false;
  is_active = some true;
  last_login_at = none;
  created_at = some 7;
  updated_at = some 7;
}

abbrev pub alice : User
alice = user_of 1 1 "alice@example.com" "admin"

abbrev pub bob : User
bob = user_of 2 1 "bob@example.com" "member"

abbrev pub empty_cache : Mem
empty_cache = record { clock = 0; store = [] }

abbrev pub users_and_cache : List User × Mem
users_and_cache = (alice ∷ bob ∷ [], empty_cache)

abbrev pub tenant_of : ℕ → String → Tenant
tenant_of id status = record {
  id = some id;
  name = "Acme";
  slug = some "acme";
  domain = none;
  plan = "free";
  status = status;
  settings = dict (
      field "rate_limit" (dict (field "calls" (num (pos 2)) (field "period" (text "30") end))) end);
  created_at = some 7;
  updated_at = some 7;
}

-- The tokens' two tables as the session sees them, the cache, and what is committed.
pub record World : Type 0 where
  pub refresh : List RefreshToken
  pub blacklist : List BlacklistedToken
  pub cache : Mem
  pub committed_refresh : List RefreshToken
  pub committed_blacklist : List BlacklistedToken

abbrev pub refresh_table : Table World RefreshToken
refresh_table = table_at (λ w. w.refresh) (λ rs w. record w { refresh = rs })

abbrev pub blacklist_table : Table World BlacklistedToken
blacklist_table = table_at (λ w. w.blacklist) (λ rs w. record w { blacklist = rs })

abbrev pub world_cache : CacheClient World
world_cache = record {
  get = λ k w. let (r, m) = in_memory.get k w.cache in (r, record w { cache = m });
  set = λ k v ex w. let (r, m) = in_memory.set k v ex w.cache in (r, record w { cache = m });
  incr = λ k w. let (r, m) = in_memory.incr k w.cache in (r, record w { cache = m });
  expire = λ k n w. let (r, m) = in_memory.expire k n w.cache in (r, record w { cache = m });
  delete = λ k w. let (r, m) = in_memory.delete k w.cache in (r, record w { cache = m });
}

abbrev pub token_of : ℕ → String → RefreshToken
token_of uid h = record {
  user_id = uid;
  token_hash = h;
  revoked = false;
  created_at = some 7;
  expires_at = some 900;
}

abbrev three_tokens : List RefreshToken
three_tokens = token_of 1 "h1" ∷ token_of 2 "h2" ∷ token_of 1 "h3" ∷ []

abbrev one_barred : List BlacklistedToken
one_barred = record { user_id = some 2; token = "gone"; expires_at = none } ∷ []

abbrev pub world : World
world = record {
  refresh = three_tokens;
  blacklist = one_barred;
  cache = empty_cache;
  committed_refresh = three_tokens;
  committed_blacklist = one_barred;
}

-- A commit, and the end of a session.
abbrev pub committed : World → World
committed w = record w { committed_refresh = w.refresh; committed_blacklist = w.blacklist }

abbrev pub close : World → World
close w = record w { refresh = w.committed_refresh; blacklist = w.committed_blacklist }

abbrev pub py : Conversions
py = record { fromtimestamp = λ v. none; fromisoformat = λ s. none; repr = λ v. "" }

abbrev pub claims_of : String → TokenClaims
claims_of subject = record {
  subject = subject;
  tenant_id = some (pos 1);
  issued_at = none;
  expires_at = none;
  extra = end;
}

-- A hash that the tests can read.
abbrev pub plain : {S : Type 0} → CryptContext S
plain = record {
  hash = λ password. pure password;
  verify = λ password hashed. pure (password == hashed);
}
