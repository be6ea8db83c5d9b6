-- ===== src/Access/RateLimit/Beside.antt =====
-- The rate limit touches nothing but the cache's counters.
use clean_architecture_saas.Prelude.{ℕ, String}
use clean_architecture_saas.Python.Int.{ℤ}
use clean_architecture_saas.Python.Preserves.{Preserves, after_if, after_handle, after_bind}
use clean_architecture_saas.Cache.Client.{CacheClient}
use clean_architecture_saas.Access.RateLimit.{Caller, rate_key, count_request, require_rate_limit}

module _ {S : Type 0} (P : S → Type 0) (cache : CacheClient S) where
  count_request-Preserves :
      (key : String) (period : ℤ)
      → Preserves P (cache.incr key)
      → ((n : ℕ) → Preserves P (cache.expire key n))
      → Preserves P (count_request cache key period)
  unfolding count_request
  count_request-Preserves key period incr expire s p =
      unfold count_request in search (after_handle P, after_bind P, after_if P, incr, expire)

  -- Only the counter of the caller is written.
  pub require_rate_limit-Preserves :
      (caller : Caller)
      → Preserves P (cache.incr (rate_key caller))
      → ((n : ℕ) → Preserves P (cache.expire (rate_key caller) n))
      → Preserves P (require_rate_limit cache caller)
  unfolding require_rate_limit
  require_rate_limit-Preserves caller incr expire s p =
      search (after_bind P, after_if P, count_request-Preserves, incr, expire)
