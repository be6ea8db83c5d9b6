-- ===== src/Access/RateLimit/Window.antt =====
-- How many requests the counter lets through.
use clean_architecture_saas.Prelude.{
  ℕ, ◌+◌, ◌-◌, ◌<◌, ◌≤◌, ◌≡◌, none, List, [], ◌∷◌, arith, ltb, if◌then◌else◌, length, subst,
}
use clean_architecture_saas.Python.Exec.{ok, raised, http, Exc, Result}
use clean_architecture_saas.Python.Int.{pos}
use clean_architecture_saas.Cache.Client.{CacheClient}
use clean_architecture_saas.Cache.InMemory.{Mem, in_memory, tick}
use clean_architecture_saas.Cache.InMemory.Laws.{view, incr-absent}
use clean_architecture_saas.Cache.InMemory.Counter.{
  Counts, Counts-tick, Counts-incr, Counts-first, Counts-view, expire-ok,
}
use clean_architecture_saas.Access.RateLimit.{
  Caller, limits, limit, rate_key, count_request, require_rate_limit,
}

-- If the cache raises on counting, the request passes, where the limit and the period are read as
-- natural numbers.
fails_open :
    {S : Type 0} (cache : CacheClient S) (caller : Caller) (calls period : ℕ) (e : Exc) (s : S)
    → limit (limits caller.tenant) "calls" 10 ≡ ok (pos calls)
    → limit (limits caller.tenant) "period" 60 ≡ ok (pos period)
    → (cache.incr (rate_key caller) s).0 ≡ raised e
    → (require_rate_limit cache caller s).0 ≡ ok tt
unfolding require_rate_limit count_request
fails_open cache caller calls period e s c p h = ground arith

-- The answer to a request when `n` requests were counted before it.
abbrev pub answer : ℕ → ℕ → Result (Unit {0})
answer n calls = if ltb n calls then ok tt else raised (http 429 "Too many requests")

abbrev pub sum : List ℕ → ℕ
sum [] = 0
sum (d ∷ ds) = d + sum ds

module _ (caller : Caller) (calls period : ℕ)
    (reads_calls : limit (limits caller.tenant) "calls" 10 ≡ ok (pos calls))
    (reads_period : limit (limits caller.tenant) "period" 60 ≡ ok (pos period)) where
  -- Requests of one caller, each after a pause.
  abbrev pub requests : List ℕ → Mem → Mem
  requests [] m = m
  requests (d ∷ ds) m = requests ds (require_rate_limit in_memory caller (tick d m)).1

  first_request :
      (m : Mem)
      → view m (rate_key caller) ≡ none
      → ((require_rate_limit in_memory caller m).0 ≡ answer 0 calls)
        × Counts (rate_key caller) 1 period (require_rate_limit in_memory caller m).1
  unfolding require_rate_limit count_request
  first_request m h = ground (
    arith,
    reads_calls,
    reads_period,
    incr-absent (rate_key caller) m h,
    expire-ok (rate_key caller) period (in_memory.incr (rate_key caller) m).1,
    Counts-first (rate_key caller) period m h,
  )

  next_request :
      (n left : ℕ) (m : Mem)
      → 0 < n
      → 0 < left
      → Counts (rate_key caller) n left m
      → ((require_rate_limit in_memory caller m).0 ≡ answer n calls)
        × Counts (rate_key caller) (n + 1) left (require_rate_limit in_memory caller m).1
  unfolding require_rate_limit count_request
  next_request n left m p q c =
      ground (arith, reads_calls, reads_period, Counts-incr (rate_key caller) n left m q c)

  counted :
      (ds : List ℕ) (n left : ℕ) (m : Mem)
      → 0 < n
      → sum ds < left
      → Counts (rate_key caller) n left m
      → Counts (rate_key caller) (n + length ds) (left - sum ds) (requests ds m)
  counted [] n left m p q c = ground (arith, c)
  counted (d ∷ ds) n left m p q c =
      subst (λ x. Counts (rate_key caller) x (left - (d + sum ds)) (requests (d ∷ ds) m))
        (omega arith)
        (subst (λ x. Counts (rate_key caller) (n + 1 + length ds) x (requests (d ∷ ds) m))
          (omega arith)
          (counted ds (n + 1) (left - d) (require_rate_limit in_memory caller (tick d m)).1
            (omega arith) (omega arith)
            (next_request n (left - d) (tick d m) p (omega arith)
              (Counts-tick (rate_key caller) n left d m (omega arith) c)).1))

  -- Over the cache in memory, with a limit of `calls` per `period` and no counter there yet: of the
  -- requests that a caller makes within one period after the first one, with any pauses between
  -- them, exactly the first `calls` pass and all others get status 429.
  pub window_lem :
      (ds : List ℕ) (d : ℕ) (m : Mem)
      → view m (rate_key caller) ≡ none
      → sum ds + d < period
      → let start = (require_rate_limit in_memory caller m) in
        (start.0 ≡ answer 0 calls)
        × ((require_rate_limit in_memory caller (tick d (requests ds start.1))).0
            ≡ answer (1 + length ds) calls)
  window_lem ds d m h q = (
    (first_request m h).0,
    (next_request (1 + length ds) (period - sum ds - d)
        (tick d (requests ds (require_rate_limit in_memory caller m).1)) (omega arith) (omega arith)
        (Counts-tick (rate_key caller) (1 + length ds) (period - sum ds) d
          (requests ds (require_rate_limit in_memory caller m).1) (omega arith)
          (counted ds 1 period (require_rate_limit in_memory caller m).1 (omega arith) (omega arith)
            (first_request m h).1))).0,
  )

  -- Over the cache in memory, with no counter there at first: when the requests after the first one
  -- fall within its period and the period is over, no counter is seen any more.
  window_over :
      (ds : List ℕ) (d : ℕ) (m : Mem)
      → view m (rate_key caller) ≡ none
      → sum ds < period
      → period ≤ sum ds + d
      → view (tick d (requests ds (require_rate_limit in_memory caller m).1)) (rate_key caller)
        ≡ none
  window_over ds d m h q over =
      Counts-view (rate_key caller) (1 + length ds) (period - sum ds) d
        (requests ds (require_rate_limit in_memory caller m).1) (omega arith)
        (counted ds 1 period (require_rate_limit in_memory caller m).1 (omega arith) q
          (first_request m h).1)
