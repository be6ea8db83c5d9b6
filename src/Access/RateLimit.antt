-- ===== src/Access/RateLimit.antt =====
-- deps/auth.py: `require_rate_limit`, over any cache client: the one of the application's state, if
-- there is one, or else the dependency's. Metrics and logging are left out.
pub mod Beside
pub mod Window
use clean_architecture_saas.Prelude.{
  ℕ, String, Bool, true, false, Option, none, some, if◌then◌else◌,
}
use clean_architecture_saas.Python.Exec.{
  failure, http, value_error, Result, ok, raised, Exec, pure, lift, raise, attempt, ◌>>=◌, ◌>>◌,
}
use clean_architecture_saas.Python.Int.{ℤ, pos, negsuc, ltb_ℤ, to_nat, eq_ℤ}
use clean_architecture_saas.Python.Text.{show}
use clean_architecture_saas.Python.Value.{Value, num, dict, truthy, Fields, end, get_field}
use clean_architecture_saas.Domain.Tenant.{Tenant}
use clean_architecture_saas.Cache.Client.{CacheClient}
use clean_architecture_saas.Cache.InMemory.{int_of}
use clean_architecture_saas.Cache.Keys.{◌&◌}

-- What the dependency reads of the request: the address of the client, the path, and the tenant
-- that the middleware resolved.
pub record Caller : Type 0 where
  pub ip : Option String
  pub path : String
  pub tenant : Option Tenant

-- `settings.get("rate_limit", {}) or {}`, of settings that are a dictionary
abbrev or_empty : Option Value → Value
or_empty none = dict end
or_empty (some v) = if truthy v then v else dict end

unfoldable pub limits : Option Tenant → Value
unfolding get_field
limits none = dict end
limits (some t) = elim t.settings [ dict fs ↦ or_empty (get_field fs "rate_limit") | _ ↦ dict end ]

abbrev or_raise : Option ℤ → Result ℤ
or_raise none = raised (value_error "not a number")
or_raise (some n) = ok n

abbrev of_default : ℕ → Option Value → Value
of_default default none = num (pos default)
of_default default (some v) = v

-- `int(rl.get(name, default))`: what is not a dictionary has no `get`.
unfoldable pub limit : Value → String → ℕ → Result ℤ
unfolding get_field int_of
limit (dict fs) name default = or_raise (int_of (of_default default (get_field fs name)))
limit v name default = raised (failure "no attribute get")

abbrev scope : Option Tenant → String
scope none = "global"
scope (some t) = elim t.id [ none ↦ "None" | some n ↦ show n ]

abbrev address : Option String → String
address none = "unknown"
address (some ip) = ip

unfoldable pub rate_key : Caller → String
rate_key c = "rl:tenant:" & (scope c.tenant & (":" & (address c.ip & (":" & c.path))))

module _ {S : Type 0} (cache : CacheClient S) where
  open cache use {incr, expire}

  -- The counter is increased, and its first increase sets its TTL; a period below zero ends the
  -- window at once, as zero does. If the cache raises, the request counts as none.
  unfoldable pub count_request : String → ℤ → Exec S ℤ
  count_request key period =
      attempt
        (do
          count ← incr key
          if eq_ℤ count (pos 1) then expire key (to_nat period) else pure tt
          pure count)
        (λ e. pure (pos 0))

  unfoldable pub require_rate_limit : Caller → Exec S (Unit {0})
  unfolding limits limit count_request
  require_rate_limit caller = do
    calls ← lift (limit (limits caller.tenant) "calls" 10)
    period ← lift (limit (limits caller.tenant) "period" 60)
    count ← count_request (rate_key caller) period
    if ltb_ℤ calls count then raise (http 429 "Too many requests") else pure tt
