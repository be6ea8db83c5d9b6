-- ===== src/Requests.antt =====
-- middleware/current_user.py: the tenant and the user of a request. Header texts are of Latin-1, as
-- HTTP headers are decoded; the logging is left out.
pub mod Isolation
use Prim.Native.Char.{code}
use Prim.Native.String
use mathlib.Core.Option
use clean_architecture_saas.Prelude.{
  ℕ, String, Bool, true, false, not, ◌&&◌, ◌||◌, Option, none, some, List, [], ◌∷◌, ◌==◌, leb,
  nat_eq, if◌then◌else◌,
}
use clean_architecture_saas.Python.Exec.{
  failure, value_error, Result, ok, raised, Exec, pure, raise, lift, attempt, ◌>>=◌,
}
use clean_architecture_saas.Python.Int.{ℤ, pos, negsuc, eq_ℤ}
use clean_architecture_saas.Python.Text.{codes, parse_int}
use clean_architecture_saas.Python.Substring.{starts}
use clean_architecture_saas.Python.Value.{Value, Fields, get_field, truthy, or_nul}
use clean_architecture_saas.Domain.Auth.{TokenClaims, Conversions, to_dict}
use clean_architecture_saas.Domain.Tenant.{Tenant, lower}
use clean_architecture_saas.Auth.CurrentUser.{verify_token}
use clean_architecture_saas.Cache.Client.{CacheClient}
use clean_architecture_saas.Cache.InMemory.{int_of}
use clean_architecture_saas.Cache.Keys.{session}
use clean_architecture_saas.Tenants.Repository.{TenantRepository}

pub record Request : Type 0 where
  pub path : String
  pub host : Option String
  pub authorization : Option String

-- What the middleware attaches to the request.
pub record RequestState : Type 0 where
  pub tenant : Option Tenant
  pub current_user : Option TokenClaims
  pub user_permissions : List String

-- The request goes on, or is answered at once.
pub data Dispatched : Type 0 where
  passes : RequestState → Dispatched
  replies : ℕ → String → Dispatched

-- The left-most label of a host that has several.
left_label : String → Option String
left_label String.[] = none
left_label (String.◌∷◌ c s) =
    let rest = left_label s in
    if nat_eq (code c) b'.' then some "" else Option.map (λ l. String.◌∷◌ c l) rest

-- `c.isdigit()`, with the superscripts of Latin-1
abbrev is_digit : ℕ → Bool
is_digit c = (leb b'0' c && leb c b'9') || nat_eq c 178 || nat_eq c 179 || nat_eq c 185

all_digits : List ℕ → Bool
all_digits [] = true
all_digits (c ∷ cs) = is_digit c && all_digits cs

-- An empty label is no slug for `if slug`.
unfoldable pub slug_of : Option String → Option String
unfolding left_label all_digits
slug_of none = none
slug_of (some host) = elim (left_label host) [
  | none ↦ none
  | some left ↦
      if left == "" || left == "localhost" || left == "127" || all_digits (codes left)
      then none
      else some left
]

-- White space of Latin-1
abbrev is_blank : ℕ → Bool
is_blank c =
    nat_eq c 32 || (leb 9 c && leb c 13) || (leb 28 c && leb c 31) || nat_eq c 133 || nat_eq c 160

left_strip : String → String
left_strip String.[] = ""
left_strip (String.◌∷◌ c s) =
    let rest = left_strip s in if is_blank (code c) then rest else String.◌∷◌ c s

right_strip : String → String
right_strip String.[] = ""
right_strip (String.◌∷◌ c s) =
    let rest = right_strip s in if rest == "" && is_blank (code c) then "" else String.◌∷◌ c rest

after_space : String → String
after_space String.[] = ""
after_space (String.◌∷◌ c s) = let rest = after_space s in if nat_eq (code c) 32 then s else rest

-- The token of a bearer header; an empty one counts as none.
unfoldable pub bearer : Option String → Option String
unfolding left_strip right_strip after_space starts lower
bearer none = none
bearer (some header) =
    let token = right_strip (left_strip (after_space header)) in
    if starts (codes "bearer ") (lower header) && not (token == "") then some token else none

-- The two repositories that the middleware opens, if there is a database.
pub record Repositories (S : Type 0) : Type 0 where
  pub tenants : TenantRepository S
  pub list_user_permissions : ℕ → Exec S (List String)

abbrev pub health : String → Bool
health path = starts (codes "/health") (codes path) || starts (codes "/api/v1/health") (codes path)

module _ {S : Type 0} (py : Conversions) (decode : String → Result Fields)
    (sha256 : String → String) (repos : Option (Repositories S))
    (cache : Option (CacheClient S)) where
  abbrev pub claims_of : Option String → Option TokenClaims
  claims_of none = none
  claims_of (some token) = elim (verify_token py decode token) [ ok c ↦ some c | raised e ↦ none ]

  -- Of the lookups the answer is the tenant, if there was one to look for, and whether it is missing.
  abbrev looked_up : Option Tenant → Option Tenant × Bool
  looked_up none = (none, true)
  looked_up (some t) = (some t, false)

  abbrev at_id : Repositories S → Option ℤ → Exec S (Option Tenant × Bool)
  at_id r none = raise (value_error "invalid literal for int()")
  at_id r (some (negsuc n)) = pure (none, true)
  at_id r (some (pos n)) = do found ← r.tenants.get_by_id n; pure (looked_up found)

  abbrev by_claims : Repositories S → Option TokenClaims → Exec S (Option Tenant × Bool)
  by_claims r none = pure (none, false)
  by_claims r (some c) = elim (get_field (to_dict c) "tenant_id") [
    | none ↦ pure (none, false)
    | some v ↦ at_id r (int_of v)
  ]

  abbrev by_slug :
      Repositories S → Option String → Option TokenClaims → Exec S (Option Tenant × Bool)
  by_slug r none claims = by_claims r claims
  by_slug r (some slug) claims = do found ← r.tenants.get_by_slug slug; pure (looked_up found)

  -- A lookup that raises counts as one that looked for nothing.
  abbrev pub resolve : Option String → Option TokenClaims → Exec S (Option Tenant × Bool)
  resolve slug claims = elim repos [
    | none ↦ pure (none, false)
    | some r ↦ attempt (by_slug r slug claims) (λ e. pure (none, false))
  ]

  abbrev pub session_user : Option String → Option TokenClaims → Exec S (Option TokenClaims)
  session_user none claims = pure none
  session_user (some token) none = pure none
  session_user (some token) (some c) = elim cache [
    | none ↦ pure (some c)
    | some k ↦ do
      entry ← k.get (session (sha256 token))
      pure (if truthy (or_nul entry) then some c else none)
  ]

  -- The tenant of the token is another one than the resolved one.
  abbrev pub mismatch : Option Tenant → Option ℤ → Bool
  mismatch none tid = false
  mismatch (some t) none = false
  mismatch (some t) (some tid) = elim t.id [ none ↦ true | some n ↦ not (eq_ℤ tid (pos n)) ]

  abbrev pub permissions : ℤ → Exec S (List String)
  permissions (negsuc n) = pure []
  permissions (pos n) = elim repos [ none ↦ pure [] | some r ↦ r.list_user_permissions n ]

  abbrev pub with_user : Option Tenant → Option TokenClaims → Exec S Dispatched
  with_user tenant none =
      pure (passes (record { tenant = tenant; current_user = none; user_permissions = [] }))
  with_user tenant (some c) = elim (parse_int c.subject) [
    | none ↦
        pure (passes (record { tenant = tenant; current_user = some c; user_permissions = [] }))
    | some uid ↦
        if mismatch tenant c.tenant_id
        then pure (replies 403 "User tenant mismatch - access denied")
        else (do
          perms ← attempt (permissions uid) (λ e. pure [])
          pure (
              passes (record { tenant = tenant; current_user = some c; user_permissions = perms })))
  ]

  abbrev pub inactive : Option Tenant → Bool
  inactive none = false
  inactive (some t) = not (t.status == "active")

  abbrev pub with_tenant :
      Option String → Option TokenClaims → Option Tenant × Bool → Exec S Dispatched
  with_tenant token claims (tenant, missing) =
      if missing
      then pure (replies 404 "Tenant not found")
      else if inactive tenant
      then pure (replies 403 "Tenant is not active")
      else (do user ← session_user token claims; with_user tenant user)

  abbrev pub nothing_attached : RequestState
  nothing_attached = record { tenant = none; current_user = none; user_permissions = [] }

  -- A subject that is no number makes the block of the permissions raise before the comparison of
  -- the tenants.
  unfoldable pub dispatch : Request → Exec S Dispatched
  unfolding slug_of bearer starts get_field to_dict int_of
  dispatch request = if health request.path then pure (passes nothing_attached) else (do
    found ← resolve (slug_of request.host) (claims_of (bearer request.authorization))
    with_tenant (bearer request.authorization) (claims_of (bearer request.authorization)) found)
