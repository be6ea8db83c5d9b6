-- ===== src/Tests/Identity.antt =====
-- The current user, its claims, and the life of a tenant.
use clean_architecture_saas.Prelude.{
  String, ◌≡◌, ◌↔◌, refl, true, none, some, List, [], ◌∷◌, ◌==◌, if◌then◌else◌,
}
use clean_architecture_saas.Python.Exec.{Result, ok, raised, failure}
use clean_architecture_saas.Python.Dict
use clean_architecture_saas.Python.Int.{pos}
use clean_architecture_saas.Python.Value.{text, num, Fields, end, field, get_field}
use clean_architecture_saas.Domain.Auth.{TokenClaims, from_payload, to_payload}
use clean_architecture_saas.Domain.Auth.RoundTrip.{from_payload-to_payload, Unreserved}
use clean_architecture_saas.Domain.Tenant
use clean_architecture_saas.Domain.Tenant.{Tenant, can_transition_to}
use clean_architecture_saas.Domain.Tenant.Lifecycle.{can_transition_to_iff, Move}
use clean_architecture_saas.Cache.Keys.{session}
use clean_architecture_saas.Cache.InMemory
use clean_architecture_saas.Cache.InMemory.{Mem, in_memory, tick}
use clean_architecture_saas.Db.ListTable.{list_table, Documented-list_table}
use clean_architecture_saas.Tenants.Repository.Laws.{find}
use clean_architecture_saas.Tenants.Service.Safety.{Command, obey_all, canceled_forever}
use clean_architecture_saas.Auth.CurrentUser.{get_current_user, verify_token}
use clean_architecture_saas.Auth.CurrentUser.Checks.{current_user_sound, Unbarred}
use clean_architecture_saas.Tokens.Refresh.{sql_tokens, is_token_blacklisted}
use clean_architecture_saas.Tests.World.{
  tenant_of, world, refresh_table, blacklist_table, world_cache, py, claims_of,
}

abbrev decode : String → Result Fields
decode token =
    if token == "forged"
    then raised (failure "Signature verification failed.")
    else ok
        (field "sub" (text "1") (field "tenant_id" (num (pos 1)) (field "exp" (num (pos 900)) end)))

current_user_sound_example :
    (verify_token py decode "good" ≡ ok (claims_of "1"))
    × Unbarred py decode
        (λ s. s)
        (sql_tokens refresh_table blacklist_table world_cache 50 none)
        world_cache
        900
        "good"
        world
unfolding get_current_user is_token_blacklisted InMemory.get InMemory.set Dict.get Dict.put session
current_user_sound_example =
    current_user_sound py decode (λ s. s)
      (sql_tokens refresh_table blacklist_table world_cache 50 none) world_cache 900 "good"
      (claims_of "1") world refl

abbrev staff_claims : TokenClaims
staff_claims = record {
  subject = "1";
  tenant_id = some (pos 1);
  issued_at = some 7;
  expires_at = some 900;
  extra = field "scope" (text "staff") end;
}

Unreserved-scope : Unreserved staff_claims.extra
unfolding get_field
Unreserved-scope = record {
  distinct = (refl, tt);
  no_sub = refl;
  no_tenant = refl;
  no_iat = refl;
  no_exp = refl;
}

from_payload-to_payload_example :
    from_payload py (to_payload staff_claims)
    ≡ ok (record staff_claims { issued_at = none; expires_at = none })
from_payload-to_payload_example = from_payload-to_payload py staff_claims Unreserved-scope

can_transition_to_iff_example :
    (can_transition_to (tenant_of 1 "Active") "SUSPENDED" ≡ true)
    ↔ Move (tenant_of 1 "Active") "SUSPENDED"
can_transition_to_iff_example = can_transition_to_iff (tenant_of 1 "Active") "SUSPENDED"

abbrev tenants : List Tenant
tenants = tenant_of 1 "active" ∷ tenant_of 2 "canceled" ∷ []

canceled_forever_example :
    find
      (obey_all list_table
        (λ s. s)
        Documented-list_table
        50
        (Command.suspend 1 ∷ Command.activate 2 ∷ [])
        tenants)
      2
    ≡ some (tenant_of 2 "canceled")
unfolding find Tenant.reads
canceled_forever_example =
    canceled_forever list_table (λ s. s) Documented-list_table 50
      (Command.suspend 1 ∷ Command.activate 2 ∷ []) 2 (tenant_of 2 "canceled") tenants refl refl
