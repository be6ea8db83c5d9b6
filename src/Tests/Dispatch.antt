-- ===== src/Tests/Dispatch.antt =====
-- A request with a host and a token, through the middleware.
use clean_architecture_saas.Prelude.{String, ◌≡◌, refl, none, some, [], ◌∷◌}
use clean_architecture_saas.Python.Exec.{Result, ok, pure}
use clean_architecture_saas.Python.Dict
use clean_architecture_saas.Python.Int.{pos}
use clean_architecture_saas.Python.Text.{parse_int}
use clean_architecture_saas.Python.Value.{num, text, Fields, end, field}
use clean_architecture_saas.Auth.CurrentUser.{verify_token}
use clean_architecture_saas.Cache.InMemory.{Mem, in_memory, get, set}
use clean_architecture_saas.Cache.Keys.{session}
use clean_architecture_saas.Requests
use clean_architecture_saas.Requests.{Request, RequestState, Repositories}
use clean_architecture_saas.Requests.Isolation.{dispatch_isolates}
use clean_architecture_saas.Tests.World.{empty_cache, tenant_of, py, claims_of}

abbrev decode : String → Result Fields
decode token = ok (field "sub" (text "1") (field "tenant_id" (num (pos 1)) end))

abbrev acme : Repositories Mem
acme = record {
  tenants = record {
    create = λ t. pure t;
    get_by_id = λ id. pure (some (tenant_of 1 "active"));
    list_all = pure [];
    get_by_slug = λ slug. pure (some (tenant_of 1 "active"));
    update = λ id fields. pure none;
    delete = λ id. pure tt;
  };
  list_user_permissions = λ id. pure ("read_tenant_users" ∷ []);
}

abbrev request : Request
request = record {
  path = "/api/v1/users";
  host = some "acme.example.com";
  authorization = some "Bearer  good ";
}

abbrev signed_in : Mem
signed_in = (set (session "good") (text "good") none empty_cache).1

dispatch_isolates_example :
    ((tenant_of 1 "active").status ≡ "active") × ((tenant_of 1 "active").id ≡ some 1)
unfolding Requests.dispatch verify_token get set Dict.get Dict.put session parse_int
dispatch_isolates_example =
    dispatch_isolates py decode (λ s. s) (some acme) (some in_memory) request signed_in
      (record {
        tenant = some (tenant_of 1 "active");
        current_user = some (claims_of "1");
        user_permissions = "read_tenant_users" ∷ [];
      })
      (tenant_of 1 "active") (claims_of "1") (pos 1) 1 refl refl refl refl refl
