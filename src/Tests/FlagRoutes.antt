-- ===== src/Tests/FlagRoutes.antt =====
-- The route that updates a flag, over one flag and the audit log beside it.
use clean_architecture_saas.Prelude.{String, ◌≡◌, refl, false, Option, none, some, List, [], ◌∷◌}
use clean_architecture_saas.Python.Exec.{Exec, failure, pure, raise, ◌>>=◌}
use clean_architecture_saas.Python.Int.{ℤ, pos}
use clean_architecture_saas.Python.Value.{flag, dict, Fields, end, field, get_field}
use clean_architecture_saas.Audit.{Audit, sql_audit}
use clean_architecture_saas.Domain.User.{User}
use clean_architecture_saas.Cache.Client.{CacheClient}
use clean_architecture_saas.Db.ListTable.{table_at}
use clean_architecture_saas.Db.Table.{Table}
use clean_architecture_saas.Features.{FeatureFlagRepository}
use clean_architecture_saas.Features.Repository
use clean_architecture_saas.Features.Repository.{FlagRow, NewFlag, new_row}
use clean_architecture_saas.Tenants.Repository.{TenantRepository}
use clean_architecture_saas.Users.Repository.{UserRepository}
use clean_architecture_saas.Routers.Asking.{Asking}
use clean_architecture_saas.Routers.Features.{update_feature}
use clean_architecture_saas.Routers.Features.Unaudited.{update_unaudited}
use clean_architecture_saas.Tests.Routers.{caller}
use clean_architecture_saas.Tests.Stored.{beta}
use clean_architecture_saas.Tests.World.{claims_of, py}

abbrev Both : Type 0
Both = List FlagRow × List Audit

abbrev flag_table : Table Both FlagRow
flag_table = table_at (λ s. s.0) (λ rows s. (rows, s.1))

abbrev events : Table Both Audit
events = table_at (λ s. s.1) (λ rows s. (s.0, rows))

abbrev accounts : Table Both User
accounts = table_at (λ s. []) (λ rows s. s)

abbrev some_or_raise : Option Fields → Exec Both Fields
some_or_raise none = raise (failure "'NoneType' object has no attribute 'get'")
some_or_raise (some fs) = pure fs

abbrev stored_flags : FeatureFlagRepository Both
stored_flags = record {
  create = λ tid fs. pure fs;
  get_by_key = λ tid key. Repository.get_by_key flag_table 50 tid key;
  get_by_id = λ id. Repository.get_by_id flag_table 50 id;
  update = λ id fs. Repository.update flag_table 50 id fs >>= some_or_raise;
  delete = λ id. Repository.delete flag_table 50 id;
  list = λ tid limit offset. Repository.list_flags flag_table 50 tid limit offset;
}

abbrev no_users : UserRepository Both
no_users = record {
  create = λ u. pure u;
  get_by_email = λ tid email. pure none;
  get_by_email_global = λ email. pure none;
  get_by_id = λ n. pure none;
  list_by_tenant = λ tid. pure [];
  delete = λ n. pure tt;
  update = λ n fs. pure none;
  set_password = λ n h. pure tt;
  update_last_login = λ n t. pure tt;
  set_email = λ n e. pure tt;
}

abbrev no_tenants : TenantRepository Both
no_tenants = record {
  create = λ t. pure t;
  get_by_id = λ n. pure none;
  list_all = pure [];
  get_by_slug = λ slug. pure none;
  update = λ n fs. pure none;
  delete = λ n. pure tt;
}

abbrev no_cache : CacheClient Both
no_cache = record {
  get = λ k. pure none;
  set = λ k v ex. pure tt;
  incr = λ k. pure (pos 1);
  expire = λ k n. pure tt;
  delete = λ k. pure tt;
}

abbrev asking : Asking
asking = record {
  caller = caller;
  agent = none;
  claims = claims_of "1";
  perms = "update_feature_flag" ∷ [];
}

abbrev silenced : Fields
silenced = field "audit_enabled" (flag false) end

abbrev request : Fields
request = field "is_enabled" (flag false) (field "actor_user" (dict silenced) end)

abbrev start : Both
start = (record (new_row 7 beta) { id = some 9 } ∷ [], [])

abbrev no_hash : String → ℤ
no_hash s = pos 0

update_unaudited_example :
    update_feature py no_hash stored_flags no_users no_tenants
      (some (sql_audit accounts events 50))
      no_cache
      9
      request
      asking
      start
    ≡ update_feature py no_hash stored_flags no_users no_tenants none no_cache 9 request asking
        start
unfolding get_field
update_unaudited_example =
    update_unaudited py no_hash stored_flags no_users no_tenants no_cache accounts events 50 9
      request asking start silenced refl refl
