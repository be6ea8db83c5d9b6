-- ===== src/Users/Caching.antt =====
-- infrastructure/repositories/caching/user_caching.py, around any repository of users. The handlers
-- only log. A cached value that is no `User` would be handed to the caller as it is, whose first use
-- of it raises; here it raises at once.
pub mod Beside
pub mod Coherence
pub mod Entries
pub mod Leak
pub mod Reads
pub mod Store
use clean_architecture_saas.Prelude.{
  ℕ, String, Bool, true, false, Option, none, some, List, [], ◌∷◌, ◌==◌, if◌then◌else◌,
}
use clean_architecture_saas.Python.Exec.{failure, Exec, pure, raise, attempt, ◌>>=◌, ◌>>◌}
use clean_architecture_saas.Python.Value.{Value, Fields, nul, user, users, truthy, or_nul}
use clean_architecture_saas.Domain.User.{User}
use clean_architecture_saas.Cache.Client.{CacheClient}
use clean_architecture_saas.Cache.Keys.{user_id, user_email, user_list}
use clean_architecture_saas.Users.Repository.{UserRepository}

-- `f"user:id:{u.id}"`
abbrev pub id_key : Option ℕ → String
id_key none = "user:id:None"
id_key (some n) = user_id n

abbrev pub as_user : {S : Type 0} → Value → Exec S (Option User)
as_user (user u) = pure (some u)
as_user v = raise (failure "not a user")

abbrev as_users : {S : Type 0} → Value → Exec S (List User)
as_users (users us) = pure us
as_users v = raise (failure "not a list of users")

-- `None` of a read that fails, or of a value that is not truthy
abbrev pub hit : Option Value → Option Value
hit o = if truthy (or_nul o) then o else none

abbrev pub best_effort : {S : Type 0} → Exec S (Unit {0}) → Exec S (Unit {0})
best_effort m = attempt m (λ e. pure tt)

module _ {S : Type 0} (inner : UserRepository S) (cache : Option (CacheClient S)) (ttl : ℕ) where
  abbrev pub lookup : CacheClient S → String → Exec S (Option Value)
  lookup c key = attempt (do v ← c.get key; pure (hit v)) (λ e. pure none)

  abbrev pub keep_user : CacheClient S → String → String → Option User → Exec S (Unit {0})
  keep_user c first second none = pure tt
  keep_user c first second (some u) =
      best_effort (do c.set first (user u) (some ttl); c.set second (user u) (some ttl))

  abbrev pub missed_id : CacheClient S → ℕ → Option Value → Exec S (Option User)
  missed_id c id (some v) = as_user v
  missed_id c id none = do
    u ← inner.get_by_id id
    keep_user c (user_id id) (elim u [ none ↦ "" | some w ↦ user_email w.email ]) u
    pure u

  unfoldable pub get_by_id : ℕ → Exec S (Option User)
  get_by_id id = elim cache [
    | none ↦ inner.get_by_id id
    | some c ↦ do v ← lookup c (user_id id); missed_id c id v
  ]

  abbrev pub missed_email :
      CacheClient S → String → Exec S (Option User) → Option Value → Exec S (Option User)
  missed_email c email read (some v) = as_user v
  missed_email c email read none = do
    u ← read
    keep_user c (user_email email) (elim u [ none ↦ "" | some w ↦ id_key w.id ]) u
    pure u

  -- The two reads by address share the key, in which there is no tenant.
  abbrev pub by_email : String → Exec S (Option User) → Exec S (Option User)
  by_email email read = elim cache [
    | none ↦ read
    | some c ↦ do v ← lookup c (user_email email); missed_email c email read v
  ]

  unfoldable pub get_by_email : ℕ → String → Exec S (Option User)
  get_by_email tid email = by_email email (inner.get_by_email tid email)

  unfoldable pub get_by_email_global : String → Exec S (Option User)
  get_by_email_global email = by_email email (inner.get_by_email_global email)

  abbrev pub on_cache : (CacheClient S → Exec S (Unit {0})) → Exec S (Unit {0})
  on_cache f = elim cache [ none ↦ pure tt | some c ↦ best_effort (f c) ]

  abbrev pub drop_list : ℕ → Exec S (Unit {0})
  drop_list tid = on_cache λ c. c.delete (user_list tid)

  unfoldable pub create : User → Exec S User
  create u = do created ← inner.create u; drop_list created.tenant_id; pure created

  -- Both steps are for a result that is not `None`.
  abbrev pub overwrite : Option User → Exec S (Unit {0})
  overwrite none = pure tt
  overwrite (some u) = do
    on_cache λ c. (do
      c.set (id_key u.id) (user u) (some ttl)
      c.set (user_email u.email) (user u) (some ttl))
    drop_list u.tenant_id

  unfoldable pub update : ℕ → Fields → Exec S (Option User)
  update id fields = do res ← inner.update id fields; overwrite res; pure res

  -- The row as it was, if it can be read.
  abbrev pub try_read : ℕ → Exec S (Option User)
  try_read id = attempt (inner.get_by_id id) (λ e. pure none)

  -- An empty address is not dropped.
  abbrev pub drop_email : CacheClient S → Option User → Exec S (Unit {0})
  drop_email c none = pure tt
  drop_email c (some u) = if u.email == "" then pure tt else c.delete (user_email u.email)

  abbrev pub drop_list_of : Option User → Exec S (Unit {0})
  drop_list_of none = pure tt
  drop_list_of (some u) = drop_list u.tenant_id

  unfoldable pub delete : ℕ → Exec S (Unit {0})
  delete id = do
    current ← try_read id
    inner.delete id
    on_cache λ c. (do c.delete (user_id id); drop_email c current)
    drop_list_of current

  abbrev missed_list : CacheClient S → ℕ → Option Value → Exec S (List User)
  missed_list c tid (some v) = as_users v
  missed_list c tid none = do
    rows ← inner.list_by_tenant tid
    best_effort (c.set (user_list tid) (users rows) (some ttl))
    pure rows

  unfoldable pub list_by_tenant : ℕ → Exec S (List User)
  list_by_tenant tid = elim cache [
    | none ↦ inner.list_by_tenant tid
    | some c ↦ do v ← lookup c (user_list tid); missed_list c tid v
  ]

  -- The row after the write tells which address to drop.
  abbrev pub drop_user : ℕ → Exec S (Unit {0})
  drop_user id = on_cache λ c. (do u ← inner.get_by_id id; c.delete (user_id id); drop_email c u)

  unfoldable pub set_password : ℕ → String → Exec S (Unit {0})
  set_password id hashed = do inner.set_password id hashed; drop_user id

  unfoldable pub update_last_login : ℕ → ℕ → Exec S (Unit {0})
  update_last_login id when = do inner.update_last_login id when; drop_user id

  unfoldable pub set_email : ℕ → String → Exec S (Unit {0})
  set_email id email = do
    old ← try_read id
    inner.set_email id email
    on_cache λ c. (do c.delete (user_id id); drop_email c old; c.delete (user_email email))

  abbrev pub caching_users : UserRepository S
  caching_users = record {
    create = create;
    get_by_email = get_by_email;
    get_by_email_global = get_by_email_global;
    get_by_id = get_by_id;
    list_by_tenant = list_by_tenant;
    delete = delete;
    update = update;
    set_password = set_password;
    update_last_login = update_last_login;
    set_email = set_email;
  }
