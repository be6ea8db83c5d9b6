-- ===== src/Access/Hierarchy.antt =====
-- deps/auth.py: `require_role_hierarchy_for_user_management`.
pub mod Order
use clean_architecture_saas.Prelude.{
  ℕ, String, Bool, true, Option, none, some, ◌==◌, leb, if◌then◌else◌,
}
use clean_architecture_saas.Python.Exec.{
  failure, http, Result, ok, raised, Exec, pure, raise, lift, attempt, ◌>>=◌,
}
use clean_architecture_saas.Python.Int.{ℤ, pos, negsuc, eq_ℤ}
use clean_architecture_saas.Python.Text.{parse_int}
use clean_architecture_saas.Python.Value.{
  Value, nul, text, list, texts, dict, user, users, get_field,
}
use clean_architecture_saas.Domain.Auth.{TokenClaims}
use clean_architecture_saas.Domain.User.{User}
use clean_architecture_saas.Users.Repository.{UserRepository}
use clean_architecture_saas.Access.Permissions.{user_at}

-- `ROLE_LEVELS.get(role, 1)` of a text
unfoldable pub role_level : String → ℕ
role_level role =
    if role == "guest"
    then 0
    else if role == "admin"
    then 2
    else if role == "super_admin"
    then 3
    else 1

-- The same of any value of a body: what cannot be hashed raises.
unfoldable pub value_level : Value → Result ℕ
unfolding role_level
value_level (text role) = ok (role_level role)
value_level (list vs) = raised (failure "unhashable type")
value_level (texts ss) = raised (failure "unhashable type")
value_level (dict fs) = raised (failure "unhashable type")
value_level (user u) = raised (failure "unhashable type")
value_level (users us) = raised (failure "unhashable type")
value_level v = ok 1

-- The parameters of the dependency. `body` is the JSON body, if there is one that can be read.
pub record Target : Type 0 where
  pub target_user_id : Option ℤ
  pub id : Option ℤ
  pub query_role : Option String
  pub body : Option Value

abbrev body_role : Option Value → Option Value
body_role (some (dict fs)) = elim (get_field fs "role") [
  | none ↦ none
  | some v ↦ elim v [ nul ↦ none | w ↦ some w ]
]
body_role o = none

-- The role that the request names: its query parameter, or else its body's.
unfoldable pub requested_role : Target → Option Value
unfolding get_field
requested_role t = elim t.query_role [ none ↦ body_role t.body | some r ↦ some (text r) ]

abbrev pub user_id_to_check : Target → Option ℤ
user_id_to_check t = elim t.target_user_id [ none ↦ t.id | some n ↦ some n ]

abbrev pub subject_id : Option TokenClaims → Option ℤ
subject_id none = none
subject_id (some c) = parse_int c.subject

-- `current_level <= target_level` is refused.
abbrev pub outranks : ℕ → ℕ → Result Bool
outranks current target =
    if leb current target then raised (http 403 "Insufficient role hierarchy") else ok true

module _ {S : Type 0} (repo : UserRepository S) where
  abbrev pub read_user : ℤ → Exec S (Option User)
  read_user n = attempt (user_at repo n) (λ e. pure none)

  abbrev pub over_target : ℕ → Option User → Result Bool
  over_target current none = raised (http 404 "target user not found")
  over_target current (some u) = outranks current (role_level u.role)

  abbrev pub over_user : ℤ → ℕ → Option ℤ → Exec S Bool
  over_user uid current none = raise (http 400 "role or target_user_id required")
  over_user uid current (some n) =
      if eq_ℤ n uid then pure true else (do target ← read_user n; lift (over_target current target))

  abbrev pub over_role : ℕ → Value → Exec S Bool
  over_role current role = do target ← lift (value_level role); lift (outranks current target)

  abbrev pub with_current : Target → ℤ → Option User → Exec S Bool
  with_current t uid none = raise (http 403 "Insufficient privileges")
  with_current t uid (some me) = elim (requested_role t) [
    | some role ↦ over_role (role_level me.role) role
    | none ↦ over_user uid (role_level me.role) (user_id_to_check t)
  ]

  abbrev pub as_subject : Target → Option ℤ → Exec S Bool
  as_subject t none = raise (http 401 "Not authenticated")
  as_subject t (some uid) = do me ← read_user uid; with_current t uid me

  unfoldable pub require_role_hierarchy : Target → Option TokenClaims → Exec S Bool
  unfolding requested_role role_level value_level
  require_role_hierarchy t claims = as_subject t (subject_id claims)
