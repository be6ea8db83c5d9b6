-- ===== src/Domain/User.antt =====
-- domain/user.py. A `datetime` is a number of seconds. The column `is_active` may be NULL.
use clean_architecture_saas.Prelude.{ℕ, String, Bool, Option, none, some}

pub record User : Type 0 where
  pub id : Option ℕ
  pub tenant_id : ℕ
  pub email : String
  pub hashed_password : String
  pub first_name : Option String
  pub last_name : Option String
  pub role : String
  pub email_verified : Bool
  pub audit_enabled : Bool
  pub is_active : Option Bool
  pub last_login_at : Option ℕ
  pub created_at : Option ℕ
  pub updated_at : Option ℕ

-- `__post_init__`: a missing timestamp is the present moment.
unfoldable pub post_init : ℕ → User → User
post_init now u = record u {
  created_at = elim u.created_at [ none ↦ some now | some t ↦ some t ];
  updated_at = elim u.updated_at [ none ↦ some now | some t ↦ some t ];
}
