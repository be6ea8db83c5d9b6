-- ===== src/Users/Repository/Laws.antt =====
-- What the repository's statements do to the stored users, and what they leave alone.
use clean_architecture_saas.Prelude.{
  ℕ, String, ◌≡◌, refl, ap, ◌∙◌, Bool, true, false, Option, none, some, List, [], ◌∷◌, map, arith,
  ◌==◌, if◌then◌else◌, inl, inr, subst, Bool-cases, eq_iff,
}
use clean_architecture_saas.Python.Int.{pos, negsuc}
use clean_architecture_saas.Python.Value.{Value, Fields, end, field}
use clean_architecture_saas.Domain.User.{User}
use clean_architecture_saas.Db.Table.{Table, Documented}
use clean_architecture_saas.Users.Repository.{
  compose, update_allowed, set_column, set_columns, allowed_fields, update, update_columns,
  get_by_id, has_id, is_allowed,
}

-- The credentials and the identity of a user.
pub record Guarded : Type 0 where
  pub id : Option ℕ
  pub tenant_id : ℕ
  pub email : String
  pub hashed_password : String

abbrev pub guarded : User → Guarded
guarded u = record {
  id = u.id;
  tenant_id = u.tenant_id;
  email = u.email;
  hashed_password = u.hashed_password;
}

-- What a column does to a row, if the database takes it, leaves the guarded part alone.
pub data Keeps : Option (User → User) → Type 0 where
  refused : Keeps none
  kept : (f : User → User) → ((u : User) → guarded (f u) ≡ guarded u) → Keeps (some f)

keeps_if : (b : Bool) {o p : Option (User → User)} → Keeps o → Keeps p → Keeps (if b then o else p)
keeps_if true h k = h
keeps_if false h k = k

-- An allowed column is none of those that are not allowed.
apart : (k name : String) → is_allowed k ≡ true → is_allowed name ≡ false → (k == name) ≡ false
apart k name listed unlisted = elim (Bool-cases (k == name)) [
  | inr other ↦ other
  | inl same ↦ absurd (
      ground
        (arith, listed, unlisted, subst (λ x. is_allowed x ≡ true) ((eq_iff k name).0 same) listed))
]

keeps_else :
    (b : Bool) (o : Option (User → User)) {p : Option (User → User)}
    → b ≡ false
    → Keeps p
    → Keeps (if b then o else p)
keeps_else b o e h = rw e h

column_keeps : (k : String) (v : Value) → is_allowed k ≡ true → Keeps (set_column k v)
unfolding set_column
column_keeps k (Value.text s) listed = keeps_if (k == "first_name") (kept _ λ u. refl) (
    keeps_if (k == "last_name") (kept _ λ u. refl) (
      keeps_if (k == "role") (kept _ λ u. refl) (
        keeps_else _ _ (apart k "email" listed refl)
          (keeps_else _ _ (apart k "hashed_password" listed refl) refused))))
column_keeps k Value.nul listed = keeps_if (k == "first_name") (kept _ λ u. refl) (
    keeps_if (k == "last_name") (kept _ λ u. refl) (
      keeps_if (k == "is_active") (kept _ λ u. refl) (
        keeps_if (k == "last_login_at") (kept _ λ u. refl) (
          keeps_if (k == "created_at") (kept _ λ u. refl)
            (keeps_if (k == "updated_at") (kept _ λ u. refl) refused)))))
column_keeps k (Value.flag b) listed = keeps_if (k == "is_active") (kept _ λ u. refl) (
    keeps_if (k == "email_verified") (kept _ λ u. refl)
      (keeps_if (k == "audit_enabled") (kept _ λ u. refl) refused))
column_keeps k (Value.num (pos n)) listed =
    keeps_else _ _ (apart k "id" listed refl)
      (keeps_else _ _ (apart k "tenant_id" listed refl) refused)
column_keeps k (Value.num (negsuc n)) listed = refused
column_keeps k (Value.list vs) listed = refused
column_keeps k (Value.texts ss) listed = refused
column_keeps k (Value.dict fs) listed = refused
column_keeps k (Value.user u) listed = refused
column_keeps k (Value.users us) listed = refused
column_keeps k (Value.moment t) listed = keeps_if (k == "last_login_at") (kept _ λ u. refl) (
    keeps_if (k == "created_at") (kept _ λ u. refl)
      (keeps_if (k == "updated_at") (kept _ λ u. refl) refused))

compose_keeps : (o p : Option (User → User)) → Keeps o → Keeps p → Keeps (compose o p)
compose_keeps (some f) (some g) (kept _ h) (kept _ k) = kept _ λ u. k (f u) ∙ h u
compose_keeps (some f) none (kept _ h) refused = refused
compose_keeps none p refused k = refused

-- The columns that are left by the whitelist.
pub columns_keep : (fs : Fields) → Keeps (set_columns (allowed_fields fs))
unfolding set_columns allowed_fields
columns_keep end = kept _ λ u. refl
columns_keep (field k v fs) = elim (Bool-cases (is_allowed k)) [
  | inl listed ↦ rw listed (
      compose_keeps (set_column k v) (set_columns (allowed_fields fs)) (column_keeps k v listed)
        (columns_keep fs))
  | inr unlisted ↦ rw unlisted (columns_keep fs)
]

map_keeps :
    (n : ℕ) (f : User → User) (rows : List User)
    → ((u : User) → guarded (f u) ≡ guarded u)
    → map guarded (map (λ u. if has_id n u then f u else u) rows) ≡ map guarded rows
map_keeps n f [] h = refl
map_keeps n f (u ∷ rows) h = ground (arith, h u, map_keeps n f rows h)

module _ {S : Type 0} (table : Table S User) (rows : S → List User)
    (documented : Documented table rows) (now : ℕ) where
  reading_keeps : (n : ℕ) (s : S) → (get_by_id table now n s).1 ≡ s
  unfolding get_by_id
  reading_keeps n s = ground (arith, documented.select_lem (has_id n) s)

  columns_guard :
      (n : ℕ) (o : Option (User → User)) (s : S)
      → Keeps o
      → map guarded (rows (update_columns table now n o s).1) ≡ map guarded (rows s)
  unfolding update_columns
  columns_guard n none s refused = refl
  columns_guard n (some f) s (kept _ h) = ground (
    arith,
    documented.update_ok (has_id n) (λ u. record (f u) { updated_at = some now }) s,
    documented.update_rows (has_id n) (λ u. record (f u) { updated_at = some now }) s,
    reading_keeps n (table.update (has_id n) (λ u. record (f u) { updated_at = some now }) s).1,
    map_keeps n (λ u. record (f u) { updated_at = some now }) (rows s) h,
  )

  allowed_guard :
      (n : ℕ) (fs : Fields) (s : S)
      → Keeps (set_columns fs)
      → map guarded (rows (update_allowed table now n fs s).1) ≡ map guarded (rows s)
  allowed_guard n end s keeps = ap (λ t. map guarded (rows t)) (reading_keeps n s)
  allowed_guard n (field k v fs) s keeps = columns_guard n (set_columns (field k v fs)) s keeps

  -- Over a table with the documented behaviour: whatever fields a request names, `update` leaves the
  -- id, the tenant, the e-mail address and the password hash of every stored user as they were, also
  -- when the database refuses a value.
  pub update_guards :
      (n : ℕ) (fields : Fields) (s : S)
      → map guarded (rows (update table now n fields s).1) ≡ map guarded (rows s)
  unfolding update
  update_guards n fields s = allowed_guard n (allowed_fields fields) s (columns_keep fields)
