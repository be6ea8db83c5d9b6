-- ===== src/Users/Caching/Store.antt =====
-- The repository on a list of rows beside the cache in memory meets what the proofs rely on.
use mathlib.Core.Option
use clean_architecture_saas.Prelude.{
  ℕ, String, ◌≡◌, refl, ap, true, false, not, Option, none, some, List, [], ◌∷◌, ◌++◌, map, keep,
  first, length, inl, inr, arith, nat_eq, nat_eq_iff, if◌then◌else◌,
}
use clean_architecture_saas.Python.Exec.{ok}
use clean_architecture_saas.Python.Value.{Value, Fields, end, field}
use clean_architecture_saas.Domain.User.{User, post_init}
use clean_architecture_saas.Cache.Client.{CacheClient}
use clean_architecture_saas.Cache.Documented.{Works, Works-in_memory}
use clean_architecture_saas.Cache.InMemory.{Mem, in_memory}
use clean_architecture_saas.Cache.InMemory.Laws.{view}
use clean_architecture_saas.Db.Table.{Table, same_id}
use clean_architecture_saas.Users.Repository.{
  sql_users, has_id, update, update_columns, update_allowed, set_columns, allowed_fields, of_row,
  get_by_id, delete, set_password, update_last_login, set_email,
}
use clean_architecture_saas.Users.Repository.Laws.{Keeps, refused, kept, columns_keep}
use clean_architecture_saas.Users.Caching.Beside.{Stores, Apart, Updates}

abbrev pub Both : Type 0
Both = List User × Mem

abbrev pub users_table : Table Both User
users_table = record {
  select = λ p (us, m). (ok (keep p us), (us, m));
  update = λ p f (us, m). (ok tt, (map (λ u. if p u then f u else u) us, m));
  delete = λ p (us, m). (ok (length (keep p us)), (keep (λ u. not (p u)) us, m));
  add = λ u (us, m). (ok u, (us ++ u ∷ [], m));
  commit = λ s. (ok tt, s);
}

abbrev pub cache_beside : CacheClient Both
cache_beside = record {
  get = λ k (us, m). let (r, m') = in_memory.get k m in (r, (us, m'));
  set = λ k v ex (us, m). let (r, m') = in_memory.set k v ex m in (r, (us, m'));
  incr = λ k (us, m). let (r, m') = in_memory.incr k m in (r, (us, m'));
  expire = λ k n (us, m). let (r, m') = in_memory.expire k n m in (r, (us, m'));
  delete = λ k (us, m). let (r, m') = in_memory.delete k m in (r, (us, m'));
}

abbrev pub see_beside : Both → String → Option Value
see_beside (us, m) = view m

abbrev pub stored_users : ℕ → Both → ℕ → Option User
stored_users now (us, m) n = Option.map (of_row now) (first (keep (has_id n) us))

pub Works-beside : Works cache_beside see_beside
Works-beside = record {
  get_ok = λ k (us, m). Works-in_memory.get_ok k m;
  get_see = λ k j (us, m). Works-in_memory.get_see k j m;
  set_ok = λ k v ex (us, m). Works-in_memory.set_ok k v ex m;
  set_see = λ k j v ex (us, m). Works-in_memory.set_see k j v ex m;
  delete_ok = λ k (us, m). Works-in_memory.delete_ok k m;
  delete_see = λ k j (us, m). Works-in_memory.delete_see k j m;
}

pub Apart-beside : (now : ℕ) → Apart cache_beside (stored_users now)
Apart-beside now = record {
  get_rows = λ k n (us, m). refl;
  set_rows = λ k v ex n (us, m). refl;
  delete_rows = λ k n (us, m). refl;
}

same_id_iff : (o : Option ℕ) (n : ℕ) → same_id o n ≡ true → o ≡ some n
same_id_iff none n h = cc
same_id_iff (some i) n h = ap some ((nat_eq_iff i n).0 h)

first_id : (us : List User) (n : ℕ) (u : User) → first (keep (has_id n) us) ≡ some u → u.id ≡ some n
first_id [] n u e = cc
first_id (x ∷ us) n u e = ground (arith, first_id us n u, same_id_iff x.id n)

other_id : (o : Option ℕ) (n j : ℕ) → nat_eq n j ≡ false → same_id o n ≡ true → same_id o j ≡ false
other_id none n j h k = refl
other_id (some i) n j h k = ground arith

written_other :
    (us : List User) (n j : ℕ) (f : User → User)
    → ((u : User) → (f u).id ≡ u.id)
    → nat_eq n j ≡ false
    → first (keep (has_id j) (map (λ u. if has_id n u then f u else u) us))
      ≡ first (keep (has_id j) us)
written_other [] n j f h k = refl
written_other (u ∷ us) n j f h k =
    ground (arith, h u, written_other us n j f h k, other_id u.id n j k)

deleted_other :
    (us : List User) (n j : ℕ)
    → nat_eq n j ≡ false
    → first (keep (has_id j) (keep (λ u. not (has_id n u)) us)) ≡ first (keep (has_id j) us)
deleted_other [] n j k = refl
deleted_other (u ∷ us) n j k = ground (arith, deleted_other us n j k, other_id u.id n j k)

read_id :
    (now n : ℕ) (o : Option User) (u : User)
    → ((x : User) → o ≡ some x → x.id ≡ some n)
    → Option.map (of_row now) o ≡ some u
    → u.id ≡ some n
unfolding post_init
read_id now n none u h e = cc
read_id now n (some x) u h e = ground (arith, h x refl)

updated_none :
    (us : List User) (n : ℕ) (f : User → User)
    → ((u : User) → (f u).id ≡ u.id)
    → first (keep (has_id n) (map (λ u. if has_id n u then f u else u) us)) ≡ none
    → first (keep (has_id n) us) ≡ none
updated_none [] n f h e = refl
updated_none (u ∷ us) n f h e = ground (arith, h u, updated_none us n f h)

map-none : {A B : Type 0} (f : A → B) (o : Option A) → Option.map f o ≡ none → o ≡ none
map-none f none e = refl
map-none f (some a) e = cc

Updates-update_columns :
    (now n : ℕ) (o : Option (User → User))
    → Keeps o
    → Updates see_beside (stored_users now) n (update_columns users_table now n o)
unfolding update_columns get_by_id
Updates-update_columns now n _ refused = record {
  answers = λ s. inl (_, refl);
  stays = λ s e. e;
  update_rows = λ j s k. refl;
  update_see = λ k s. refl;
}
Updates-update_columns now n _ (kept f h) = record {
  answers = λ s. inr refl;
  stays = λ (us, m) e. ap (Option.map (of_row now)) (
      updated_none us n _ (λ u. ap (λ g. g.id) (h u))
        (map-none (of_row now) (first (keep (has_id n) (map _ us))) e));
  update_rows = λ j (us, m) k.
      ap (Option.map (of_row now)) (written_other us n j _ (λ u. ap (λ g. g.id) (h u)) k);
  update_see = λ k s. refl;
}

Updates-update_allowed :
    (now n : ℕ) (fs : Fields)
    → Keeps (set_columns fs)
    → Updates see_beside (stored_users now) n (update_allowed users_table now n fs)
unfolding get_by_id
Updates-update_allowed now n end keeps = record {
  answers = λ s. inr refl;
  stays = λ s e. e;
  update_rows = λ j s k. refl;
  update_see = λ k s. refl;
}
Updates-update_allowed now n (field k v fs) keeps =
    Updates-update_columns now n (set_columns (field k v fs)) keeps

pub Stores-list : (now : ℕ) → Stores (sql_users users_table now) see_beside (stored_users now)
unfolding get_by_id delete set_password update_last_login set_email update
Stores-list now = record {
  reads = λ n (us, m). refl;
  own_id = λ n u (us, m) e. read_id now n (first (keep (has_id n) us)) u (first_id us n) e;
  updates = λ n fs. Updates-update_allowed now n (allowed_fields fs) (columns_keep fs);
  writes_delete = λ n. record {
    write_ok = λ (us, m). refl;
    write_rows = λ j (us, m) k. ap (Option.map (of_row now)) (deleted_other us n j k);
    write_see = λ k (us, m). refl;
  };
  writes_password = λ n h. record {
    write_ok = λ (us, m). refl;
    write_rows = λ j (us, m) k. ap (Option.map (of_row now)) (written_other us n j _ (λ u. refl) k);
    write_see = λ k (us, m). refl;
  };
  writes_login = λ n when. record {
    write_ok = λ (us, m). refl;
    write_rows = λ j (us, m) k. ap (Option.map (of_row now)) (written_other us n j _ (λ u. refl) k);
    write_see = λ k (us, m). refl;
  };
  writes_email = λ n e. record {
    write_ok = λ (us, m). refl;
    write_rows = λ j (us, m) k. ap (Option.map (of_row now)) (written_other us n j _ (λ u. refl) k);
    write_see = λ k (us, m). refl;
  };
}
