-- ===== src/Users/Caching/Coherence.antt =====
-- What is cached under the id of a user is the stored user.
use clean_architecture_saas.Prelude.{
  ℕ, String, ◌≡◌, refl, sym, ap, subst, Option, none, some, List, [], ◌∷◌, arith, ◌==◌, Bool-cases,
  Option-cases, inl, inr,
}
use clean_architecture_saas.Python.Exec.{ok}
use clean_architecture_saas.Python.Value.{Value, Fields, user}
use clean_architecture_saas.Domain.User.{User}
use clean_architecture_saas.Cache.Client.{CacheClient}
use clean_architecture_saas.Cache.Documented.{Works}
use clean_architecture_saas.Cache.Keys.{user_id, user_email, user_list}
use clean_architecture_saas.Users.Repository.{UserRepository}
use clean_architecture_saas.Users.Caching.Beside.{Stores, Apart, Coherent, CoherentBut}
use clean_architecture_saas.Users.Caching.Entries.{
  kept_get, kept_delete, kept_email, fresh_set, fresh_delete, but_written, but_updated,
  none_updated,
}
use clean_architecture_saas.Users.Caching.Reads.{get_by_id_lem, cached_read, missed_read}
use clean_architecture_saas.Users.Caching.{
  get_by_id, delete, update, overwrite, set_password, update_last_login, set_email, keep_user,
  drop_email, drop_user, drop_list_of,
}

-- The operations on one user.
pub data Command : Type 0 where
  read remove : ℕ → Command
  new_password new_email : ℕ → String → Command
  login : ℕ → ℕ → Command
  change : ℕ → Fields → Command

module _ {S : Type 0} (inner : UserRepository S) (cache : CacheClient S) (ttl : ℕ)
    (see : S → String → Option Value) (rows : S → ℕ → Option User) (works : Works cache see)
    (stores : Stores inner see rows) (side : Apart cache rows) where
  drop_email-ok :
      (o : Option User) (s : S) → (drop_email inner (some cache) ttl cache o s).0 ≡ ok tt
  drop_email-ok none s = refl
  drop_email-ok (some u) s = ground (arith, works.delete_ok (user_email u.email) s)

  kept_drop_email :
      (o : Option User) (s : S)
      → Coherent see rows s
      → Coherent see rows (drop_email inner (some cache) ttl cache o s).1
  kept_drop_email none s h = h
  kept_drop_email (some u) s h = elim (Bool-cases (u.email == "")) [
    | inl blank ↦ rw blank h
    | inr address ↦ rw address (kept_delete works side (user_email u.email) s h)
  ]

  drop_user-Coherent :
      (n : ℕ) (s : S)
      → CoherentBut see rows n s
      → Coherent see rows (drop_user inner (some cache) ttl n s).1
  drop_user-Coherent n s h =
      let t = (cache.delete (user_id n) s).1 in
      subst (Coherent see rows)
        (ground
          (arith, stores.reads n s, works.delete_ok (user_id n) s, drop_email-ok (rows s n) t))
        (kept_drop_email (rows s n) t (fresh_delete works side n s h))

  set_password-Coherent :
      (n : ℕ) (hashed : String) (s : S)
      → Coherent see rows s
      → Coherent see rows (set_password inner (some cache) ttl n hashed s).1
  unfolding set_password
  set_password-Coherent n hashed s h =
      subst (Coherent see rows) (ground (arith, (stores.writes_password n hashed).write_ok s)) (
        drop_user-Coherent n (inner.set_password n hashed s).1
          (but_written n (inner.set_password n hashed) s (stores.writes_password n hashed) h))

  update_last_login-Coherent :
      (n : ℕ) (when : ℕ) (s : S)
      → Coherent see rows s
      → Coherent see rows (update_last_login inner (some cache) ttl n when s).1
  unfolding update_last_login
  update_last_login-Coherent n when s h =
      subst (Coherent see rows) (ground (arith, (stores.writes_login n when).write_ok s)) (
        drop_user-Coherent n (inner.update_last_login n when s).1
          (but_written n (inner.update_last_login n when) s (stores.writes_login n when) h))

  set_email-Coherent :
      (n : ℕ) (email : String) (s : S)
      → Coherent see rows s
      → Coherent see rows (set_email inner (some cache) ttl n email s).1
  unfolding set_email
  set_email-Coherent n email s h =
      let t = (inner.set_email n email s).1 in
      let a = (cache.delete (user_id n) t).1 in
      let b = (drop_email inner (some cache) ttl cache (rows s n) a).1 in
      subst (Coherent see rows)
        (ground (
          arith,
          stores.reads n s,
          (stores.writes_email n email).write_ok s,
          works.delete_ok (user_id n) t,
          drop_email-ok (rows s n) a,
          works.delete_ok (user_email email) b,
        ))
        (kept_delete works side (user_email email) b (
          kept_drop_email (rows s n) a (
            fresh_delete works side n t
              (but_written n (inner.set_email n email) s (stores.writes_email n email) h))))

  drop_list_of-Coherent :
      (o : Option User) (s : S)
      → Coherent see rows s
      → Coherent see rows (drop_list_of inner (some cache) ttl o s).1
  drop_list_of-Coherent none s h = h
  drop_list_of-Coherent (some u) s h =
      subst (Coherent see rows) (ground (arith, works.delete_ok (user_list u.tenant_id) s))
        (kept_delete works side (user_list u.tenant_id) s h)

  delete-Coherent :
      (n : ℕ) (s : S)
      → Coherent see rows s
      → Coherent see rows (delete inner (some cache) ttl n s).1
  unfolding delete
  delete-Coherent n s h =
      let t = (inner.delete n s).1 in
      let a = (cache.delete (user_id n) t).1 in
      let b = (drop_email inner (some cache) ttl cache (rows s n) a).1 in
      subst (Coherent see rows)
        (ground (
          arith,
          stores.reads n s,
          (stores.writes_delete n).write_ok s,
          works.delete_ok (user_id n) t,
          drop_email-ok (rows s n) a,
        ))
        (drop_list_of-Coherent (rows s n) b (
          kept_drop_email (rows s n) a (
            fresh_delete works side n t
              (but_written n (inner.delete n) s (stores.writes_delete n) h))))

  keep_user-Coherent :
      (n : ℕ) (o : Option User) (s : S)
      → rows s n ≡ o
      → Coherent see rows s
      → Coherent see rows
          (keep_user inner
            (some cache)
            ttl
            cache
            (user_id n)
            (elim o [ none ↦ "" | some w ↦ user_email w.email ])
            o
            s).1
  keep_user-Coherent n none s r h = h
  keep_user-Coherent n (some u) s r h =
      let t = (cache.set (user_id n) (user u) (some ttl) s).1 in
      subst (Coherent see rows)
        (ground (
          arith,
          works.set_ok (user_id n) (user u) (some ttl) s,
          works.set_ok (user_email u.email) (user u) (some ttl) t,
        ))
        (kept_email works side ttl u.email (user u) t
          (fresh_set works side ttl n u s r (λ j v other. h j v)))

  get_by_id-Coherent :
      (n : ℕ) (s : S)
      → Coherent see rows s
      → Coherent see rows (get_by_id inner (some cache) ttl n s).1
  get_by_id-Coherent n s h =
      let t = (cache.get (user_id n) s).1 in
      elim (Option-cases (see s (user_id n))) [
        | inl gone ↦
            subst (Coherent see rows)
              (ap (λ p. p.1) (sym (missed_read ttl works stores side n s gone)))
              (keep_user-Coherent n (rows t n) t refl (kept_get works side (user_id n) s h))
        | inr (v, there) ↦
            subst (Coherent see rows)
              (ap (λ p. p.1) (sym (cached_read ttl works stores side n v s h there)))
              (kept_get works side (user_id n) s h)
      ]

  overwrite-Coherent :
      (n : ℕ) (o : Option User) (s : S)
      → rows s n ≡ o
      → ((u : User) → o ≡ some u → u.id ≡ some n)
      → CoherentBut see rows n s
      → (rows s n ≡ none → Coherent see rows s)
      → Coherent see rows (overwrite inner (some cache) ttl o s).1
  overwrite-Coherent n none s r own but gone = gone r
  overwrite-Coherent n (some u) s r own but gone =
      let a = (cache.set (user_id n) (user u) (some ttl) s).1 in
      let b = (cache.set (user_email u.email) (user u) (some ttl) a).1 in
      subst (Coherent see rows)
        (ground (
          arith,
          own u refl,
          works.set_ok (user_id n) (user u) (some ttl) s,
          works.set_ok (user_email u.email) (user u) (some ttl) a,
          works.delete_ok (user_list u.tenant_id) b,
        ))
        (kept_delete works side (user_list u.tenant_id) b
          (kept_email works side ttl u.email (user u) a (fresh_set works side ttl n u s r but)))

  update-Coherent :
      (n : ℕ) (fs : Fields) (s : S)
      → Coherent see rows s
      → Coherent see rows (update inner (some cache) ttl n fs s).1
  unfolding update
  update-Coherent n fs s h =
      let w = stores.updates n fs in
      let m = inner.update n fs in
      let t = (m s).1 in
      elim (w.answers s) [
        | inl (e, refused) ↦ rw refused h
        | inr answer ↦ subst (Coherent see rows) (ground (arith, answer)) (
            overwrite-Coherent n (rows t n) t refl (λ u. stores.own_id n u t)
              (but_updated n m s w h) (none_updated n m s w h))
      ]

  abbrev pub perform : Command → S → S
  perform (read n) s = (get_by_id inner (some cache) ttl n s).1
  perform (remove n) s = (delete inner (some cache) ttl n s).1
  perform (new_password n hashed) s = (set_password inner (some cache) ttl n hashed s).1
  perform (login n when) s = (update_last_login inner (some cache) ttl n when s).1
  perform (new_email n email) s = (set_email inner (some cache) ttl n email s).1
  perform (change n fs) s = (update inner (some cache) ttl n fs s).1

  abbrev pub perform_all : List Command → S → S
  perform_all [] s = s
  perform_all (c ∷ cs) s = perform_all cs (perform c s)

  perform-Coherent : (c : Command) (s : S) → Coherent see rows s → Coherent see rows (perform c s)
  perform-Coherent (read n) s h = get_by_id-Coherent n s h
  perform-Coherent (remove n) s h = delete-Coherent n s h
  perform-Coherent (new_password n hashed) s h = set_password-Coherent n hashed s h
  perform-Coherent (login n when) s h = update_last_login-Coherent n when s h
  perform-Coherent (new_email n email) s h = set_email-Coherent n email s h
  perform-Coherent (change n fs) s h = update-Coherent n fs s h

  perform_all-Coherent :
      (cs : List Command) (s : S) → Coherent see rows s → Coherent see rows (perform_all cs s)
  perform_all-Coherent [] s h = h
  perform_all-Coherent (c ∷ cs) s h = perform_all-Coherent cs (perform c s) (perform-Coherent c s h)

  -- With a cache that works beside the stored rows, and after any sequence of reads by id,
  -- deletions, updates of fields and changes of password, last login and address, a read by id
  -- through the cache answers what is stored: no write leaves a stale user under an id.
  pub reads_fresh :
      (cs : List Command) (n : ℕ) (s : S)
      → Coherent see rows s
      → (get_by_id inner (some cache) ttl n (perform_all cs s)).0 ≡ ok (rows (perform_all cs s) n)
  reads_fresh cs n s h =
      get_by_id_lem ttl works stores side n (perform_all cs s) (perform_all-Coherent cs s h)
