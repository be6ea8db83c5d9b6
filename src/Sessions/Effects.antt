-- ===== src/Sessions/Effects.antt =====
-- The session operations over the in-memory cache, by what they do to the views of its keys.
use clean_architecture_saas.Prelude.{
  ℕ, ◌+◌, String, ◌≡◌, refl, Option, none, some, List, [], ◌∷◌, map, length, nat_eq, arith, ◌==◌,
  if◌then◌else◌,
}
use clean_architecture_saas.Python.Exec.{ok}
use clean_architecture_saas.Python.Value.{Value, texts}
use clean_architecture_saas.Cache.InMemory.{Mem, get, set, delete, in_memory}
use clean_architecture_saas.Cache.InMemory.Laws.{
  view, get-view, view-get_all, write, view-set_all, view-delete_all,
}
use clean_architecture_saas.Cache.Keys.{session, user_sessions}
use clean_architecture_saas.Sessions.{
  Session, found_session, hashes, collect, cleanup, list_user_sessions, revoke_each,
  revoke_all_user_sessions,
}

abbrev pub Views : Type 0
Views = String → Option Value

-- The sessions among some hashes whose token is in the cache.
abbrev pub present : List String → (String → Option Value) → List Session
present [] v = []
present (h ∷ hs) v = found_session h (v (session h)) (present hs v)

pub collect_lem :
    (hs : List String) (m : Mem)
    → ((collect in_memory hs m).0 ≡ ok (present hs (view m)))
      × (view (collect in_memory hs m).1 ≡ view m)
unfolding collect
collect_lem [] m = (refl, refl)
collect_lem (h ∷ hs) m = ground (
  arith,
  get-view (session h) m,
  view-get_all (session h) m,
  collect_lem hs (get (session h) m).1,
)

-- The views after the stale hashes have been written off.
abbrev pub cleaned : ℕ → List String → Views → Views
cleaned uid hs v =
    if nat_eq (length (present hs v)) (length hs)
    then v
    else write (user_sessions uid) (some (texts (map (λ s. s.session_id) (present hs v)))) v

cleanup_lem :
    (uid : ℕ) (hs : List String) (ss : List Session) (m : Mem)
    → ((cleanup in_memory uid hs ss m).0 ≡ ok tt)
      × (view (cleanup in_memory uid hs ss m).1 ≡ (
          if nat_eq (length ss) (length hs)
          then view m
          else write (user_sessions uid) (some (texts (map (λ s. s.session_id) ss))) (view m)))
unfolding cleanup set
cleanup_lem uid hs ss m =
    ground (arith, view-set_all (user_sessions uid) (texts (map (λ s. s.session_id) ss)) none m)

-- Over the cache in memory, where a list of hashes is cached for the user: listing returns the
-- sessions whose token is in the cache, and writes off the other hashes.
list_user_sessions_lem :
    (uid : ℕ) (hs : List String) (m : Mem)
    → view m (user_sessions uid) ≡ some (texts hs)
    → ((list_user_sessions in_memory uid m).0 ≡ ok (present hs (view m)))
      × (view (list_user_sessions in_memory uid m).1 ≡ cleaned uid hs (view m))
unfolding list_user_sessions hashes
list_user_sessions_lem uid hs m h =
    let m' : Mem = (get (user_sessions uid) m).1 in
    let m'' : Mem = (collect in_memory hs m').1 in
    ground (
      arith,
      get-view (user_sessions uid) m,
      view-get_all (user_sessions uid) m,
      collect_lem hs m',
      cleanup_lem uid hs (present hs (view m)) m'',
    )

unfoldable pub wiped : List Session → Views → Views
wiped [] v = v
wiped (s ∷ ss) v =
    let rest = wiped ss (write (session s.session_id) none v) in
    let same = wiped ss v in if s.session_id == "" then same else rest

-- How many of the sessions have an id, which is what the loop revokes.
abbrev pub revoked_count : List Session → ℕ
revoked_count [] = 0
revoked_count (s ∷ ss) = let n = revoked_count ss in if s.session_id == "" then n else n + 1

revoke_each_lem :
    (ss : List Session) (m : Mem)
    → ((revoke_each in_memory ss m).0 ≡ ok (revoked_count ss))
      × (view (revoke_each in_memory ss m).1 ≡ wiped ss (view m))
unfolding revoke_each wiped delete
revoke_each_lem [] m = (refl, refl)
revoke_each_lem (s ∷ ss) m =
    let m' : Mem = (delete (session s.session_id) m).1 in
    ground
      (arith, view-delete_all (session s.session_id) m, revoke_each_lem ss m, revoke_each_lem ss m')

-- A revocation of everything: the count, and the views that are left.
pub revoke_all_lem :
    (uid : ℕ) (hs : List String) (m : Mem)
    → view m (user_sessions uid) ≡ some (texts hs)
    → let live = present hs (view m) in
      ((revoke_all_user_sessions in_memory uid m).0 ≡ ok (revoked_count live))
      × (view (revoke_all_user_sessions in_memory uid m).1
          ≡ write (user_sessions uid) none (wiped live (cleaned uid hs (view m))))
unfolding revoke_all_user_sessions delete
revoke_all_lem uid hs m h =
    let m' : Mem = (list_user_sessions in_memory uid m).1 in
    let m'' : Mem = (revoke_each in_memory (present hs (view m)) m').1 in
    ground (
      arith,
      list_user_sessions_lem uid hs m h,
      revoke_each_lem (present hs (view m)) m',
      view-delete_all (user_sessions uid) m'',
    )
