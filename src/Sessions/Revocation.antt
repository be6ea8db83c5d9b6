-- ===== src/Sessions/Revocation.antt =====
-- What a revocation leaves: none of the sessions of the user, and every session of the others.
use clean_architecture_saas.Prelude.{
  ℕ, String, ◌≡◌, refl, Bool, true, false, none, some, List, [], ◌∷◌, arith, ◌==◌, eq_iff,
  if◌then◌else◌, any, ◌⊎◌,
}
use clean_architecture_saas.Python.Exec.{ok}
use clean_architecture_saas.Python.Value.{texts}
use clean_architecture_saas.Cache.InMemory.{Mem, in_memory}
use clean_architecture_saas.Cache.InMemory.Laws.{view, write}
use clean_architecture_saas.Cache.Keys.{
  session, user_sessions, session-session, user_sessions-session,
}
use clean_architecture_saas.Sessions.{Session, found_session, revoke_all_user_sessions}
use clean_architecture_saas.Sessions.Effects.{
  Views, present, cleaned, wiped, revoked_count, revoke_all_lem,
}

abbrev pub holds : List String → String → Bool
holds hs h = any (λ k. k == h) hs

-- The session with its token, if a live one is cached.
abbrev pub live_token : String → Views → List Session
live_token h v = found_session h (v (session h)) []

abbrev IsGone : String → Views → Type 0
IsGone h v = live_token h v ≡ []

wiped-none : (ss : List Session) (k : String) (v : Views) → v k ≡ none → wiped ss v k ≡ none
unfolding wiped
wiped-none [] k v e = e
wiped-none (s ∷ ss) k v e =
    ground (arith, wiped-none ss k v e, wiped-none ss k (write (session s.session_id) none v))

wiped-IsGone : (ss : List Session) (h : String) (v : Views) → IsGone h v → IsGone h (wiped ss v)
unfolding wiped
wiped-IsGone [] h v e = e
wiped-IsGone (s ∷ ss) h v e = ground (
  arith,
  session-session s.session_id h,
  wiped-IsGone ss h v e,
  wiped-IsGone ss h (write (session s.session_id) none v),
)

wiped-hit :
    (ss : List Session) (h : String) (v : Views)
    → any (λ s. s.session_id == h) ss ≡ true
    → (h == "") ≡ false
    → wiped ss v (session h) ≡ none
unfolding wiped
wiped-hit [] h v e n = cc
wiped-hit (s ∷ ss) h v e n = ground (
  arith,
  eq_iff s.session_id h,
  eq_iff h "",
  eq_iff s.session_id "",
  session-session s.session_id h,
  wiped-none ss (session h) (write (session s.session_id) none v),
  wiped-hit ss h v,
  wiped-hit ss h (write (session s.session_id) none v),
)

wiped-miss :
    (ss : List Session) (h : String) (v : Views)
    → any (λ s. s.session_id == h) ss ≡ false
    → wiped ss v (session h) ≡ v (session h)
unfolding wiped
wiped-miss [] h v e = refl
wiped-miss (s ∷ ss) h v e = ground (
  arith,
  session-session s.session_id h,
  wiped-miss ss h v,
  wiped-miss ss h (write (session s.session_id) none v),
)

present-hit :
    (hs : List String) (h : String) (v : Views)
    → holds hs h ≡ true
    → IsGone h v ⊎ (any (λ s. s.session_id == h) (present hs v) ≡ true)
present-hit [] h v e = cc
present-hit (k ∷ hs) h v e = ground (arith, eq_iff k h, present-hit hs h v)

present-miss :
    (hs : List String) (h : String) (v : Views)
    → holds hs h ≡ false
    → any (λ s. s.session_id == h) (present hs v) ≡ false
present-miss [] h v e = refl
present-miss (k ∷ hs) h v e = ground (arith, eq_iff k h, present-miss hs h v)

cleaned-session :
    (uid : ℕ) (hs : List String) (h : String) (v : Views)
    → cleaned uid hs v (session h) ≡ v (session h)
cleaned-session uid hs h v = ground (arith, user_sessions-session h uid)

-- Over the cache in memory, where a list of hashes is cached for the user: after all sessions of the
-- user are revoked, every session of the user's list has no live token, and
-- every other session has the live token that it had; the list itself is gone, and the reply is the
-- number of live sessions in the list that have an id. It is stated of ids that are not empty.
pub revoke_all_exact :
    (uid : ℕ) (hs : List String) (h : String) (m : Mem)
    → view m (user_sessions uid) ≡ some (texts hs)
    → (h == "") ≡ false
    → let after = view (revoke_all_user_sessions in_memory uid m).1 in
      ((revoke_all_user_sessions in_memory uid m).0 ≡ ok (revoked_count (present hs (view m))))
      × (after (user_sessions uid) ≡ none)
      × (live_token h after ≡ (if holds hs h then [] else live_token h (view m)))
revoke_all_exact uid hs h m e n =
    let v : Views = cleaned uid hs (view m) in
    let ss : List Session = present hs (view m) in
    rw ((revoke_all_lem uid hs m e).0, (revoke_all_lem uid hs m e).1)
      (
        refl,
        ground (arith, eq_iff (user_sessions uid) (user_sessions uid)),
        ground (
          arith,
          user_sessions-session h uid,
          cleaned-session uid hs h (view m),
          present-hit hs h (view m),
          present-miss hs h (view m),
          wiped-hit ss h v,
          wiped-miss ss h v,
          wiped-IsGone ss h v,
        ),
      )
