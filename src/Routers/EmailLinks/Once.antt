-- ===== src/Routers/EmailLinks/Once.antt =====
-- A link works once, as its token is deleted from the cache.
use clean_architecture_saas.Prelude.{
  ℕ, String, ◌≡◌, refl, subst, inl, inr, Bool, true, false, Option, none, some, arith, ◌==◌,
  Bool-cases, eq_iff,
}
use clean_architecture_saas.Python.Exec.{ok, Result-cases}
use clean_architecture_saas.Python.Int.{ℤ, pos, negsuc}
use clean_architecture_saas.Python.Preserves.{Preserves, after_if, after_bind}
use clean_architecture_saas.Python.Value.{Value, truthy, or_nul, Fields}
use clean_architecture_saas.Domain.Audit.{AuditAction, AuditResource, Origin, log_audit_event}
use clean_architecture_saas.Domain.Auth.{Conversions}
use clean_architecture_saas.Domain.Audit.Beside.{Logs, log_audit_event-Preserves}
use clean_architecture_saas.Domain.User.{User}
use clean_architecture_saas.Access.Permissions.{user_at}
use clean_architecture_saas.Access.RateLimit.{Caller, rate_key, require_rate_limit}
use clean_architecture_saas.Access.RateLimit.Beside.{require_rate_limit-Preserves}
use clean_architecture_saas.Cache.Client.{CacheClient}
use clean_architecture_saas.Cache.Documented.{Works}
use clean_architecture_saas.Cache.Keys.{email_token}
use clean_architecture_saas.Tokens.EmailTokens.{TokenData, consume_token}
use clean_architecture_saas.Users.Service.{EmailTokenRepository, cached_tokens}
use clean_architecture_saas.Routers.Auth.{Deps}
use clean_architecture_saas.Routers.EmailLinks.{
  opened, Link, fail, with_token, with_data, with_user, verification, mark_verified, verify_email,
}
use clean_architecture_saas.Routers.EmailLinks.Sound.{is_done}

-- Nothing that counts is cached under the token.
abbrev pub Dead : {S : Type 0} → (S → String → Option Value) → String → S → Type 0
Dead see token s = truthy (or_nul (see s (email_token token))) ≡ false

-- The other calls of the handler put nothing there; of the counters only that of the second caller
-- matters.
pub record Beside {S : Type 0} (d : Deps S) (again : Caller) (P : S → Type 0) : Type 0 where
  pub reads : (n : ℕ) → Preserves P (d.users.get_by_id n)
  pub updates : (n : ℕ) (fs : Fields) → Preserves P (d.users.update n fs)
  pub audits : Logs P d.audit
  pub incr : Preserves P (d.cache.incr (rate_key again))
  pub expire : (n : ℕ) → Preserves P (d.cache.expire (rate_key again) n)

module _ {S : Type 0} (store : CacheClient S) (see : S → String → Option Value)
    (works : Works store see) (token : String) where
  -- Consuming a token deletes it.
  spends : (s : S) → Dead see token (consume_token store token s).1
  unfolding consume_token
  spends s =
      let k = email_token token in
      let t = (store.get k s).1 in
      elim (Bool-cases (truthy (or_nul (see s k)))) [
        | inl live ↦
            ground
              (arith, works.get_ok k s, works.delete_ok k t, works.delete_see k k t, eq_iff k k)
        | inr dead ↦ ground (arith, works.get_ok k s, works.get_see k k s)
      ]

  spent : (s : S) → Dead see token s → (consume_token store token s).0 ≡ ok none
  unfolding consume_token
  spent s dead = ground (arith, works.get_ok (email_token token) s)

module _ {S : Type 0} (py : Conversions) (d : Deps S) (store : CacheClient S)
    (see : S → String → Option Value) (works : Works store see) (token : String) (again : Caller)
    (beside : Beside d again (Dead see token)) where
  abbrev tokens : EmailTokenRepository S
  tokens = cached_tokens store

  abbrev P : S → Type 0
  P = Dead see token

  audited :
      (u : User) (a : AuditAction) (b : AuditResource) (fs : Fields) (id : Option ℕ) (o : Origin)
      → Preserves P (log_audit_event d.audit u a b fs id o)
  audited u a b fs id o = log_audit_event-Preserves P u a b fs id o d.audit beside.audits

  user_at-Preserves : (n : ℤ) → Preserves P (user_at d.users n)
  user_at-Preserves (pos n) s p = beside.reads n s p
  user_at-Preserves (negsuc n) s p = p

  fail-Preserves : (get : Bool) (code : ℕ) (h m : String) → Preserves P (fail get code h m)
  fail-Preserves true code h m s p = p
  fail-Preserves false code h m s p = p

  marked :
      (caller : Caller) (agent : Option String) (get : Bool) (t : TokenData) (n : ℤ) (u : User)
      → t.user_id ≡ n
      → Preserves P (mark_verified py d caller agent get t u)
  marked caller agent get t (negsuc n) u e s p = rw e p
  marked caller agent get t (pos n) u e s p =
      rw e (search (after_bind P, after_if P, beside.updates, audited))

  with_user-Preserves :
      (link : Link S) (get : Bool) (t : TokenData) (o : Option User)
      → ((u : User) → Preserves P (link.act t u))
      → Preserves P (with_user py d link get t o)
  with_user-Preserves link get t none acts =
      fail-Preserves get 404 "User not found" "user not found"
  with_user-Preserves link get t (some u) acts = acts u

  with_data-Preserves :
      (link : Link S) (get : Bool) (o : Option TokenData)
      → ((t : TokenData) (u : User) → Preserves P (link.act t u))
      → Preserves P (with_data py d link get o)
  with_data-Preserves link get none acts s p =
      fail-Preserves get 400 link.failed "invalid or expired token" s p
  with_data-Preserves link get (some t) acts s p =
      search
        (after_bind P, after_if P, fail-Preserves, user_at-Preserves, with_user-Preserves, acts)

  -- A second use finds nothing.
  refused :
      (link : Link S) (s : S)
      → P s
      → is_done (with_token py d link true token (some tokens) s).0 ≡ false
  refused link s p = rw (spent store see works token s p) refl

  used :
      (link : Link S) (s : S)
      → ((t : TokenData) (u : User) → Preserves P (link.act t u))
      → P (with_token py d link true token (some tokens) s).1
  used link s acts =
      after_bind P (tokens.consume_token token s).0 (λ o. with_data py d link true o)
        (tokens.consume_token token s).1 (spends store see works token s)
        (λ o e. with_data-Preserves link true o acts _)

  limit : Preserves P (require_rate_limit d.cache again)
  limit = require_rate_limit-Preserves P d.cache again beside.incr beside.expire

  after_first :
      (caller : Caller) (agent : Option String) (s : S)
      → d.email_tokens ≡ some tokens
      → is_done (verify_email py d caller agent (opened (some token)) s).0 ≡ true
      → P (verify_email py d caller agent (opened (some token)) s).1
  unfolding verify_email
  after_first caller agent s e done =
      let t = (require_rate_limit d.cache caller s).1 in
      let link = verification py d caller agent true in
      elim (Result-cases (require_rate_limit d.cache caller s).0) [
        | inr (x, k) ↦ absurd (ground arith)
        | inl (x, k) ↦ elim (Bool-cases (token == "")) [
          | inl blank ↦ absurd (ground arith)
          | inr given ↦
              subst P (ground arith)
                (used link t (λ v u. marked caller agent true v v.user_id u refl))
        ]
      ]

  second :
      (agent : Option String) (s : S)
      → d.email_tokens ≡ some tokens
      → P s
      → is_done (verify_email py d again agent (opened (some token)) s).0 ≡ false
  unfolding verify_email
  second agent s e p =
      let t = (require_rate_limit d.cache again s).1 in
      let link = verification py d again agent true in
      elim (Result-cases (require_rate_limit d.cache again s).0) [
        | inr (x, k) ↦ ground arith
        | inl (x, k) ↦ elim (Bool-cases (token == "")) [
          | inl blank ↦ ground arith
          | inr given ↦ ground (arith, refused link t (limit s p))
        ]
      ]

  -- Where `EmailTokenCacheRepository` keeps the tokens in a cache that works, and the other calls of
  -- the handler put nothing under the token: once a link has verified an address, the same link
  -- verifies nothing when it is opened again.
  pub verify_email_once :
      (caller : Caller) (agent : Option String) (s : S)
      → d.email_tokens ≡ some (cached_tokens store)
      → is_done (verify_email py d caller agent (opened (some token)) s).0 ≡ true
      → is_done
          (verify_email py d again agent
            (opened (some token))
            (verify_email py d caller agent (opened (some token)) s).1).0
        ≡ false
  verify_email_once caller agent s e done = second agent _ e (after_first caller agent s e done)
