-- ===== src/Tests/Links.antt =====
-- Links in mails and events of the audit log, on a small world.
use clean_architecture_saas.Prelude.{
  ◌≡◌, ◌↔◌, refl, true, false, Option, none, some, List, [], ◌∷◌, ◌==◌, if◌then◌else◌,
}
use clean_architecture_saas.Python.Dict
use clean_architecture_saas.Python.Exec.{ok, pure}
use clean_architecture_saas.Python.Int.{pos}
use clean_architecture_saas.Python.Value.{text, dict, end, field}
use clean_architecture_saas.Domain.Audit.{AuditAction, AuditResource, Origin, log_audit_event}
use clean_architecture_saas.Domain.User.{User}
use clean_architecture_saas.Audit.{Audit, sql_audit}
use clean_architecture_saas.Audit.Laws.{audit_row, log_audit_event_lem}
use clean_architecture_saas.Cache.InMemory.{get, delete, incr, expire, set}
use clean_architecture_saas.Cache.InMemory.Laws.{view-incr_ne, view-expire_ne}
use clean_architecture_saas.Cache.Keys.{email_token}
use clean_architecture_saas.Access.RateLimit.{require_rate_limit, rate_key}
use clean_architecture_saas.Tokens.EmailTokens.{create_token, consume_token, payload_of}
use clean_architecture_saas.Db.ListTable.{table_at}
use clean_architecture_saas.Db.Table.{Table}
use clean_architecture_saas.Routers.Auth.{Deps}
use clean_architecture_saas.Routers.EmailLinks.{opened, verify_email, resend_verification_email}
use clean_architecture_saas.Routers.EmailLinks.Sound.{Verified, is_done, verify_email_sound}
use clean_architecture_saas.Routers.EmailLinks.Once.{Beside, Dead, verify_email_once}
use clean_architecture_saas.Routers.EmailLinks.Reveals.{discreet, resend_reveals}
use clean_architecture_saas.Tests.Routers.{deps, caller, see, Works-world}
use clean_architecture_saas.Tests.World.{World, alice, world, world_cache, py, plain}

abbrev mailed : World
mailed = (create_token world_cache 1 "t" "email_verification" none 900 world).1

done : is_done (verify_email py deps caller none (opened (some "t")) mailed).0 ≡ true
unfolding verify_email require_rate_limit incr expire rate_key Dict.get Dict.put create_token
    consume_token payload_of set get delete email_token
done = refl

verify_email_sound_example :
    Verified py deps caller none
      (opened (some "t"))
      (require_rate_limit deps.cache caller mailed).1
      (verify_email py deps caller none (opened (some "t")) mailed)
verify_email_sound_example = verify_email_sound py deps caller none (opened (some "t")) mailed done

-- The counter stands under another key.
other_key : (rate_key caller == email_token "t") ≡ false
unfolding rate_key email_token
other_key = refl

Beside-deps : Beside deps caller (Dead see "t")
Beside-deps = record {
  reads = λ n w p. p;
  updates = λ n fs w p. p;
  audits = λ r w v e x. cc;
  incr = λ w p. rw (view-incr_ne (rate_key caller) (email_token "t") w.cache other_key) p;
  expire = λ n w p. rw (view-expire_ne (rate_key caller) (email_token "t") n w.cache other_key) p;
}

verify_email_once_example :
    is_done
      (verify_email py deps caller none
        (opened (some "t"))
        (verify_email py deps caller none (opened (some "t")) mailed).1).0
    ≡ false
verify_email_once_example =
    verify_email_once py deps world_cache see Works-world "t" caller Beside-deps caller none mailed
      refl done

abbrev small : Deps (Unit {0})
small = record {
  users = record {
    create = λ u. pure u;
    get_by_email = λ tid email. pure none;
    get_by_email_global = λ email. pure (if email == "alice@example.com" then some alice else none);
    get_by_id = λ n. pure (some alice);
    list_by_tenant = λ tid. pure [];
    delete = λ n. pure tt;
    update = λ n fs. pure (some alice);
    set_password = λ n h. pure tt;
    update_last_login = λ n t. pure tt;
    set_email = λ n e. pure tt;
  };
  tokens = record {
    create_refresh_token = λ uid h. pure tt;
    list_refresh_tokens_by_user = λ uid. pure [];
    revoke_refresh_token = λ h. pure tt;
    purge_refresh_tokens = λ t. pure 0;
    is_token_blacklisted = λ t. pure false;
    blacklist_token = λ uid t ex. pure tt;
    add_session_cache = λ uid h t ex. pure tt;
    list_sessions_by_user = λ uid. pure [];
    revoke_session = λ h. pure tt;
    find_by_token_hash = λ h. pure none;
  };
  cache = record {
    get = λ k. pure none;
    set = λ k v ex. pure tt;
    incr = λ k. pure (pos 1);
    expire = λ k n. pure tt;
    delete = λ k. pure tt;
  };
  audit = none;
  email_tokens = none;
  sender = none;
  crypt = plain;
  token_urlsafe = pure "fresh";
  encode = λ fs. "jwt";
  sha256 = λ t. t;
  ttl = 900;
  now = 50;
}

passes : require_rate_limit small.cache caller tt ≡ (ok tt, tt)
unfolding require_rate_limit
passes = refl

resend_reveals_example :
    ((resend_verification_email py small caller
        (ok (dict (field "email" (text "bob@example.com") end)))
        none
        tt).0
      ≡ ok (discreet py small))
    ↔ ◌≡◌ {A = Option User} none none
resend_reveals_example =
    resend_reveals py small caller "bob@example.com" none tt tt none refl passes refl

-- The users beside the events.
abbrev users_table : Table (List User × List Audit) User
users_table = table_at (λ s. s.0) (λ us s. (us, s.1))

abbrev audit_table : Table (List User × List Audit) Audit
audit_table = table_at (λ s. s.1) (λ es s. (s.0, es))

abbrev audited : User
audited = record alice { audit_enabled = true }

abbrev where_from : Origin
where_from = record { ip = some "10.0.0.1"; agent = none }

log_audit_event_lem_example :
    log_audit_event
      (some (sql_audit users_table audit_table 50))
      audited
      AuditAction.login
      AuditResource.user
      end
      none
      where_from
      (audited ∷ [], [])
    ≡ (
      ok tt,
      (
        audited ∷ [],
        audit_row users_table audit_table 50 audited 1 AuditAction.login AuditResource.user end none
              where_from
            ∷ [],
      ),
    )
log_audit_event_lem_example =
    log_audit_event_lem users_table audit_table 50 audited 1 AuditAction.login AuditResource.user
      end none where_from (audited ∷ [], []) refl
