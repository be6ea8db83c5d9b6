-- ===== src/Routers/Auth/Undone.antt =====
-- What becomes of the revocation of a refresh token at the end of the session of the request.
use clean_architecture_saas.Prelude.{ℕ, String, Option, List}
use clean_architecture_saas.Python.Preserves.{Keeps}
use clean_architecture_saas.Db.Session.{Rollback, Pending}
use clean_architecture_saas.Db.Table.{Table, Documented}
use clean_architecture_saas.Tokens.Refresh.{RefreshToken, BlacklistedToken}
use clean_architecture_saas.Routers.Auth.Setting.{on_tables}
use clean_architecture_saas.Routers.Auth.{Deps}

module _ {S : Type 0} (d : Deps S) (table : Table S RefreshToken)
    (blacklist : Table S BlacklistedToken) (lifetime : Option ℕ)
    (rows durable : S → List RefreshToken) (documented : Documented table rows)
    (pending : Pending table rows durable)
    (deletes : (k : String) → Keeps durable (d.cache.delete k)) (close : S → S)
    (rollback : Rollback rows durable close) where
  abbrev here : Deps S
  here = on_tables d table blacklist lifetime
