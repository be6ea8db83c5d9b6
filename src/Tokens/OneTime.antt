-- ===== src/Tokens/OneTime.antt =====
-- Email tokens over the in-memory cache: what is created is consumed once, and in time.
use clean_architecture_saas.Prelude.{String, ◌≡◌, Option, none, some, arith, eq_iff, if◌then◌else◌}
use clean_architecture_saas.Python.Exec.{ok}
use clean_architecture_saas.Python.Value.{Value, truthy}
use clean_architecture_saas.Cache.InMemory.{Mem, get, delete, in_memory}
use clean_architecture_saas.Cache.InMemory.Laws.{view, get-view, view-get_all, view-delete}
use clean_architecture_saas.Cache.Keys.{email_token}
use clean_architecture_saas.Tokens.EmailTokens.{TokenData, token_data, consume_token}

-- Over the cache in memory, consuming a token twice in a row gives nothing the second time,
-- whatever was cached.
consume_once :
    (token : String) (m : Mem)
    → (consume_token in_memory token (consume_token in_memory token m).1).0 ≡ ok none
unfolding consume_token delete
consume_once token m =
    let k : String = email_token token in
    let m' : Mem = (get k m).1 in
    ground (
      arith,
      get-view k m,
      view-get_all k m,
      view-delete k k m',
      eq_iff k k,
      get-view k m',
      view-get_all k m',
      get-view k (delete k m').1,
    )

-- What a cached value is consumed as.
abbrev pub consumed : Option Value → Option TokenData
consumed none = none
consumed (some v) = if truthy v then token_data v else none

pub consume_lem :
    (token : String) (m : Mem)
    → (consume_token in_memory token m).0 ≡ ok (consumed (view m (email_token token)))
unfolding consume_token delete
consume_lem token m = ground (arith, get-view (email_token token) m)
