-- ===== src/Cache/Redis.antt =====
-- infrastructure/cache/redis_client.py: AioredisClient. The Redis client and `json` are libraries; a
-- stored text is what its bytes decode to. The metrics are left out.
use clean_architecture_saas.Prelude.{ℕ, String, Option, none, some, ◌==◌, if◌then◌else◌}
use clean_architecture_saas.Python.Exec.{Exec, pure, ◌>>=◌}
use clean_architecture_saas.Python.Int.{ℤ}
use clean_architecture_saas.Python.Value.{Value, nul, text}
use clean_architecture_saas.Cache.Client.{CacheClient}

-- The client of `redis.asyncio`.
pub record Redis (S : Type 0) : Type 0 where
  pub get : String → Exec S (Option String)
  pub set : String → String → Option ℕ → Exec S (Unit {0})
  pub incr : String → Exec S ℤ
  pub expire : String → ℕ → Exec S (Unit {0})
  pub delete : String → Exec S (Unit {0})

-- `json.dumps` and `json.loads`, where they do not raise, and `str`.
pub record Json : Type 0 where
  pub dumps : Value → Option String
  pub loads : String → Option Value
  pub str : Value → String

-- The value `null` is `None`.
abbrev pub or_none : Value → Option Value
or_none v = elim v [ nul ↦ none | w ↦ some w ]

module _ {S : Type 0} (json : Json) (client : Redis S) where
  abbrev loaded : String → Option Value → Option Value
  loaded t none = some (text t)
  loaded t (some v) = or_none v

  -- An empty text counts as none.
  abbrev pub read : Option String → Option Value
  read none = none
  read (some t) = if t == "" then none else loaded t (json.loads t)

  unfoldable pub get : String → Exec S (Option Value)
  get key = do v ← client.get key; pure (read v)

  abbrev pub dumped : Value → String
  dumped v = elim (json.dumps v) [ none ↦ json.str v | some t ↦ t ]

  unfoldable pub set : String → Value → Option ℕ → Exec S (Unit {0})
  set key value ex = client.set key (dumped value) ex

  abbrev pub aioredis : CacheClient S
  aioredis = record {
    get = get;
    set = set;
    incr = client.incr;
    expire = client.expire;
    delete = client.delete;
  }
