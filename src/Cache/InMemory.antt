-- ===== src/Cache/InMemory.antt =====
-- infrastructure/cache/redis_client.py: `InMemoryCache`. The lock makes each operation one step.
-- `time.time()` is the clock of the state, in whole seconds; the metrics are left out.
pub mod Laws
pub mod Counter
use clean_architecture_saas.Prelude.{
  ℕ, ◌+◌, String, Bool, true, false, Option, none, some, leb, if◌then◌else◌,
}
use clean_architecture_saas.Python.Exec.{Exec, pure, ok}
use clean_architecture_saas.Python.Dict
use clean_architecture_saas.Python.Dict.{Dict}
use clean_architecture_saas.Python.Int.{ℤ, pos, negsuc, add_one}
use clean_architecture_saas.Python.Text.{str_int, parse_int}
use clean_architecture_saas.Python.Value.{
  Value, nul, flag, num, text, list, texts, dict, user, users, moment,
}
use clean_architecture_saas.Cache.Client.{CacheClient}

-- `(value, expire_at)`
pub record Entry : Type 0 where
  pub value : Value
  pub expire_at : Option ℕ

pub record Mem : Type 0 where
  pub clock : ℕ
  pub store : Dict Entry

unfoldable pub expired : ℕ → Entry → Bool
expired now e = elim e.expire_at [ none ↦ false | some t ↦ leb t now ]

-- `int(value)`, with `none` for its `TypeError` or `ValueError`
unfoldable pub int_of : Value → Option ℤ
int_of (flag true) = some (pos 1)
int_of (flag false) = some (pos 0)
int_of (num n) = some n
int_of (text s) = parse_int s
int_of nul = none
int_of (list vs) = none
int_of (texts ss) = none
int_of (dict fs) = none
int_of (user u) = none
int_of (users us) = none
int_of (moment t) = none

get_entry : String → Option Entry → Exec Mem (Option Value)
get_entry key none m = (ok none, m)
get_entry key (some e) m =
    if expired m.clock e
    then (ok none, record m { store = Dict.remove m.store key })
    else (ok (some e.value), m)

unfoldable pub get : String → Exec Mem (Option Value)
unfolding get_entry expired
get key m = get_entry key (Dict.get m.store key) m

abbrev deadline : ℕ → Option ℕ → Option ℕ
deadline now none = none
deadline now (some ex) = some (now + ex)

unfoldable pub set : String → Value → Option ℕ → Exec Mem (Unit {0})
set key value ex m = (
  ok tt,
  record m {
    store = Dict.put m.store key (record { value = value; expire_at = deadline m.clock ex });
  },
)

-- The number that `incr` stores and returns, as text, and the expiry that it keeps.
incr_entry : ℕ → Option Entry → ℤ × Option ℕ
incr_entry now none = (pos 1, none)
incr_entry now (some e) =
    if expired now e
    then (pos 1, none)
    else elim (int_of e.value) [ none ↦ (pos 1, e.expire_at) | some n ↦ (add_one n, e.expire_at) ]

unfoldable pub incr : String → Exec Mem ℤ
unfolding incr_entry expired int_of
incr key m =
    let (v, expire_at) = incr_entry m.clock (Dict.get m.store key) in
    (
      ok v,
      record m {
        store = Dict.put m.store key (record { value = text (str_int v); expire_at = expire_at });
      },
    )

expire_entry : String → ℕ → Option Entry → Exec Mem (Unit {0})
expire_entry key seconds none m = (ok tt, m)
expire_entry key seconds (some e) m = (
  ok tt,
  record m {
    store = Dict.put m.store key (record { value = e.value; expire_at = some (m.clock + seconds) });
  },
)

unfoldable pub expire : String → ℕ → Exec Mem (Unit {0})
unfolding expire_entry
expire key seconds m = expire_entry key seconds (Dict.get m.store key) m

unfoldable pub delete : String → Exec Mem (Unit {0})
delete key m = (ok tt, record m { store = Dict.remove m.store key })

abbrev pub in_memory : CacheClient Mem
in_memory = record { get = get; set = set; incr = incr; expire = expire; delete = delete }

-- The passing of time between two operations.
unfoldable pub tick : ℕ → Mem → Mem
tick n m = record m { clock = m.clock + n }
