-- ===== src/Cache/InMemory/Counter.antt =====
-- A counter with a deadline: what `incr` and `expire` make of an entry while time passes.
use clean_architecture_saas.Prelude.{
  ℕ, ◌+◌, ◌-◌, ◌≤◌, ◌<◌, String, ◌≡◌, Option, none, some, arith, eq_iff,
}
use clean_architecture_saas.Python.Exec.{ok}
use clean_architecture_saas.Python.Dict
use clean_architecture_saas.Python.Dict.{get-put}
use clean_architecture_saas.Python.Int.{pos}
use clean_architecture_saas.Python.Text.{str_int, parse_int-show}
use clean_architecture_saas.Python.Value.{text}
use clean_architecture_saas.Cache.InMemory.{Mem, incr, expire, tick}
use clean_architecture_saas.Cache.InMemory.Laws.{view}

-- The entry holds the number `n` for `left` more seconds.
abbrev pub Counts : String → ℕ → ℕ → Mem → Type 0
Counts k n left m =
    Dict.get m.store k
    ≡ some (record { value = text (str_int (pos n)); expire_at = some (m.clock + left) })

pub Counts-tick :
    (k : String) (n left d : ℕ) (m : Mem)
    → d ≤ left
    → Counts k n left m
    → Counts k n (left - d) (tick d m)
unfolding tick
Counts-tick k n left d m h c = ground (arith, c)

pub Counts-incr :
    (k : String) (n left : ℕ) (m : Mem)
    → 0 < left
    → Counts k n left m
    → ((incr k m).0 ≡ ok (pos (n + 1))) × Counts k (n + 1) left (incr k m).1
unfolding incr str_int
Counts-incr k n left m h c = rw get-put (ground (arith, eq_iff k k, parse_int-show n, c))

first_entry :
    (k : String) (m : Mem)
    → view m k ≡ none
    → Dict.get (incr k m).1.store k
      ≡ some (record { value = text (str_int (pos 1)); expire_at = none })
unfolding incr view
first_entry k m h = rw get-put (ground (arith, eq_iff k k))

expire-entry :
    (k : String) (n period : ℕ) (e : Option ℕ) (m : Mem)
    → Dict.get m.store k ≡ some (record { value = text (str_int (pos n)); expire_at = e })
    → Counts k n period (expire k period m).1
unfolding expire
expire-entry k n period e m h = ground (
  arith,
  h,
  eq_iff k k,
  get-put m.store k k
      (record { value = text (str_int (pos n)); expire_at = some (m.clock + period) }),
)

pub Counts-first :
    (k : String) (period : ℕ) (m : Mem)
    → view m k ≡ none
    → Counts k 1 period (expire k period (incr k m).1).1
Counts-first k period m h = expire-entry k 1 period none (incr k m).1 (first_entry k m h)

pub expire-ok : (k : String) (period : ℕ) (m : Mem) → (expire k period m).0 ≡ ok tt
unfolding expire
expire-ok k period m = ground (arith)

-- The number is seen while its time lasts, and not after.
pub Counts-view :
    (k : String) (n left d : ℕ) (m : Mem) → left ≤ d → Counts k n left m → view (tick d m) k ≡ none
unfolding view tick
Counts-view k n left d m h c = ground (arith, c)
