-- ===== src/Cache/InMemory/Laws.antt =====
-- What a client of `InMemoryCache` sees: the entries that have not expired.
use mathlib.Core.Path.{fun_ext}
use clean_architecture_saas.Prelude.{
  ℕ, ◌+◌, String, ◌≡◌, refl, false, Option, none, some, arith, ◌==◌, eq_iff, ltb, nat_eq,
  if◌then◌else◌,
}
use clean_architecture_saas.Python.Exec.{ok}
use clean_architecture_saas.Python.Dict
use clean_architecture_saas.Python.Dict.{get-put, get-remove}
use clean_architecture_saas.Python.Int.{pos}
use clean_architecture_saas.Python.Text.{str_int, parse_int-show}
use clean_architecture_saas.Python.Value.{Value, text}
use clean_architecture_saas.Cache.InMemory.{
  Entry, Mem, expired, get, set, incr, expire_entry, expire, delete, tick,
}

live : ℕ → Option Entry → Option Value
live now none = none
live now (some e) = if expired now e then none else some e.value

-- The value that is cached under a key at the present moment.
unfoldable pub view : Mem → String → Option Value
unfolding live expired
view m key = live m.clock (Dict.get m.store key)

-- A value that is stored for no time at all is never seen.
abbrev pub stored : Option ℕ → Value → Option Value
stored none v = some v
stored (some ex) v = if nat_eq ex 0 then none else some v

pub get-view : (k : String) (m : Mem) → (get k m).0 ≡ ok (view m k)
unfolding get view
get-view k m = ground arith

pub view-get : (k j : String) (m : Mem) → view (get k m).1 j ≡ view m j
unfolding get view
view-get k j m = ground (arith, get-remove m.store k j, eq_iff k j)

-- The same for all keys at once: reading changes nothing that can be seen.
pub view-get_all : (k : String) (m : Mem) → view (get k m).1 ≡ view m
view-get_all k m = fun_ext λ j. view-get k j m

pub view-set :
    (k j : String) (v : Value) (ex : Option ℕ) (m : Mem)
    → view (set k v ex m).1 j ≡ (if k == j then stored ex v else view m j)
unfolding set view
view-set k j v ex m = rw get-put (ground (arith, eq_iff k j))

pub view-delete :
    (k j : String) (m : Mem) → view (delete k m).1 j ≡ (if k == j then none else view m j)
unfolding delete view
view-delete k j m = rw get-remove (ground (arith, eq_iff k j))

-- The views of all keys after a write, as a function of the views before.
abbrev pub write : String → Option Value → (String → Option Value) → String → Option Value
write k o v j = if k == j then o else v j

pub view-set_all :
    (k : String) (v : Value) (ex : Option ℕ) (m : Mem)
    → view (set k v ex m).1 ≡ write k (stored ex v) (view m)
view-set_all k v ex m = fun_ext λ j. view-set k j v ex m

pub view-delete_all : (k : String) (m : Mem) → view (delete k m).1 ≡ write k none (view m)
view-delete_all k m = fun_ext λ j. view-delete k j m

pub view-incr_ne : (k j : String) (m : Mem) → (k == j) ≡ false → view (incr k m).1 j ≡ view m j
unfolding incr view
view-incr_ne k j m h = rw get-put (ground arith)

expire_entry-view :
    (k j : String) (n : ℕ) (o : Option Entry) (m : Mem)
    → (k == j) ≡ false
    → view (expire_entry k n o m).1 j ≡ view m j
unfolding expire_entry view
expire_entry-view k j n none m h = refl
expire_entry-view k j n (some e) m h = rw get-put (ground arith)

pub view-expire_ne :
    (k j : String) (n : ℕ) (m : Mem) → (k == j) ≡ false → view (expire k n m).1 j ≡ view m j
unfolding expire
view-expire_ne k j n m h = expire_entry-view k j n (Dict.get m.store k) m h

-- After storing for `ex` seconds and waiting `n`, the value is seen exactly if n < ex.
pub view-tick-set :
    (k : String) (v : Value) (ex n : ℕ) (m : Mem)
    → view (tick n (set k v (some ex) m).1) k ≡ (if ltb n ex then some v else none)
unfolding set view tick
view-tick-set k v ex n m = rw get-put (ground (arith, eq_iff k k))

pub incr-absent :
    (k : String) (m : Mem)
    → view m k ≡ none
    → ((incr k m).0 ≡ ok (pos 1)) × (view (incr k m).1 k ≡ some (text (str_int (pos 1))))
unfolding incr view
incr-absent k m h = rw get-put (ground (arith, eq_iff k k))

-- Where the text of a natural number is seen, `incr` returns the next number and its text is seen.
incr-count :
    (k : String) (n : ℕ) (m : Mem)
    → view m k ≡ some (text (str_int (pos n)))
    → ((incr k m).0 ≡ ok (pos (n + 1)))
      × (view (incr k m).1 k ≡ some (text (str_int (pos (n + 1)))))
unfolding incr view str_int
incr-count k n m h = rw get-put (ground (arith, eq_iff k k, parse_int-show n))

pub set-ok : (k : String) (v : Value) (ex : Option ℕ) (m : Mem) → (set k v ex m).0 ≡ ok tt
unfolding set
set-ok k v ex m = refl

pub delete-ok : (k : String) (m : Mem) → (delete k m).0 ≡ ok tt
unfolding delete
delete-ok k m = refl
