-- ===== src/Python/Fields.antt =====
-- The laws of the dictionaries of dynamic values.
use clean_architecture_saas.Prelude.{
  String, ◌≡◌, refl, ap, none, some, arith, ◌==◌, eq_iff, if◌then◌else◌,
}
use clean_architecture_saas.Python.Value.{
  Value, Fields, end, field, get_field, set_field, drop_field, default_field,
}

pub get_field-set_field :
    (fs : Fields) (k j : String) (v : Value)
    → get_field (set_field fs k v) j ≡ (if k == j then some v else get_field fs j)
unfolding get_field set_field
get_field-set_field end k j v = refl
get_field-set_field (field i w fs) k j v =
    ground (arith, eq_iff k j, eq_iff i k, eq_iff i j, get_field-set_field fs k j v)

-- The keys of a dictionary are distinct.
abbrev pub IsDistinct : Fields → Type 0
IsDistinct end = Unit
IsDistinct (field k v fs) = (get_field fs k ≡ none) × IsDistinct fs

pub IsDistinct-set_field :
    (fs : Fields) (k : String) (v : Value) → IsDistinct fs → IsDistinct (set_field fs k v)
unfolding set_field get_field
IsDistinct-set_field end k v h = (refl, tt)
IsDistinct-set_field (field j w fs) k v (n, h) =
    ground
      (arith, eq_iff j k, eq_iff k j, get_field-set_field fs k j v, IsDistinct-set_field fs k v h)

unfoldable pub append : Fields → Fields → Fields
append end gs = gs
append (field k v fs) gs = field k v (append fs gs)

pub append-end : (fs : Fields) → append fs end ≡ fs
unfolding append
append-end end = refl
append-end (field k v fs) = ap (λ gs. field k v gs) (append-end fs)

pub append-append :
    (p : Fields) (k : String) (v : Value) (fs : Fields)
    → append (append p (field k v end)) fs ≡ append p (field k v fs)
unfolding append
append-append end k v fs = refl
append-append (field j w p) k v fs = ap (λ gs. field j w gs) (append-append p k v fs)

-- A new key comes last.
pub set_field-append :
    (p : Fields) (k : String) (v : Value)
    → get_field p k ≡ none
    → set_field p k v ≡ append p (field k v end)
unfolding set_field get_field append
set_field-append end k v h = refl
set_field-append (field j w p) k v h = ground (arith, set_field-append p k v)

-- An absent key is not there to drop.
pub drop_field-absent : (fs : Fields) (k : String) → get_field fs k ≡ none → drop_field fs k ≡ fs
unfolding drop_field get_field
drop_field-absent end k h = refl
drop_field-absent (field j w fs) k h = ground (arith, drop_field-absent fs k)

pub get_field-append :
    (p q : Fields) (k : String)
    → get_field (append p q) k ≡ elim (get_field p k) [ none ↦ get_field q k | some v ↦ some v ]
unfolding get_field append
get_field-append end q k = refl
get_field-append (field j w p) q k = ground (arith, get_field-append p q k)

pub drop_field-append :
    (p q : Fields) (k : String)
    → drop_field (append p q) k ≡ append (drop_field p k) (drop_field q k)
unfolding drop_field append
drop_field-append end q k = refl
drop_field-append (field j w p) q k = ground (arith, drop_field-append p q k)

pub append_assoc : (p q r : Fields) → append (append p q) r ≡ append p (append q r)
unfolding append
append_assoc end q r = refl
append_assoc (field j w p) q r = ap (λ fs. field j w fs) (append_assoc p q r)

pub default_field-absent :
    (p : Fields) (k : String) (v : Value)
    → get_field p k ≡ none
    → default_field p k v ≡ append p (field k v end)
unfolding default_field
default_field-absent p k v h = ground (arith, set_field-append p k v h)
