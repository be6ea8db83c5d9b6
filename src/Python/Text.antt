-- ===== src/Python/Text.antt =====
-- `str` and `int` between integers and text. `int` reads blanks, a sign and single underscores
-- between digits, over ASCII.
use Prim.Native.Char.{code}
use Prim.Native.String
use mathlib.Core.Option
use text.Mathlib.TextLemmas.{nil-append, cons-append}
use clean_architecture_saas.Prelude.{
  ℕ, zero, suc, ◌+◌, ◌-◌, ◌*◌, ◌/◌, ◌%◌, ◌<◌, String, ◌≡◌, ◌≢◌, refl, ◌∙◌, ap, subst, inl, inr,
  Bool, true, false, ◌&&◌, ◌||◌, Option, none, some, List, [], ◌∷◌, ◌++◌, arith, ltb, leb, nat_eq,
  if◌then◌else◌, All, Bool-cases,
}
use clean_architecture_saas.Python.Int.{ℤ, pos, negsuc}

-- The code points of a text.
abbrev pub codes : String → List ℕ
codes String.[] = []
codes (String.◌∷◌ c s) = code c ∷ codes s

pub codes-append : (s t : String) → codes (String.◌++◌ s t) ≡ codes s ++ codes t
codes-append String.[] t = rw nil-append
codes-append (String.◌∷◌ c s) t = rw (cons-append, codes-append s t)

digit : ℕ → String
digit zero = "0"
digit (suc zero) = "1"
digit (suc (suc zero)) = "2"
digit (suc (suc (suc zero))) = "3"
digit (suc (suc (suc (suc zero)))) = "4"
digit (suc (suc (suc (suc (suc zero))))) = "5"
digit (suc (suc (suc (suc (suc (suc zero)))))) = "6"
digit (suc (suc (suc (suc (suc (suc (suc zero))))))) = "7"
digit (suc (suc (suc (suc (suc (suc (suc (suc zero)))))))) = "8"
digit (suc (suc (suc (suc (suc (suc (suc (suc (suc d))))))))) = "9"

show_from : ℕ → ℕ → String
show_from zero n = ""
show_from (suc f) n =
    let rest = String.◌++◌ (show_from f (n / 10)) (digit (n % 10)) in
    if ltb n 10 then digit n else rest

-- `str(n)` of a natural number; the number itself is fuel enough.
unfoldable pub show : ℕ → String
unfolding show_from digit
show n = show_from (suc n) n

-- `str(n)`
unfoldable pub str_int : ℤ → String
unfolding show
str_int (pos n) = show n
str_int (negsuc n) = String.◌++◌ "-" (show (suc n))

abbrev is_digit : ℕ → Bool
is_digit c = leb b'0' c && leb c b'9'

abbrev pub is_blank : ℕ → Bool
is_blank c = nat_eq c 32 || (leb 9 c && leb c 13) || (leb 28 c && leb c 31)

unfoldable pub all_blank : List ℕ → Bool
all_blank [] = true
all_blank (c ∷ cs) = is_blank c && all_blank cs

-- The digits after the sign; the flag says that a digit has to come next.
read_digits : Bool → ℕ → List ℕ → Option ℕ
read_digits want acc [] = if want then none else some acc
read_digits want acc (c ∷ cs) =
    let more = read_digits false (acc * 10 + (c - b'0')) cs in
    let gap = read_digits true acc cs in
    if is_digit c
    then more
    else if want
    then none
    else if nat_eq c b'_'
    then gap
    else if all_blank (c ∷ cs)
    then some acc
    else none

unfoldable pub skip_blanks : List ℕ → List ℕ
skip_blanks [] = []
skip_blanks (c ∷ cs) = let rest = skip_blanks cs in if is_blank c then rest else c ∷ cs

negate : ℕ → ℤ
negate zero = pos 0
negate (suc n) = negsuc n

read_signed : List ℕ → Option ℤ
read_signed [] = none
read_signed (c ∷ cs) =
    if nat_eq c b'-'
    then Option.map negate (read_digits true 0 cs)
    else if nat_eq c b'+'
    then Option.map pos (read_digits true 0 cs)
    else Option.map pos (read_digits true 0 (c ∷ cs))

-- `int(s)`, with `none` for its `ValueError`
unfoldable pub parse_int : String → Option ℤ
unfolding read_signed read_digits skip_blanks all_blank negate
parse_int s = read_signed (skip_blanks (codes s))

abbrev AreDigits : List ℕ → Type 0
AreDigits cs = All (λ c. is_digit c ≡ true) cs

value : ℕ → List ℕ → ℕ
value acc [] = acc
value acc (c ∷ cs) = value (acc * 10 + (c - b'0')) cs

value-append :
    (acc : ℕ) (cs : List ℕ) (d : ℕ) → value acc (cs ++ d ∷ []) ≡ value acc cs * 10 + (d - b'0')
unfolding value
value-append acc [] d = refl
value-append acc (c ∷ cs) d = value-append (acc * 10 + (c - b'0')) cs d

read_digits-value :
    (acc : ℕ) (cs : List ℕ) → AreDigits cs → read_digits false acc cs ≡ some (value acc cs)
unfolding read_digits value
read_digits-value acc [] h = refl
read_digits-value acc (c ∷ cs) (d, ds) = rw d (read_digits-value (acc * 10 + (c - b'0')) cs ds)

AreDigits-append :
    (cs : List ℕ) (d : ℕ) → AreDigits cs → is_digit d ≡ true → AreDigits (cs ++ d ∷ [])
AreDigits-append [] d h e = (e, tt)
AreDigits-append (c ∷ cs) d (p, h) e = (p, AreDigits-append cs d h e)

-- A list of digits, at least one, that is worth a number.
record Numeral (cs : List ℕ) (n : ℕ) : Type 0 where
  digits : AreDigits cs
  worth : value 0 cs ≡ n
  there : cs ≢ []

read_signed-digits :
    (c : ℕ) (cs : List ℕ)
    → AreDigits (c ∷ cs)
    → read_signed (skip_blanks (c ∷ cs)) ≡ some (pos (value 0 (c ∷ cs)))
unfolding read_signed skip_blanks read_digits value
read_signed-digits c cs (d, ds) = ground (arith, read_digits-value (0 * 10 + (c - b'0')) cs ds)

codes-digit : (d : ℕ) → d < 10 → codes (digit d) ≡ (b'0' + d) ∷ []
unfolding digit
codes-digit zero h = refl
codes-digit (suc zero) h = refl
codes-digit (suc (suc zero)) h = refl
codes-digit (suc (suc (suc zero))) h = refl
codes-digit (suc (suc (suc (suc zero)))) h = refl
codes-digit (suc (suc (suc (suc (suc zero))))) h = refl
codes-digit (suc (suc (suc (suc (suc (suc zero)))))) h = refl
codes-digit (suc (suc (suc (suc (suc (suc (suc zero))))))) h = refl
codes-digit (suc (suc (suc (suc (suc (suc (suc (suc zero)))))))) h = refl
codes-digit (suc (suc (suc (suc (suc (suc (suc (suc (suc d))))))))) h =
    ap (λ n. n ∷ []) (omega arith)

append-ne-nil : (cs : List ℕ) (d : ℕ) → cs ++ d ∷ [] ≢ []
append-ne-nil [] d e = cc
append-ne-nil (c ∷ cs) d e = cc

Numeral-append :
    (cs : List ℕ) (n d : ℕ) → Numeral cs n → d < 10 → Numeral (cs ++ (b'0' + d) ∷ []) (n * 10 + d)
Numeral-append cs n d m h = record {
  digits = AreDigits-append cs (b'0' + d) m.digits (ground arith);
  worth = omega (arith, value-append 0 cs (b'0' + d), m.worth);
  there = append-ne-nil cs (b'0' + d);
}

Numeral-show-digit : (d : ℕ) → d < 10 → Numeral (codes (digit d)) d
unfolding value
Numeral-show-digit d h =
    rw (codes-digit d h)
      (record { digits = (ground arith, tt); worth = omega arith; there = λ e. cc })

show_from-Numeral : (f n : ℕ) → n < f → Numeral (codes (show_from f n)) n
unfolding show_from
show_from-Numeral zero n h = elim h [ ]
show_from-Numeral (suc f) n h = elim (Bool-cases (ltb n 10)) [
  | inl small ↦ rw small (Numeral-show-digit n (ground arith))
  | inr large ↦
      rw (large, codes-append, codes-digit (n % 10) (omega arith))
        (subst (Numeral (codes (show_from f (n / 10)) ++ (b'0' + n % 10) ∷ [])) (omega arith) (
          Numeral-append _ (n / 10) (n % 10) (show_from-Numeral f (n / 10) (ground arith))
            (omega arith)))
]

parse-Numeral : (cs : List ℕ) (n : ℕ) → Numeral cs n → read_signed (skip_blanks cs) ≡ some (pos n)
parse-Numeral [] n m = absurd (m.there refl)
parse-Numeral (c ∷ cs) n m = read_signed-digits c cs m.digits ∙ ap (λ k. some (pos k)) m.worth

-- A natural number is read back from its text.
pub parse_int-show : (n : ℕ) → parse_int (show n) ≡ some (pos n)
unfolding parse_int show
parse_int-show n = parse-Numeral _ n (show_from-Numeral (suc n) n (omega arith))
