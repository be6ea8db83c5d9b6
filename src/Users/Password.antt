-- ===== src/Users/Password.antt =====
-- utils/password.py
use clean_architecture_saas.Prelude.{
  ℕ, ◌+◌, ◌≤◌, String, ◌≡◌, refl, ◌↔◌, Bool, true, false, not, ◌&&◌, List, [], ◌∷◌, arith, ltb, leb,
  nat_eq, if◌then◌else◌, length, any, Some, any_iff,
}
use clean_architecture_saas.Python.Text.{codes}

-- `[A-Z]` and `[a-z]`
unfoldable pub is_upper : ℕ → Bool
is_upper c = leb b'A' c && leb c b'Z'

unfoldable pub is_lower : ℕ → Bool
is_lower c = leb b'a' c && leb c b'z'

-- The zeros of the decimal digits of Unicode 14 (Python 3.11), each followed by its one to nine.
abbrev digit_zeros : List ℕ
digit_zeros =
    0x30 ∷ 0x660 ∷ 0x6f0 ∷ 0x7c0 ∷ 0x966 ∷ 0x9e6 ∷ 0xa66 ∷ 0xae6 ∷ 0xb66 ∷ 0xbe6 ∷ 0xc66 ∷ 0xce6
    ∷ 0xd66 ∷ 0xde6 ∷ 0xe50 ∷ 0xed0 ∷ 0xf20 ∷ 0x1040 ∷ 0x1090 ∷ 0x17e0 ∷ 0x1810 ∷ 0x1946 ∷ 0x19d0
    ∷ 0x1a80 ∷ 0x1a90 ∷ 0x1b50 ∷ 0x1bb0 ∷ 0x1c40 ∷ 0x1c50 ∷ 0xa620 ∷ 0xa8d0 ∷ 0xa900 ∷ 0xa9d0
    ∷ 0xa9f0 ∷ 0xaa50 ∷ 0xabf0 ∷ 0xff10 ∷ 0x104a0 ∷ 0x10d30 ∷ 0x11066 ∷ 0x110f0 ∷ 0x11136 ∷ 0x111d0
    ∷ 0x112f0 ∷ 0x11450 ∷ 0x114d0 ∷ 0x11650 ∷ 0x116c0 ∷ 0x11730 ∷ 0x118e0 ∷ 0x11950 ∷ 0x11c50
    ∷ 0x11d50 ∷ 0x11da0 ∷ 0x16a60 ∷ 0x16ac0 ∷ 0x16b50 ∷ 0x1d7ce ∷ 0x1d7d8 ∷ 0x1d7e2 ∷ 0x1d7ec
    ∷ 0x1d7f6 ∷ 0x1e140 ∷ 0x1e2f0 ∷ 0x1e950 ∷ 0x1fbf0 ∷ []

-- `\d`, which matches every decimal digit of Unicode.
unfoldable pub is_decimal : ℕ → Bool
is_decimal c = any (λ z. leb z c && ltb c (z + 10)) digit_zeros

-- The characters of the last character class.
abbrev special_characters : List ℕ
special_characters = codes "!@#$%^&*(),.?\":{}|<>[]\\/_-+=~`';"

unfoldable pub is_special : ℕ → Bool
is_special c = any (nat_eq c) special_characters

unfoldable pub validate_password_strength : String → Bool × String
validate_password_strength password =
    let cs = codes password in
    if ltb (length cs) 12
    then (false, "Password must be at least 12 characters long")
    else if not (any is_upper cs)
    then (false, "Password must contain at least one uppercase letter")
    else if not (any is_lower cs)
    then (false, "Password must contain at least one lowercase letter")
    else if not (any is_decimal cs)
    then (false, "Password must contain at least one digit")
    else if not (any is_special cs)
    then (false, "Password must contain at least one special character")
    else (true, "")

-- The requirements that the documentation of the function lists.
pub record IsStrong (password : String) : Type 0 where
  pub long : 12 ≤ length (codes password)
  pub upper : Some (λ c. is_upper c ≡ true) (codes password)
  pub lower : Some (λ c. is_lower c ≡ true) (codes password)
  pub decimal : Some (λ c. is_decimal c ≡ true) (codes password)
  pub special : Some (λ c. is_special c ≡ true) (codes password)

strength_tests :
    (validate_password_strength "Str0ng-enough" ≡ (true, ""))
    × ((validate_password_strength "Sh0rt-one").0 ≡ false)
    × ((validate_password_strength "no-Digits-here").1 ≡ "Password must contain at least one digit")
unfolding validate_password_strength is_upper is_lower is_decimal is_special
strength_tests = (refl, refl, refl)

IsStrong-of_valid : (p : String) → (validate_password_strength p).0 ≡ true → IsStrong p
unfolding validate_password_strength
IsStrong-of_valid p h = record {
  long = ground arith;
  upper = (any_iff is_upper (codes p)).0 (ground arith);
  lower = (any_iff is_lower (codes p)).0 (ground arith);
  decimal = (any_iff is_decimal (codes p)).0 (ground arith);
  special = (any_iff is_special (codes p)).0 (ground arith);
}

valid_of_IsStrong : (p : String) → IsStrong p → (validate_password_strength p).0 ≡ true
unfolding validate_password_strength
valid_of_IsStrong p s = ground (
  arith,
  (any_iff is_upper (codes p)).1 s.upper,
  (any_iff is_lower (codes p)).1 s.lower,
  (any_iff is_decimal (codes p)).1 s.decimal,
  (any_iff is_special (codes p)).1 s.special,
)

-- A password is accepted exactly if it has at least twelve characters, among them an upper-case and
-- a lower-case letter, a digit and a special character.
pub validate_iff : (p : String) → ((validate_password_strength p).0 ≡ true) ↔ IsStrong p
validate_iff p = (IsStrong-of_valid p, valid_of_IsStrong p)
