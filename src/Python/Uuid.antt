-- ===== src/Python/Uuid.antt =====
-- `uuid.UUID(s)`: the text without "urn:", "uuid:", braces around it and dashes has 32 characters,
-- which are read as `int(…, 16)` does: blanks around, a sign, "0x" and single underscores, over
-- ASCII. The value is a number below 2 ^ 128.
use clean_architecture_saas.Prelude.{
  ℕ, zero, suc, ◌+◌, ◌-◌, ◌*◌, String, Bool, true, false, ◌&&◌, ◌||◌, Option, none, some, List, [],
  ◌∷◌, leb, nat_eq, if◌then◌else◌, length,
}
use clean_architecture_saas.Python.Text.{codes, all_blank, skip_blanks}
use clean_architecture_saas.Python.Substring.{starts}

-- `s.replace(pattern, "")`, with the number of characters of a match that are still to drop
remove_from : ℕ → List ℕ → List ℕ → List ℕ
remove_from k pattern [] = []
remove_from (suc k) pattern (c ∷ cs) = remove_from k pattern cs
remove_from zero pattern (c ∷ cs) =
    let rest = remove_from zero pattern cs in
    let matched = remove_from (length pattern - 1) pattern cs in
    if starts pattern (c ∷ cs) then matched else c ∷ rest

abbrev is_brace : ℕ → Bool
is_brace c = nat_eq c b'{' || nat_eq c b'}'

drop_braces : List ℕ → List ℕ
drop_braces [] = []
drop_braces (c ∷ cs) = let rest = drop_braces cs in if is_brace c then rest else c ∷ cs

reverse_onto : List ℕ → List ℕ → List ℕ
reverse_onto acc [] = acc
reverse_onto acc (c ∷ cs) = reverse_onto (c ∷ acc) cs

-- `s.strip("{}")`
strip_braces : List ℕ → List ℕ
strip_braces cs = reverse_onto [] (drop_braces (reverse_onto [] (drop_braces cs)))

hex_digit : ℕ → Option ℕ
hex_digit c =
    if leb b'0' c && leb c b'9'
    then some (c - b'0')
    else if leb b'a' c && leb c b'f'
    then some (c - 87)
    else if leb b'A' c && leb c b'F'
    then some (c - 55)
    else none

-- The digits after the sign and the prefix; the flag says that a digit has to come next.
read_hex : Bool → ℕ → List ℕ → Option ℕ
read_hex want acc [] = if want then none else some acc
read_hex want acc (c ∷ cs) =
    let gap = read_hex true acc cs in
    elim (hex_digit c) [
      | some d ↦ read_hex false (acc * 16 + d) cs
      | none ↦
          if want
          then none
          else if nat_eq c b'_'
          then gap
          else if all_blank (c ∷ cs)
          then some acc
          else none
    ]

-- After "0x" an underscore may stand.
after_prefix : List ℕ → Option ℕ
after_prefix [] = none
after_prefix (c ∷ cs) = if nat_eq c b'_' then read_hex true 0 cs else read_hex true 0 (c ∷ cs)

prefixed : List ℕ → Option ℕ
prefixed (a ∷ b ∷ cs) =
    if nat_eq a b'0' && (nat_eq b b'x' || nat_eq b b'X')
    then after_prefix cs
    else read_hex true 0 (a ∷ b ∷ cs)
prefixed cs = read_hex true 0 cs

-- A minus sign is gone with the dashes.
signed_hex : List ℕ → Option ℕ
signed_hex [] = none
signed_hex (c ∷ cs) = if nat_eq c b'+' then prefixed cs else prefixed (c ∷ cs)

unfoldable pub parse_uuid : String → Option ℕ
unfolding remove_from drop_braces reverse_onto strip_braces hex_digit read_hex after_prefix prefixed
    signed_hex starts skip_blanks all_blank
parse_uuid s =
    let hex =
      remove_from 0 (codes "-")
        (strip_braces (remove_from 0 (codes "uuid:") (remove_from 0 (codes "urn:") (codes s)))) in
    if nat_eq (length hex) 32 then signed_hex (skip_blanks hex) else none
