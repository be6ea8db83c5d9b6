-- ===== src/Domain/Tenant.antt =====
-- domain/tenant.py. A `datetime` is a number of seconds.
pub mod Lifecycle
use clean_architecture_saas.Prelude.{
  ℕ, ◌+◌, String, Bool, true, false, ◌&&◌, ◌||◌, Option, none, some, List, [], ◌∷◌, map, leb,
  nat_eq, if◌then◌else◌,
}
use clean_architecture_saas.Python.Text.{codes}
use clean_architecture_saas.Python.Value.{Value, nul, dict, end}

pub record Tenant : Type 0 where
  pub id : Option ℕ
  pub name : String
  pub slug : Option String
  pub domain : Option String
  pub plan : String
  pub status : String
  pub settings : Value
  pub created_at : Option ℕ
  pub updated_at : Option ℕ

abbrev or_moment : Option ℕ → Option ℕ → Option ℕ
or_moment none t = t
or_moment (some t) s = some t

abbrev or_empty : Value → Value
or_empty nul = dict end
or_empty v = v

-- `__post_init__`
unfoldable pub post_init : ℕ → Tenant → Tenant
post_init now t =
    let created = or_moment t.created_at (some now) in
    record t {
      created_at = created;
      updated_at = or_moment t.updated_at created;
      settings = or_empty t.settings;
    }

-- `s.lower()`, by code points. No character outside ASCII lowers to a letter of a status word, so
-- the letters of ASCII are enough for the comparisons below.
unfoldable pub lower : String → List ℕ
lower s = map (λ c. if leb b'A' c && leb c b'Z' then c + 32 else c) (codes s)

unfoldable pub same_codes : List ℕ → List ℕ → Bool
same_codes [] [] = true
same_codes [] (d ∷ ds) = false
same_codes (c ∷ cs) [] = false
same_codes (c ∷ cs) (d ∷ ds) = nat_eq c d && same_codes cs ds

-- `s.lower() == word`, for a word in lower case
unfoldable pub reads : String → String → Bool
unfolding lower same_codes
reads s word = same_codes (lower s) (codes word)

unfoldable pub can_transition_to : Tenant → String → Bool
can_transition_to t target =
    if reads t.status "canceled"
    then false
    else if reads t.status "active"
        && (reads target "suspended" || reads target "canceled" || reads target "active")
    then true
    else if reads t.status "suspended"
        && (reads target "active" || reads target "canceled" || reads target "suspended")
    then true
    else false
