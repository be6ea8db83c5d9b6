-- ===== src/Permissions/Repository/Sets.antt =====
-- Which permission is in which role, as a relation that forgets the order and the repetition of rows.
use clean_architecture_saas.Prelude.{
  ℕ, ◌≡◌, ◌⊎◌, refl, ap, Bool, true, false, not, ◌&&◌, ◌||◌, none, some, List, [], ◌∷◌, ◌++◌, map,
  keep, first, arith, nat_eq, nat_eq_iff, inl, inr, Bool-cases,
}
use clean_architecture_saas.Python.Exec.{Exc, Exec, ok, raised}
use clean_architecture_saas.Permissions.Repository.{Link, link, ids, in_role, same_link, holds_id}

-- What is documented of the insert into the associations: it is refused as a whole, or the rows stand
-- behind the others.
pub record InsertsLinks {S : Type 0} (insert_links : List Link → Exec S (Unit {0}))
    (rows : S → List Link) : Type 0 where
  pub insert_lem :
      (ls : List Link) (s : S)
      → ((e : Exc) × ((insert_links ls s).0 ≡ raised e) × (rows (insert_links ls s).1 ≡ rows s))
        ⊎ ((insert_links ls s).0 ≡ ok tt) × (rows (insert_links ls s).1 ≡ rows s ++ ls)

-- Whether a permission is in a role.
unfoldable pub granted : List Link → ℕ → ℕ → Bool
granted [] r p = false
granted (l ∷ rows) r p = same_link r p l || granted rows r p

pub data Command : Type 0 where
  clear : ℕ → Command
  assign remove : ℕ → ℕ → Command
  bulk_assign : ℕ → List ℕ → Command

-- What each operation is to do with the relation.
abbrev pub meant : Command → (ℕ → ℕ → Bool) → ℕ → ℕ → Bool
meant (clear role) g r p = g r p && not (nat_eq role r)
meant (assign role permission) g r p = g r p || (nat_eq role r && nat_eq permission p)
meant (remove role permission) g r p = g r p && not (nat_eq role r && nat_eq permission p)
meant (bulk_assign role permissions) g r p = g r p || (nat_eq role r && holds_id permissions p)

abbrev pub meant_all : List Command → (ℕ → ℕ → Bool) → ℕ → ℕ → Bool
meant_all [] g = g
meant_all (c ∷ cs) g = meant_all cs (meant c g)

pub granted-append :
    (ls ms : List Link) (r p : ℕ) → granted (ls ++ ms) r p ≡ (granted ls r p || granted ms r p)
unfolding granted
granted-append [] ms r p = refl
granted-append (l ∷ ls) ms r p = ground (arith, granted-append ls ms r p)

pub granted-clear :
    (rows : List Link) (role r p : ℕ)
    → granted (keep (λ l. not (in_role role l)) rows) r p
      ≡ (granted rows r p && not (nat_eq role r))
unfolding granted
granted-clear [] role r p = refl
granted-clear (l ∷ rows) role r p = ground (
  arith,
  granted-clear rows role r p,
  nat_eq_iff l.role_id role,
  nat_eq_iff l.role_id r,
  nat_eq_iff role r,
)

pub granted-remove :
    (rows : List Link) (role permission r p : ℕ)
    → granted (keep (λ l. not (same_link role permission l)) rows) r p
      ≡ (granted rows r p && not (nat_eq role r && nat_eq permission p))
unfolding granted
granted-remove [] role permission r p = refl
granted-remove (l ∷ rows) role permission r p = ground (
  arith,
  granted-remove rows role permission r p,
  nat_eq_iff l.role_id role,
  nat_eq_iff l.role_id r,
  nat_eq_iff role r,
  nat_eq_iff l.permission_id permission,
  nat_eq_iff l.permission_id p,
  nat_eq_iff permission p,
)

-- A list of new associations of one role.
pub granted-links :
    (role : ℕ) (ps : List ℕ) (r p : ℕ)
    → granted (map (link role) ps) r p ≡ (nat_eq role r && holds_id ps p)
unfolding granted holds_id
granted-links role [] r p = ground arith
granted-links role (q ∷ ps) r p = ground (arith, granted-links role ps r p)

-- The ids that are found in a role are those that are granted.
pub holds_id-ids :
    (rows : List Link) (role p : ℕ)
    → holds_id (ids (keep (in_role role) rows)) p ≡ granted rows role p
unfolding granted holds_id
holds_id-ids [] role p = refl
holds_id-ids (l ∷ rows) role p = ground (arith, holds_id-ids rows role p)

-- What is missing and what is there are together what is given and what is there.
pub holds_id-missing :
    (existing ps : List ℕ) (p : ℕ)
    → (holds_id existing p || holds_id (keep (λ q. not (holds_id existing q)) ps) p)
      ≡ (holds_id existing p || holds_id ps p)
unfolding holds_id
holds_id-missing existing [] p = refl
holds_id-missing existing (q ∷ ps) p = elim (Bool-cases (nat_eq q p)) [
  | inl same ↦
      ground
        (arith, holds_id-missing existing ps p, ap (holds_id existing) ((nat_eq_iff q p).0 same))
  | inr other ↦ ground (arith, holds_id-missing existing ps p)
]

pub found-none :
    (rows : List Link) (role permission : ℕ)
    → first (keep (same_link role permission) rows) ≡ none
    → granted rows role permission ≡ false
unfolding granted
found-none [] role permission e = refl
found-none (l ∷ rows) role permission e = ground (arith, found-none rows role permission)

pub found-some :
    (rows : List Link) (role permission : ℕ) (l : Link)
    → first (keep (same_link role permission) rows) ≡ some l
    → granted rows role permission ≡ true
unfolding granted
found-some [] role permission l e = cc
found-some (m ∷ rows) role permission l e = ground (arith, found-some rows role permission l)

-- The ids that `bulk_assign_permissions_to_role` finds missing.
abbrev pub missing_in : List Link → ℕ → List ℕ → List ℕ
missing_in rows role ps = keep (λ q. not (holds_id (ids (keep (in_role role) rows)) q)) ps

-- What is granted already is not granted anew.
pub granted-again :
    (rows : List Link) (role permission r p : ℕ)
    → granted rows role permission ≡ true
    → granted rows r p ≡ (granted rows r p || (nat_eq role r && nat_eq permission p))
granted-again rows role permission r p h =
    elim (Bool-cases (nat_eq role r && nat_eq permission p)) [
      | inr other ↦ ground (arith, other)
      | inl same ↦ ground (
        arith,
        h,
        same,
        ap (λ q. granted rows q permission) ((nat_eq_iff role r).0 (ground arith)),
        ap (λ q. granted rows r q) ((nat_eq_iff permission p).0 (ground arith)),
      )
    ]

-- The ids that are missing in a role are as good as all that are given.
pub granted-missing :
    (rows : List Link) (role : ℕ) (ps : List ℕ) (r p : ℕ)
    → (granted rows r p || (nat_eq role r && holds_id (missing_in rows role ps) p))
      ≡ (granted rows r p || (nat_eq role r && holds_id ps p))
granted-missing rows role ps r p = elim (Bool-cases (nat_eq role r)) [
  | inr other ↦ ground (arith, other)
  | inl same ↦ ground (
    arith,
    same,
    ap (λ q. granted rows q p) ((nat_eq_iff role r).0 same),
    holds_id-ids rows role p,
    holds_id-missing (ids (keep (in_role role) rows)) ps p,
  )
]
