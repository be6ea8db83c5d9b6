-- ===== src/Permissions/Repository/Refines.antt =====
-- The four changes of a role do to the table of associations what they are to do with the relation.
use mathlib.Core.Path.{fun_ext}
use clean_architecture_saas.Prelude.{
  ℕ, ◌≡◌, ◌⊎◌, refl, sym, ◌∙◌, ap, false, ◌&&◌, ◌||◌, List, [], ◌∷◌, ◌++◌, map, keep, first, arith,
  nat_eq, inl, inr, Option-cases,
}
use clean_architecture_saas.Python.Exec.{Exc, Exec, Result, ok, raised, pure, ◌>>◌}
use clean_architecture_saas.Domain.User.{User}
use clean_architecture_saas.Db.Table.{Table, Documented}
use clean_architecture_saas.Permissions.Repository.{
  Named, Link, link, in_role, same_link, holds_id, insert_missing, clear_role_permissions,
  assign_permission_to_role, bulk_assign_permissions_to_role, remove_permission_from_role,
}
use clean_architecture_saas.Permissions.Repository.Sets.{
  InsertsLinks, granted, Command, clear, assign, remove, bulk_assign, meant, meant_all,
  granted-append, granted-clear, granted-remove, granted-links, found-some, granted-again,
  granted-missing, missing_in,
}

holds_one : (q p : ℕ) → holds_id (q ∷ []) p ≡ nat_eq q p
unfolding holds_id
holds_one q p = ground arith

holds_none : (p : ℕ) → holds_id [] p ≡ false
unfolding holds_id
holds_none p = refl

module _ {S : Type 0} (roles permissions : Table S Named) (links : Table S Link)
    (insert_links : List Link → Exec S (Unit {0})) (users : Table S User) (rows : S → List Link)
    (documented : Documented links rows) (inserts : InsertsLinks insert_links rows) where
  abbrev pub perform : Command → Exec S (Unit {0})
  perform (clear role) = clear_role_permissions roles permissions links insert_links users role
  perform (assign role permission) =
      assign_permission_to_role roles permissions links insert_links users role permission
  perform (remove role permission) =
      remove_permission_from_role roles permissions links insert_links users role permission
  perform (bulk_assign role ps) =
      bulk_assign_permissions_to_role roles permissions links insert_links users role ps

  -- Either it is done, or it raises and nothing is changed.
  abbrev pub Does : Command → Result (Unit {0}) → S → S → Type 0
  Does c out s t =
      ((e : Exc) × (out ≡ raised e) × (rows t ≡ rows s))
      ⊎ (out ≡ ok tt) × ((r p : ℕ) → granted (rows t) r p ≡ meant c (granted (rows s)) r p)

  clear_lem : (role : ℕ) (s : S) → let m = perform (clear role) s in Does (clear role) m.0 s m.1
  unfolding clear_role_permissions
  clear_lem role s = inr (
    ground (arith, documented.delete_ok (in_role role) s),
    λ r p. ground (
      arith,
      documented.delete_ok (in_role role) s,
      documented.delete_rows (in_role role) s,
      granted-clear (rows s) role r p,
    ),
  )

  remove_lem :
      (role permission : ℕ) (s : S)
      → let m = perform (remove role permission) s in Does (remove role permission) m.0 s m.1
  unfolding remove_permission_from_role
  remove_lem role permission s = inr (
    ground (arith, documented.delete_ok (same_link role permission) s),
    λ r p. ground (
      arith,
      documented.delete_ok (same_link role permission) s,
      documented.delete_rows (same_link role permission) s,
      granted-remove (rows s) role permission r p,
    ),
  )

  inserted :
      (c : Command) (ls : List Link) (s : S)
      → ((r p : ℕ) → granted (rows s ++ ls) r p ≡ meant c (granted (rows s)) r p)
      → let m = insert_links ls s in Does c m.0 s m.1
  inserted c ls s h = elim (inserts.insert_lem ls s) [
    | inl refused ↦ inl refused
    | inr (done, added) ↦ inr (done, λ r p. rw added (h r p))
  ]

  assign_lem :
      (role permission : ℕ) (s : S)
      → let m = perform (assign role permission) s in Does (assign role permission) m.0 s m.1
  unfolding assign_permission_to_role
  assign_lem role permission s =
      let found = documented.select_lem (same_link role permission) s in
      elim (Option-cases (first (keep (same_link role permission) (rows s)))) [
        | inr (l, there) ↦
            let same : perform (assign role permission) s ≡ (ok tt, s) =
              ground (arith, found, there) in
            rw same (
              inr (
                refl,
                λ r p.
                    granted-again (rows s) role permission r p
                      (found-some (rows s) role permission l there),
              ))
        | inl gone ↦
            let ls = link role permission ∷ [] in
            let same : perform (assign role permission) s ≡ insert_links ls s =
              ground (arith, found, gone) in
            rw same (
              inserted (assign role permission) ls s (λ r p. ground (
                arith,
                granted-append (rows s) ls r p,
                granted-links role (permission ∷ []) r p,
                holds_one permission p,
              )))
      ]

  -- The statement for what is missing, also where that is nothing.
  missing_lem :
      (role : ℕ) (ps m : List ℕ) (s : S)
      → missing_in (rows s) role ps ≡ m
      → let out = insert_missing roles permissions links insert_links users role m s in
        Does (bulk_assign role ps) out.0 s out.1
  missing_lem role ps [] s e = inr (
    refl,
    λ r p. ground (
      arith,
      granted-missing (rows s) role ps r p,
      ap (λ m. granted (rows s) r p || (nat_eq role r && holds_id m p)) e,
      holds_none p,
    ),
  )
  missing_lem role ps (q ∷ qs) s e =
      inserted (bulk_assign role ps) (map (link role) (q ∷ qs)) s (λ r p. ground (
        arith,
        granted-append (rows s) (map (link role) (q ∷ qs)) r p,
        granted-links role (q ∷ qs) r p,
        granted-missing (rows s) role ps r p,
        ap (λ m. granted (rows s) r p || (nat_eq role r && holds_id m p)) e,
      ))

  bulk_lem :
      (role : ℕ) (ps : List ℕ) (s : S)
      → let m = perform (bulk_assign role ps) s in Does (bulk_assign role ps) m.0 s m.1
  unfolding bulk_assign_permissions_to_role
  bulk_lem role [] s = inr (refl, λ r p. ground (arith, holds_none p))
  bulk_lem role (q ∷ qs) s =
      let same : perform (bulk_assign role (q ∷ qs)) s
          ≡ insert_missing roles permissions links insert_links users role
              (missing_in (rows s) role (q ∷ qs)) s =
        ground (arith, documented.select_lem (in_role role) s) in
      rw same (missing_lem role (q ∷ qs) (missing_in (rows s) role (q ∷ qs)) s refl)

  pub does : (c : Command) (s : S) → let m = perform c s in Does c m.0 s m.1
  does (clear role) s = clear_lem role s
  does (assign role permission) s = assign_lem role permission s
  does (remove role permission) s = remove_lem role permission s
  does (bulk_assign role ps) s = bulk_lem role ps s

  abbrev pub perform_all : List Command → Exec S (Unit {0})
  perform_all [] = pure tt
  perform_all (c ∷ cs) = do perform c; perform_all cs

  -- Over documented tables, for any sequence of clearings, assignments, bulk assignments and removals
  -- that succeeds: who has which permission is what the operations mean on the relation, whatever the
  -- order and the repetition of the rows and of the ids that are given.
  pub performs_meant :
      (cs : List Command) (s : S)
      → (perform_all cs s).0 ≡ ok tt
      → granted (rows (perform_all cs s).1) ≡ meant_all cs (granted (rows s))
  performs_meant [] s h = refl
  performs_meant (c ∷ cs) s h =
      let t = (perform c s).1 in
      elim (does c s) [
        | inl (e, refused, kept) ↦ absurd (ground (arith, refused))
        | inr (done, all) ↦
            let same : perform_all (c ∷ cs) s ≡ perform_all cs t = ground (arith, done) in
            let step : granted (rows t) ≡ meant c (granted (rows s)) =
              fun_ext λ r. fun_ext λ p. all r p in
            ap (λ m. granted (rows m.1)) same
            ∙ performs_meant cs t (ap (λ m. m.0) (sym same) ∙ h)
            ∙ ap (meant_all cs) step
      ]
