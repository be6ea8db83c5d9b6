-- ===== src/Db/Session.antt =====
-- `get_db` of deps/injection.py: a request has one session of the database, which is closed at its end
-- without a commit. Of each table there are the rows that the session sees and those that are
-- committed; closing a session drops what is not committed.
use clean_architecture_saas.Prelude.{◌≡◌, ◌⊎◌, inl, inr, Bool, List, subst, sym}
use clean_architecture_saas.Python.Exec.{Exc, Exec, raised}
use clean_architecture_saas.Python.Preserves.{Preserves}
use clean_architecture_saas.Db.Table.{Table}

-- What is documented of the end of a session.
pub record Rollback {S V : Type 0} (seen durable : S → V) (close : S → S) : Type 0 where
  pub close_seen : (s : S) → seen (close s) ≡ durable s
  pub close_durable : (s : S) → durable (close s) ≡ durable s

-- A call that writes nothing to the table, and may commit the session.
abbrev pub Settles : {S V A : Type 0} → (S → V) → (S → V) → Exec S A → Type 0
Settles seen durable m =
    (s : _) → (seen (m s).1 ≡ seen s) × ((durable (m s).1 ≡ durable s) ⊎ (durable (m s).1 ≡ seen s))

-- What is documented of the statements of a session: they commit nothing, but for the commit, which
-- commits what the session sees or raises.
pub record Pending {S R : Type 0} (t : Table S R) (seen durable : S → List R) : Type 0 where
  pub add_durable : (r : R) (s : S) → durable (t.add r s).1 ≡ durable s
  pub update_durable : (p : R → Bool) (f : R → R) (s : S) → durable (t.update p f s).1 ≡ durable s
  pub commit_lem :
      (s : S)
      → ((e : Exc) × ((t.commit s).0 ≡ raised e) × (durable (t.commit s).1 ≡ durable s))
        ⊎ (durable (t.commit s).1 ≡ seen s)

-- The statements on a table next to the one that is seen.
pub record Aside {S R V : Type 0} (t : Table S R) (seen durable : S → V) : Type 0 where
  pub adds : (r : R) → Settles seen durable (t.add r)
  pub updates : (p : R → Bool) (f : R → R) → Settles seen durable (t.update p f)
  pub commits : Settles seen durable t.commit

module _ {S V : Type 0} (seen durable : S → V) (Q : V → Type 0) where
  -- A property of what the session sees and of what is committed.
  abbrev pub Throughout : S → Type 0
  Throughout s = Q (seen s) × Q (durable s)

  pub Throughout-close :
      (close : S → S) → Rollback seen durable close → (s : S) → Throughout s → Throughout (close s)
  Throughout-close close rollback s (p, q) =
      (subst Q (sym (rollback.close_seen s)) q, subst Q (sym (rollback.close_durable s)) q)

  pub Preserves-of_Settles :
      {A : Type 0} (m : Exec S A) → Settles seen durable m → Preserves Throughout m
  Preserves-of_Settles m settles s (p, q) = (
    subst Q (sym (settles s).0) p,
    elim (settles s).1 [ inl same ↦ subst Q (sym same) q | inr new ↦ subst Q (sym new) p ],
  )
