-- ===== src/Domain/Tenant/Lifecycle.antt =====
-- The life of a tenant as a state machine, and `can_transition_to` as its decision.
use clean_architecture_saas.Prelude.{
  ℕ, String, ◌≡◌, ◌≢◌, refl, sym, ◌∙◌, ◌↔◌, inl, inr, true, false, ◌||◌, List, [], ◌∷◌, arith,
  Bool-cases, nat_eq_iff,
}
use clean_architecture_saas.Python.Text.{codes}
use clean_architecture_saas.Domain.Tenant.{Tenant, same_codes, reads, can_transition_to}

pub data Status : Type 0 where
  active suspended canceled : Status

-- The words of the column `status`.
abbrev pub word : Status → String
word active = "active"
word suspended = "suspended"
word canceled = "canceled"

-- A text stands for a status if it is its word in any case.
abbrev pub Is : Status → String → Type 0
Is st s = reads s (word st) ≡ true

-- The transitions that the rules of the method list; a canceled tenant has none.
pub data Transition : Status → Status → Type 0 where
  suspend : Transition active suspended
  cancel : Transition active canceled
  reactivate : Transition suspended active
  cancel_suspended : Transition suspended canceled

-- What the code allows: a listed transition, or staying as it is, which the rules do not list.
pub data CanMove : Status → Status → Type 0 where
  listed : {source goal : Status} → Transition source goal → CanMove source goal
  stay_active : CanMove active active
  stay_suspended : CanMove suspended suspended

-- The tenant may move to the status that the target names.
pub data Move (t : Tenant) (target : String) : Type 0 where
  move :
      (source goal : Status)
      → Is source t.status
      → Is goal target
      → CanMove source goal
      → Move t target

same_codes_eq : (xs ys : List ℕ) → same_codes xs ys ≡ true → xs ≡ ys
unfolding same_codes
same_codes_eq [] [] h = refl
same_codes_eq [] (y ∷ ys) h = cc
same_codes_eq (x ∷ xs) [] h = cc
same_codes_eq (x ∷ xs) (y ∷ ys) h = ground (arith, same_codes_eq xs ys, nat_eq_iff x y)

active≢canceled : codes "active" ≢ codes "canceled"
active≢canceled e = ground arith

suspended≢canceled : codes "suspended" ≢ codes "canceled"
suspended≢canceled e = ground arith

suspended≢active : codes "suspended" ≢ codes "active"
suspended≢active e = ground arith

-- A text stands for one status at most.
reads_one : (s v w : String) → reads s v ≡ true → reads s w ≡ true → codes v ≡ codes w
unfolding reads
reads_one s v w h k = sym (same_codes_eq _ _ h) ∙ same_codes_eq _ _ k

-- A text that reads as one word does not read as another.
reads_ne : (s v w : String) → codes v ≢ codes w → reads s v ≡ true → reads s w ≡ false
reads_ne s v w apart h = elim (Bool-cases (reads s w)) [
  | inl both ↦ absurd (apart (reads_one s v w h both))
  | inr other ↦ other
]

module _ (t : Tenant) (target : String) where
  Move-from :
      (source : Status)
      → CanMove source suspended
      → CanMove source canceled
      → CanMove source active
      → Is source t.status
      → (reads target "suspended" || reads target "canceled" || reads target "active") ≡ true
      → Move t target
  Move-from source s c a from h = elim (Bool-cases (reads target "suspended")) [
    | inl to ↦ move source suspended from to s
    | inr n ↦ elim (Bool-cases (reads target "canceled")) [
      | inl to ↦ move source canceled from to c
      | inr k ↦ move source active from (ground arith) a
    ]
  ]

  Move-of_true : can_transition_to t target ≡ true → Move t target
  unfolding can_transition_to
  Move-of_true h = elim (Bool-cases (reads t.status "active")) [
    | inl here ↦ Move-from active (listed suspend) (listed cancel) stay_active here (ground arith)
    | inr other ↦
        Move-from suspended stay_suspended (listed cancel_suspended) (listed reactivate)
          (ground arith) (ground arith)
  ]

  true_of_Move : Move t target → can_transition_to t target ≡ true
  unfolding can_transition_to
  true_of_Move (move _ _ from to stay_active) =
      ground (arith, reads_ne t.status "active" "canceled" active≢canceled from)
  true_of_Move (move _ _ from to (listed suspend)) =
      ground (arith, reads_ne t.status "active" "canceled" active≢canceled from)
  true_of_Move (move _ _ from to (listed cancel)) =
      ground (arith, reads_ne t.status "active" "canceled" active≢canceled from)
  true_of_Move (move _ _ from to (listed reactivate)) = ground (
    arith,
    reads_ne t.status "suspended" "canceled" suspended≢canceled from,
    reads_ne t.status "suspended" "active" suspended≢active from,
  )
  true_of_Move (move _ _ from to (listed cancel_suspended)) = ground (
    arith,
    reads_ne t.status "suspended" "canceled" suspended≢canceled from,
    reads_ne t.status "suspended" "active" suspended≢active from,
  )
  true_of_Move (move _ _ from to stay_suspended) = ground (
    arith,
    reads_ne t.status "suspended" "canceled" suspended≢canceled from,
    reads_ne t.status "suspended" "active" suspended≢active from,
  )

  -- A transition is allowed exactly if the two texts read, in any case, as statuses between which
  -- the rules of the method list a transition, or both as active, or both as suspended; the last two
  -- are not in the rules.
  pub can_transition_to_iff : (can_transition_to t target ≡ true) ↔ Move t target
  can_transition_to_iff = (Move-of_true, true_of_Move)

-- A canceled tenant may move nowhere.
pub canceled_stuck :
    (t : Tenant) (target : String) → Is canceled t.status → can_transition_to t target ≡ false
unfolding can_transition_to
canceled_stuck t target h = ground arith
