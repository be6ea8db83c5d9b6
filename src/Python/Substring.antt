-- ===== src/Python/Substring.antt =====
-- `needle in haystack` on text.
use clean_architecture_saas.Prelude.{
  ℕ, String, ◌≡◌, refl, ap, subst, Bool, true, false, ◌&&◌, ◌||◌, List, [], ◌∷◌, ◌++◌, arith,
  nat_eq, nat_eq_iff, ◌↔◌, Bool-cases, inl, inr,
}
use clean_architecture_saas.Python.Text.{codes}

unfoldable pub starts : List ℕ → List ℕ → Bool
starts [] ys = true
starts (x ∷ xs) [] = false
starts (x ∷ xs) (y ∷ ys) = nat_eq x y && starts xs ys

unfoldable pub occurs : List ℕ → List ℕ → Bool
occurs xs [] = starts xs []
occurs xs (y ∷ ys) = starts xs (y ∷ ys) || occurs xs ys

unfoldable pub contains : String → String → Bool
unfolding starts occurs
contains needle haystack = occurs (codes needle) (codes haystack)

starts_sound : (xs ys : List ℕ) → starts xs ys ≡ true → (rest : List ℕ) × (xs ++ rest ≡ ys)
unfolding starts
starts_sound [] ys h = (ys, refl)
starts_sound (x ∷ xs) [] h = cc
starts_sound (x ∷ xs) (y ∷ ys) h =
    let (rest, e) = starts_sound xs ys (ground arith) in (rest, ground (arith, e, nat_eq_iff x y))

occurs_sound :
    (xs ys : List ℕ)
    → occurs xs ys ≡ true
    → (before : List ℕ) × (after : List ℕ) × (before ++ xs ++ after ≡ ys)
unfolding occurs
occurs_sound xs [] h = let (rest, e) = starts_sound xs [] h in ([], rest, e)
occurs_sound xs (y ∷ ys) h = elim (Bool-cases (starts xs (y ∷ ys))) [
  | inl here ↦ let (rest, e) = starts_sound xs (y ∷ ys) here in ([], rest, e)
  | inr later ↦
      let (before, after, e) = occurs_sound xs ys (ground arith) in
      (y ∷ before, after, ap (λ zs. y ∷ zs) e)
]

starts_append : (xs rest : List ℕ) → starts xs (xs ++ rest) ≡ true
unfolding starts
starts_append [] rest = refl
starts_append (x ∷ xs) rest = ground (arith, starts_append xs rest)

occurs_complete : (before xs after : List ℕ) → occurs xs (before ++ xs ++ after) ≡ true
unfolding occurs starts
occurs_complete [] [] [] = refl
occurs_complete [] [] (a ∷ after) = refl
occurs_complete [] (x ∷ xs) after = ground (arith, starts_append (x ∷ xs) after)
occurs_complete (b ∷ before) xs after = ground (arith, occurs_complete before xs after)

-- A text is contained exactly if the other one is it between two texts.
pub contains_iff :
    (needle haystack : String)
    → (contains needle haystack ≡ true)
      ↔ ((before : List ℕ) × (after : List ℕ) × (before ++ codes needle ++ after ≡ codes haystack))
unfolding contains
contains_iff needle haystack = (
  occurs_sound (codes needle) (codes haystack),
  λ (before, after, e).
      subst (λ cs. occurs (codes needle) cs ≡ true) e (occurs_complete before (codes needle) after),
)
