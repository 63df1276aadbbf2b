-- ===== src/Economics/Budget/Resolution.antt =====
-- Which policy governs a principal's part, and how the runtime table overrides the file.
use glc_v.Text.{Text}
use mathlib.Core.Path.{subst}
use glc_v.Prelude.{
  ◌≡◌, refl, sym, ◌⊎◌, inl, inr, Bool, true, false, none, some, List, [], ◌∷◌, arith, Bool-cases,
  keep, All, ℕ-Eq, String-Eq, ×-Eq, List-Eq,
}
use glc_v.Economics.Ledger.{Dimension, Dimension-Eq}
use glc_v.Economics.Budget.{
  BudgetPolicy, matches, more_specific, most_specific, best_of, policy_for,
}

not_more_specific_refl : (p : BudgetPolicy) → more_specific p p ≡ false
unfolding more_specific
not_more_specific_refl p = ground arith

not_more_specific_trans :
    (p q r : BudgetPolicy)
    → more_specific q p ≡ false
    → more_specific r q ≡ false
    → more_specific r p ≡ false
unfolding more_specific
not_more_specific_trans p q r a b = ground arith

more_specific_asymm : (p q : BudgetPolicy) → more_specific p q ≡ true → more_specific q p ≡ false
unfolding more_specific
more_specific_asymm p q a = ground arith

most_specific-take :
    (p best : BudgetPolicy) (ps : List BudgetPolicy)
    → more_specific p best ≡ true
    → most_specific best (p ∷ ps) ≡ most_specific p ps
unfolding most_specific
most_specific-take p best ps x = rw x refl

most_specific-skip :
    (p best : BudgetPolicy) (ps : List BudgetPolicy)
    → more_specific p best ≡ false
    → most_specific best (p ∷ ps) ≡ most_specific best ps
unfolding most_specific
most_specific-skip p best ps x = rw x refl

-- Nothing in the list is more specific than the choice.
abbrev IsChoice : BudgetPolicy → List BudgetPolicy → BudgetPolicy → Type 0
IsChoice best ps m = (more_specific best m ≡ false) × All (λ q. more_specific q m ≡ false) ps

most_specific-IsChoice :
    (best : BudgetPolicy) (ps : List BudgetPolicy) → IsChoice best ps (most_specific best ps)
most_specific-IsChoice best [] = unfold most_specific in (not_more_specific_refl best, tt)
most_specific-IsChoice best (p ∷ ps) = elim (Bool-cases (more_specific p best)) [
  | inl x ↦
      let (first, all) = most_specific-IsChoice p ps in
      subst (IsChoice best (p ∷ ps)) (sym (most_specific-take p best ps x)) (
        not_more_specific_trans (most_specific p ps) p best first (more_specific_asymm p best x),
        (first, all),
      )
  | inr x ↦
      let (first, all) = most_specific-IsChoice best ps in
      subst (IsChoice best (p ∷ ps)) (sym (most_specific-skip p best ps x))
        (first, (not_more_specific_trans (most_specific best ps) best p first x, all))
]

-- What holds of all of a list and of the first candidate holds of the choice.
most_specific-All {ℓ} :
    (P : BudgetPolicy → Type ℓ) (best : BudgetPolicy) (ps : List BudgetPolicy)
    → P best
    → All P ps
    → P (most_specific best ps)
unfolding most_specific
most_specific-All P best [] h k = h
most_specific-All P best (p ∷ ps) h k = elim (Bool-cases (more_specific p best)) [
  | inl x ↦ rw x (most_specific-All P p ps k.0 k.1)
  | inr x ↦ rw x (most_specific-All P best ps h k.1)
]

module _ {ℓ} {A : Type ℓ} (f : A → Bool) where
  keep-All : (xs : List A) → All (λ x. f x ≡ true) (keep f xs)
  keep-All [] = tt
  keep-All (x ∷ xs) = elim (Bool-cases (f x)) [
    | inl y ↦ rw y (y, keep-All xs)
    | inr y ↦ rw y (keep-All xs)
  ]

  keep-take : (x : A) (xs : List A) → f x ≡ true → keep f (x ∷ xs) ≡ x ∷ keep f xs
  keep-take x xs y = rw y refl

  keep-skip : (x : A) (xs : List A) → f x ≡ false → keep f (x ∷ xs) ≡ keep f xs
  keep-skip x xs y = rw y refl

  All-keep {κ} : (P : A → Type κ) (xs : List A) → All P (keep f xs) → All (λ x. f x ≡ true → P x) xs
  All-keep P [] h = tt
  All-keep P (x ∷ xs) h = elim (Bool-cases (f x)) [
    | inl y ↦
        let h' : All P (x ∷ keep f xs) = subst (All P) (keep-take x xs y) h in
        (λ _. h'.0, All-keep P xs h'.1)
    | inr y ↦ (λ z. absurd (ground arith), All-keep P xs (subst (All P) (keep-skip x xs y) h))
  ]

module _ (d : Dimension) (value : Text) where
  -- `p` governs the part: it matches, and no policy that matches is more specific.
  abbrev pub Governs : List BudgetPolicy → BudgetPolicy → Type 0
  Governs ps p =
      (matches p d value ≡ true)
      × All (λ q. matches q d value ≡ true → more_specific q p ≡ false) ps

  from_matching :
      (ps matching : List BudgetPolicy)
      → keep (λ p. matches p d value) ps ≡ matching
      → ((best_of matching ≡ none) × All (λ q. ¬ (matches q d value ≡ true)) ps)
        ⊎ ((p : BudgetPolicy) × (best_of matching ≡ some p) × Governs ps p)
  from_matching ps [] e =
      inl (refl, All-keep (λ p. matches p d value) (λ q. ⊥) ps (subst (All (λ q. ⊥)) (sym e) tt))
  from_matching ps (p ∷ qs) e =
      let fits : All (λ q. matches q d value ≡ true) (p ∷ qs) =
        subst (All (λ q. matches q d value ≡ true)) e (keep-All (λ q. matches q d value) ps) in
      let best = most_specific p qs in
      inr (
        best,
        refl,
        (
          most_specific-All (λ q. matches q d value ≡ true) p qs fits.0 fits.1,
          All-keep (λ q. matches q d value) (λ q. more_specific q best ≡ false) ps
              (subst (All (λ q. more_specific q best ≡ false)) (sym e)
                (most_specific-IsChoice p qs)),
        ),
      )

  -- A part of a principal has no governing policy only if none matches it; otherwise the governing
  -- policy is one that matches, and no policy that matches is more specific.
  pub policy_for-Governs :
      (ps : List BudgetPolicy)
      → ((policy_for ps d value ≡ none) × All (λ q. ¬ (matches q d value ≡ true)) ps)
        ⊎ ((p : BudgetPolicy) × (policy_for ps d value ≡ some p) × Governs ps p)
  unfolding policy_for
  policy_for-Governs ps = from_matching ps (keep (λ p. matches p d value) ps) refl
