-- ===== src/Prelude/Unique.antt =====
-- Lists in which no item stands twice, and the test `x in xs`.
use mathlib.Core.Path.{◌≡◌}
use mathlib.Core.Logic.{◌≢◌, inl, inr}
use mathlib.Core.Bool.{Bool, true, false}
use mathlib.Core.List.{List, [], ◌∷◌, ◌++◌}
use native.Mathlib.Omega.{arith}
use glc_v.Prelude.Tests.{Bool-cases}
use glc_v.Prelude.Lists.{keep, any, All, All-append, All-map}
use glc_v.Prelude.Equality.{Eq, ◌==◌, ℕ-Eq, String-Eq, ×-Eq, List-Eq}

-- No item stands twice in the list.
abbrev pub Distinct {ℓ} : {A : Type ℓ} → List A → Type ℓ
Distinct [] = Unit
Distinct (x ∷ xs) = All (λ y. x ≢ y) xs × Distinct xs

module _ {ℓ} {A : Type ℓ} where
  pub snoc-Distinct :
      (out : List A) (x : A) → Distinct out → All (λ y. y ≢ x) out → Distinct (out ++ x ∷ [])
  snoc-Distinct [] x d h = (tt, tt)
  snoc-Distinct (y ∷ out) x (ne, d) (ny, h) =
      (All-append (λ z. y ≢ z) out (x ∷ []) ne (ny, tt), snoc-Distinct out x d h)

module _ {ℓ} {A : Type ℓ} ⦃e : Eq A⦄ where
  -- `x in xs`
  abbrev pub member : A → List A → Bool
  member x xs = any (λ y. y == x) xs

  pub absent-ne : (x : A) (out : List A) → member x out ≡ false → All (λ y. y ≢ x) out
  absent-ne x [] h = tt
  absent-ne x (y ∷ out) h =
      ((λ same. absurd (ground (arith, e.eqb_iff y x))), absent-ne x out (ground arith))

module _ {ℓ κ} {A : Type ℓ} (P : A → Type κ) (q : A → Bool) where
  pub keep-All : (xs : List A) → All P xs → All P (keep q xs)
  keep-All [] h = tt
  keep-All (x ∷ xs) h = elim (Bool-cases (q x)) [
    | inl e ↦ rw e (h.0, keep-All xs h.1)
    | inr e ↦ rw e (keep-All xs h.1)
  ]

module _ {ℓ} {A : Type ℓ} (q : A → Bool) where
  pub keep_passes : (xs : List A) → All (λ x. q x ≡ true) (keep q xs)
  keep_passes [] = tt
  keep_passes (x ∷ xs) = elim (Bool-cases (q x)) [
    | inl e ↦ rw e (e, keep_passes xs)
    | inr e ↦ rw e (keep_passes xs)
  ]

  pub keep-Distinct : (xs : List A) → Distinct xs → Distinct (keep q xs)
  keep-Distinct [] d = tt
  keep-Distinct (x ∷ xs) (ne, d) = elim (Bool-cases (q x)) [
    | inl e ↦ rw e (keep-All (λ y. x ≢ y) q xs ne, keep-Distinct xs d)
    | inr e ↦ rw e (keep-Distinct xs d)
  ]

module _ {ℓ} {A : Type ℓ} where
  pub append-Distinct :
      (xs ys : List A)
      → Distinct xs
      → Distinct ys
      → All (λ y. All (λ x. x ≢ y) xs) ys
      → Distinct (xs ++ ys)
  append-Distinct [] ys d c h = c
  append-Distinct (x ∷ xs) ys (ne, d) c h = (
    All-append (λ y. x ≢ y) xs ys ne
        (All-map (λ y. All (λ z. z ≢ y) (x ∷ xs)) (λ y. x ≢ y) ys (λ y k. k.0) h),
    append-Distinct xs ys d c
        (All-map (λ y. All (λ z. z ≢ y) (x ∷ xs)) (λ y. All (λ z. z ≢ y) xs) ys (λ y k. k.1) h),
  )
