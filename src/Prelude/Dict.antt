-- ===== src/Prelude/Dict.antt =====
-- A Python dict, and a database table with a primary key, in insertion order.
use mathlib.Core.Path.{◌≡◌, refl, sym, subst}
use mathlib.Core.Logic.{inl, inr}
use mathlib.Core.Bool.{Bool, true, false}
use mathlib.Core.Option.{Option, none, some}
use mathlib.Core.List.{List, [], ◌∷◌, ◌++◌, map}
use native.Mathlib.Omega.{arith}
use glc_v.Prelude.Lists.{All, All-map}
use glc_v.Prelude.Tests.{if◌then◌else◌, Bool-cases}
use glc_v.Prelude.Equality.{Eq, ◌==◌, ==-refl, ℕ-Eq, String-Eq, ×-Eq, List-Eq}

abbrev pub Dict {ℓ κ} : Type ℓ → Type κ → Type (ℓ ⊔ κ)
Dict K V = List (K × V)

module _ {ℓ κ} {K : Type ℓ} {V : Type κ} ⦃e : Eq K⦄ where
  -- `d.get(k)`
  unfoldable pub lookup : K → Dict K V → Option V
  lookup k [] = none
  lookup k ((j, v) ∷ d) = if j == k then some v else lookup k d

  -- `d[k] = v`: a present key keeps its place
  unfoldable pub insert : K → V → Dict K V → Dict K V
  insert k v [] = (k, v) ∷ []
  insert k v ((j, w) ∷ d) = if j == k then (j, v) ∷ d else (j, w) ∷ insert k v d

  -- `del d[k]`, for every entry of the key
  unfoldable pub erase : K → Dict K V → Dict K V
  erase k [] = []
  erase k ((j, w) ∷ d) = let rest = erase k d in if j == k then rest else (j, w) ∷ rest

  -- `k in d`
  unfoldable pub contains : K → Dict K V → Bool
  contains k d = elim (lookup k d) [ none ↦ false | some _ ↦ true ]

  pub lookup-insert :
      (k j : K) (v : V) (d : Dict K V)
      → lookup j (insert k v d) ≡ (if k == j then some v else lookup j d)
  unfolding lookup insert
  lookup-insert k j v [] = refl
  lookup-insert k j v ((i, w) ∷ d) =
      ground (arith, e.eqb_iff k j, e.eqb_iff i k, e.eqb_iff i j, lookup-insert k j v d)

  pub lookup-erase :
      (k j : K) (d : Dict K V) → lookup j (erase k d) ≡ (if k == j then none else lookup j d)
  unfolding lookup erase
  lookup-erase k j [] = ground arith
  lookup-erase k j ((i, w) ∷ d) =
      ground (arith, e.eqb_iff k j, e.eqb_iff i k, e.eqb_iff i j, lookup-erase k j d)

  pub lookup-insert_self : (k : K) (v : V) (d : Dict K V) → lookup k (insert k v d) ≡ some v
  lookup-insert_self k v d = simp (lookup-insert, ==-refl)

  -- `INSERT OR REPLACE`: the old row of the key goes, and the new one stands last.
  unfoldable pub replace : K → V → Dict K V → Dict K V
  unfolding erase
  replace k v d = erase k d ++ (k, v) ∷ []

  pub lookup-append :
      (j : K) (d c : Dict K V)
      → lookup j (d ++ c) ≡ elim (lookup j d) [ none ↦ lookup j c | some v ↦ some v ]
  unfolding lookup
  lookup-append j [] c = refl
  lookup-append j ((i, w) ∷ d) c = ground (arith, lookup-append j d c)

  pub lookup-replace :
      (k j : K) (v : V) (d : Dict K V)
      → lookup j (replace k v d) ≡ (if k == j then some v else lookup j d)
  unfolding replace lookup
  lookup-replace k j v d =
      ground (arith, lookup-append j (erase k d) ((k, v) ∷ []), lookup-erase k j d)

  pub lookup-replace_self : (k : K) (v : V) (d : Dict K V) → lookup k (replace k v d) ≡ some v
  lookup-replace_self k v d = simp (lookup-replace, ==-refl)

  pub lookup-erase_self : (k : K) (d : Dict K V) → lookup k (erase k d) ≡ none
  lookup-erase_self k d = simp (lookup-erase, ==-refl)

pub ruleset dict_laws = (lookup-insert, lookup-erase, lookup-insert_self, lookup-replace)

module _ {ℓ κ} {K : Type ℓ} {V : Type κ} ⦃e : Eq K⦄ where
  -- No key stands twice: what a Python dict and a primary key promise.
  abbrev pub DistinctKeys : Dict K V → Type κ
  DistinctKeys [] = Unit
  DistinctKeys ((k, v) ∷ d) = (lookup k d ≡ none) × DistinctKeys d

  pub insert-DistinctKeys :
      (k : K) (v : V) (d : Dict K V) → DistinctKeys d → DistinctKeys (insert k v d)
  unfolding insert lookup
  insert-DistinctKeys k v [] h = (refl, tt)
  insert-DistinctKeys k v ((j, w) ∷ d) h =
      ground
        (arith, insert-DistinctKeys k v d h.1, lookup-insert k j v d, e.eqb_iff j k, e.eqb_iff k j)

module _ {ℓ κ μ} {K : Type ℓ} {V : Type κ} ⦃e : Eq K⦄ (P : K × V → Type μ) where
  pub lookup-All : (k : K) (v : V) (d : Dict K V) → All P d → lookup k d ≡ some v → P (k, v)
  unfolding lookup
  lookup-All k v [] h found = absurd (ground (arith, found))
  lookup-All k v ((j, w) ∷ d) h found = elim (Bool-cases (j == k)) [
    | inl y ↦
        let same : w ≡ v = ground (arith, found, y) in
        subst (λ x. P (k, x)) same (subst (λ i. P (i, w)) ((e.eqb_iff j k).0 y) h.0)
    | inr n ↦ lookup-All k v d h.1 (ground (arith, found, n))
  ]

  pub insert-All : (k : K) (v : V) (d : Dict K V) → All P d → P (k, v) → All P (insert k v d)
  unfolding insert
  insert-All k v [] h p = (p, tt)
  insert-All k v ((j, w) ∷ d) h p = elim (Bool-cases (j == k)) [
    | inl y ↦ rw (y, insert) (subst (λ i. P (i, v)) (sym ((e.eqb_iff j k).0 y)) p, h.1)
    | inr n ↦ rw (n, insert) (h.0, insert-All k v d h.1 p)
  ]

module _ {ℓ κ} {K : Type ℓ} {V : Type κ} ⦃e : Eq K⦄ where
  contains-tail :
      (k j : K) (v : V) (d : Dict K V) → contains j d ≡ true → contains j ((k, v) ∷ d) ≡ true
  unfolding contains lookup
  contains-tail k j v d there = ground (arith, there)

  -- Each key of the dictionary is in it.
  pub keys-contains : (d : Dict K V) → All (λ k. contains k d ≡ true) (map (λ e. e.0) d)
  unfolding contains lookup
  keys-contains [] = tt
  keys-contains ((k, v) ∷ d) = (
    ground (arith, ==-refl k),
    All-map (λ j. contains j d ≡ true) (λ j. contains j ((k, v) ∷ d) ≡ true) (map (λ e. e.0) d)
        (λ j. contains-tail k j v d) (keys-contains d),
  )
