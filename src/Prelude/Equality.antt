-- ===== src/Prelude/Equality.antt =====
-- Decidable equality of keys as an interface: a Boolean test that decides `≡`.
use Prim.Native.Nat.{ℕ}
use Prim.Native.String.{String}
use mathlib.Core.Path.{◌≡◌, refl}
use mathlib.Core.Logic.{◌↔◌}
use mathlib.Core.Bool.{Bool, true, false, ◌&&◌}
use mathlib.Core.List.{List, [], ◌∷◌}
use native.Mathlib.Omega.{arith}
use text.Mathlib.Text.{◌==◌ as string_eq}
use text.Mathlib.TextEquality.{eq_iff}
use glc_v.Prelude.Tests.{nat_eq, nat_eq_iff}

-- A test, and what it decides.
pub record Eq {ℓ} (K : Type ℓ) : Type ℓ where
  pub eqb : K → K → Bool
  pub eqb_iff : (j k : K) → (eqb j k ≡ true) ↔ (j ≡ k)

module _ {ℓ} {K : Type ℓ} ⦃e : Eq K⦄ where
  infix 50 ◌==◌
  -- `j == k`
  abbrev pub ◌==◌ : K → K → Bool
  j == k = e.eqb j k

pub ==-refl {ℓ} : {A : Type ℓ} ⦃e : Eq A⦄ (a : A) → (a == a) ≡ true
==-refl ⦃e⦄ a = (e.eqb_iff a a).1 refl

instance abbrev pub ℕ-Eq : Eq ℕ
ℕ-Eq = record { eqb = nat_eq; eqb_iff = nat_eq_iff }

instance abbrev pub String-Eq : Eq String
String-Eq = record { eqb = string_eq; eqb_iff = eq_iff }

module _ {ℓ κ} {A : Type ℓ} {B : Type κ} ⦃e : Eq A⦄ ⦃f : Eq B⦄ where
  abbrev pub pair_eq : A × B → A × B → Bool
  pair_eq (a, b) (c, d) = e.eqb a c && f.eqb b d

  pub pair_eq_iff : (p q : A × B) → (pair_eq p q ≡ true) ↔ (p ≡ q)
  pair_eq_iff (a, b) (c, d) = ground (arith, e.eqb_iff a c, f.eqb_iff b d)

  instance abbrev pub ×-Eq : Eq (A × B)
  ×-Eq = record { eqb = pair_eq; eqb_iff = pair_eq_iff }

module _ {ℓ} {A : Type ℓ} ⦃e : Eq A⦄ where
  abbrev pub list_eq : List A → List A → Bool
  list_eq [] [] = true
  list_eq (a ∷ xs) (b ∷ ys) = e.eqb a b && list_eq xs ys
  list_eq _ _ = false

  pub list_eq_iff : (xs ys : List A) → (list_eq xs ys ≡ true) ↔ (xs ≡ ys)
  list_eq_iff [] [] = ground arith
  list_eq_iff [] (b ∷ ys) = ground arith
  list_eq_iff (a ∷ xs) [] = ground arith
  list_eq_iff (a ∷ xs) (b ∷ ys) = ground (arith, e.eqb_iff a b, list_eq_iff xs ys)

  instance abbrev pub List-Eq : Eq (List A)
  List-Eq = record { eqb = list_eq; eqb_iff = list_eq_iff }
