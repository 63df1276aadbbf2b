-- ===== src/Prelude/Floats.antt =====
-- The floating-point numbers of the host, and the laws of their order that every IEEE number keeps: a
-- comparison with a NaN is false, so that each law says "not less".
use Prim.Native.Nat.{ℕ, ◌≤◌}
use mathlib.Core.Path.{◌≡◌}
use mathlib.Core.Bool.{Bool, true, false}

-- Floating-point arithmetic; `ratio a b` is the constant a / b.
pub record Floats (N : Type 0) : Type 0 where
  pub add : N → N → N
  pub sub : N → N → N
  pub mul : N → N → N
  pub div : N → N → N
  pub less : N → N → Bool
  pub is_zero : N → Bool
  pub ratio : ℕ → ℕ → N

module _ {N : Type 0} (f : Floats N) where
  abbrev pub zero_of : N
  zero_of = f.ratio 0 1

  abbrev pub one_of : N
  one_of = f.ratio 1 1

  -- `b` is not below `a`.
  abbrev pub NotBelow : N → N → Type 0
  NotBelow a b = f.less b a ≡ false

  pub record IsMonotone : Type 0 where
    pub not_below_self : (a : N) → NotBelow a a
    pub add_mono : (a b c d : N) → NotBelow a b → NotBelow c d → NotBelow (f.add a c) (f.add b d)
    pub mul_mono :
        (a b r : N) → NotBelow a b → NotBelow zero_of r → NotBelow (f.mul a r) (f.mul b r)
    pub ratio_mono : (m n d : ℕ) → 1 ≤ d → m ≤ n → NotBelow (f.ratio m d) (f.ratio n d)
    pub ratio_nonneg : (n d : ℕ) → NotBelow zero_of (f.ratio n d)
    pub add_nonneg :
        (a b : N) → NotBelow zero_of a → NotBelow zero_of b → NotBelow zero_of (f.add a b)
    pub mul_nonneg :
        (a b : N) → NotBelow zero_of a → NotBelow zero_of b → NotBelow zero_of (f.mul a b)
    pub less_above : (a b c : N) → NotBelow a b → f.less b c ≡ true → NotBelow a c
    -- A factor of one or more.
    pub scale_up :
        (a b s : N) → NotBelow a b → NotBelow zero_of b → NotBelow one_of s → NotBelow a (f.mul b s)
