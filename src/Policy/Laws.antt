-- ===== src/Policy/Laws.antt =====
-- What the engine's verdicts promise to an operator.
use mathlib.Core.Path.{subst}
use glc_v.Prelude.Value.{
  Value, Fields, get_value, value_get, null, boolean, int, text, array, object, field,
}
use glc_v.Policy.Matchers.{matches_glob, matches_key, matches_condition}
use glc_v.Prelude.{
  ℕ, zero, suc, ◌+◌, String, ◌≡◌, refl, ap, ◌≢◌, inl, inr, Bool, true, false, some, List, [], ◌∷◌,
  arith, any, All, get_elem?, ℕ-Eq, String-Eq, ×-Eq, List-Eq, Result, ok-injective, Result-cases,
  type_error, ok, raise,
}
use glc_v.Policy.Text.{Host, strip_suffix}
use glc_v.Policy.{PolicyRule, Call, addresses, fail_closed, is_deny, condition_ok, applies, deny}
use glc_v.Policy.Spec.{Hit, applicable}

abbrev pub denies : List Hit → Bool
denies = any (λ h. is_deny h.1.action)

glob_type_error :
    (host : Host) (value pattern : Value)
    → ((s : String) → value ≢ text s)
    → matches_glob host value pattern ≡ raise type_error
unfolding matches_glob
glob_type_error host (text s) pattern n = absurd (n s refl)
glob_type_error host null pattern n = refl
glob_type_error host (boolean b) pattern n = refl
glob_type_error host (int m) pattern n = refl
glob_type_error host (array xs) pattern n = refl
glob_type_error host (object fs) pattern n = refl

module _ (host : Host) (call : Call) where
  -- Rule `j` of the list is `r`, and applies to the call.
  abbrev pub AppliesAt : List PolicyRule → ℕ → PolicyRule → Type 0
  AppliesAt rules j r = (get_elem? rules j ≡ some r) × (applies host r call ≡ ok true)

  pub applicable-denies :
      (rules : List PolicyRule) (i j : ℕ) (r : PolicyRule) (hits : List Hit)
      → AppliesAt rules j r
      → r.action ≡ deny
      → applicable host rules i call ≡ ok hits
      → denies hits ≡ true
  unfolding applicable
  applicable-denies [] i j r hits a d e = ground arith
  applicable-denies (x ∷ rules) i zero r hits a d e =
      first (applicable host rules (i + 1) call) refl
    where
      first : (t : Result (List Hit)) → applicable host rules (i + 1) call ≡ t → denies hits ≡ true
      first (ok rest) q = ground arith
      first (raise x') q = ground arith
  applicable-denies (x ∷ rules) i (suc j) r hits a d e =
      later (applies host x call) (applicable host rules (i + 1) call) refl refl
        (λ rest. applicable-denies rules (i + 1) j r rest a d)
    where
      later :
          (b : Result Bool) (t : Result (List Hit))
          → applies host x call ≡ b
          → applicable host rules (i + 1) call ≡ t
          → ((rest : List Hit) → applicable host rules (i + 1) call ≡ ok rest → denies rest ≡ true)
          → denies hits ≡ true
      later (ok b) (ok rest) p q ih = ground (arith, ih rest)
      later (ok b) (raise x') p q ih = ground arith
      later (raise x') t p q ih = ground arith

  -- Every hit is a rule of the list, at its index, that applies.
  abbrev pub IsHit : List PolicyRule → ℕ → Hit → Type 0
  IsHit rules i h = (k : ℕ) × (h.0 ≡ i + k) × AppliesAt rules k h.1

  IsHit-later :
      (x : PolicyRule) (rules : List PolicyRule) (i : ℕ) (hits : List Hit)
      → All (IsHit rules (i + 1)) hits
      → All (IsHit (x ∷ rules) i) hits
  IsHit-later x rules i [] a = tt
  IsHit-later x rules i (h ∷ hits) ((k, e, at), a) =
      ((suc k, omega arith, at), IsHit-later x rules i hits a)

  pub applicable-IsHit :
      (rules : List PolicyRule) (i : ℕ) (hits : List Hit)
      → applicable host rules i call ≡ ok hits
      → All (IsHit rules i) hits
  unfolding applicable
  applicable-IsHit [] i hits e = subst (All (IsHit [] i)) (ok-injective e) tt
  applicable-IsHit (x ∷ rules) i hits e =
      split (applies host x call) (applicable host rules (i + 1) call) refl refl
        (λ rest. applicable-IsHit rules (i + 1) rest)
    where
      split :
          (b : Result Bool) (t : Result (List Hit))
          → applies host x call ≡ b
          → applicable host rules (i + 1) call ≡ t
          → ((rest : List Hit)
              → applicable host rules (i + 1) call ≡ ok rest
              → All (IsHit rules (i + 1)) rest)
          → All (IsHit (x ∷ rules) i) hits
      split (ok true) (ok rest) p q ih =
          let same : (i, x) ∷ rest ≡ hits = ground arith in
          subst (All (IsHit (x ∷ rules) i)) same
            ((0, omega arith, (refl, p)), IsHit-later x rules i rest (ih rest q))
      split (ok false) (ok rest) p q ih =
          let same : rest ≡ hits = ground arith in
          subst (All (IsHit (x ∷ rules) i)) same (IsHit-later x rules i rest (ih rest q))
      split (ok b) (raise x') p q ih = absurd (ground arith)
      split (raise x') t p q ih = absurd (ground arith)

  pub applicable-ne-nil :
      (rules : List PolicyRule) (i j : ℕ) (r : PolicyRule) (hits : List Hit)
      → AppliesAt rules j r
      → applicable host rules i call ≡ ok hits
      → hits ≢ []
  unfolding applicable
  applicable-ne-nil [] i j r hits a e = ground arith
  applicable-ne-nil (x ∷ rules) i zero r hits a e =
      elim (Result-cases (applicable host rules (i + 1) call)) [
        | inl (rest, q) ↦ ground arith
        | inr (x', q) ↦ ground arith
      ]
  applicable-ne-nil (x ∷ rules) i (suc j) r hits a e =
      elim (Result-cases (applicable host rules (i + 1) call)) [
        | inl (rest, q) ↦ ground (arith, applicable-ne-nil rules (i + 1) j r rest a q)
        | inr (x', q) ↦ ground arith
      ]

  confused_condition :
      (key target : String) (pattern : Value) (rest params : Fields)
      → strip_suffix "_glob" key ≡ some target
      → ((s : String) → get_value target params ≢ text s)
      → matches_condition host (field key pattern rest) (object params) ≡ raise type_error
  unfolding matches_condition get_value
  confused_condition key target pattern rest params suffix not_text =
      let no_key : matches_key host key pattern (object params) ≡ raise type_error =
        unfold matches_key value_get in
        rw (suffix, matches_key)
          (glob_type_error host (get_value target params) pattern not_text) in
      rw no_key

  pub confused_applies :
      (r : PolicyRule) (key target : String) (pattern : Value) (rest params : Fields)
      → addresses r.tool call.tool ≡ true
      → addresses r.channel call.channel ≡ true
      → addresses r.trust_level call.trust_level ≡ true
      → r.condition ≡ field key pattern rest
      → strip_suffix "_glob" key ≡ some target
      → call.params ≡ object params
      → ((s : String) → get_value target params ≢ text s)
      → applies host r call ≡ ok true
  unfolding applies fail_closed
  confused_applies r key target pattern rest params t c l cond suffix args not_text =
      let caught : condition_ok host r.condition call.params ≡ ok true =
        unfold condition_ok in
        rw (cond, args)
          (ap fail_closed (confused_condition key target pattern rest params suffix not_text)) in
      ground (arith, caught)
