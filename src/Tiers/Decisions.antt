-- ===== src/Tiers/Decisions.antt =====
-- What the tier of a call can be.
use glc_v.Prelude.{
  ◌≤◌, ◌≡◌, refl, sym, ap, ◌∙◌, subst, inl, inr, false, Option, some, arith, ltb, ltb→ge,
  Bool-cases, ℕ-Eq, String-Eq, ×-Eq, List-Eq, ok-injective, bind-ok, ok,
}
use glc_v.Text.{Text}
use glc_v.Tiers.{RoleSpec, RoutingPolicy, given}
use glc_v.Tiers.Ladder.{
  TierDecision, Why, rank, role_spec, starting_tier, Choice, raise_to, lower_to, clamp, tier_for,
}

module _ {N : Type 0} (p : RoutingPolicy N) where
  lower_to-IsWithin :
      (floor top : Text) (choice : Choice p)
      → rank p floor ≤ rank p top
      → rank p floor ≤ rank p choice.0
      → (rank p floor ≤ rank p (lower_to p (some top) choice).0)
        × (rank p (lower_to p (some top) choice).0 ≤ rank p top)
  unfolding lower_to
  lower_to-IsWithin floor top choice le h = elim (Bool-cases (ltb (rank p top) (rank p choice.0))) [
    | inl e ↦ rw e (le, omega arith)
    | inr e ↦ rw e (h, ltb→ge (rank p top) (rank p choice.0) e)
  ]

  raise_to-IsAbove :
      (floor : Text) (choice : Choice p) → rank p floor ≤ rank p (raise_to p (some floor) choice).0
  unfolding raise_to
  raise_to-IsAbove floor choice = ground arith

  -- What a decision is made of.
  tier_for_parts :
      (role said : Option Text) (spec : RoleSpec) (d : TierDecision)
      → role_spec p role ≡ ok spec
      → tier_for p role said ≡ ok d
      → (start : Text × Why) × (starting_tier p spec said ≡ ok start)
        × ((clamp p spec start).0 ≡ d.tier)
  unfolding tier_for
  tier_for_parts role said spec d known e =
      let (found, h₁, e₁) = bind-ok (role_spec p role) _ d e in
      let same : found ≡ spec = ok-injective (sym h₁ ∙ known) in
      let (start, h₂, e₂) = bind-ok (starting_tier p found said) _ d e₁ in
      let tier : (clamp p found start).0 ≡ d.tier = ap (λ x. x.tier) (ok-injective e₂) in
      let (started, chosen) =
        subst (λ s. (starting_tier p s said ≡ ok start) × ((clamp p s start).0 ≡ d.tier)) same
          (h₂, tier) in
      (start, started, chosen)

  -- Where a role declares a floor and a ceiling, in this order on their ladders, the tier of each call
  -- with the role stands between them, whatever the classifier said.
  pub tier_for-IsWithin :
      (role said : Option Text) (spec : RoleSpec) (floor top : Text) (d : TierDecision)
      → role_spec p role ≡ ok spec
      → given spec.min_tier ≡ some floor
      → given spec.max_tier ≡ some top
      → rank p floor ≤ rank p top
      → tier_for p role said ≡ ok d
      → (rank p floor ≤ rank p d.tier) × (rank p d.tier ≤ rank p top)
  unfolding clamp
  tier_for-IsWithin role said spec floor top d known low high le e =
      let ((tier, why), _, same) = tier_for_parts role said spec d known e in
      let raised = raise_to p (some floor) (tier, why, false) in
      let clamped : clamp p spec (tier, why) ≡ lower_to p (some top) raised =
        rw (low, clamp) (rw (high, clamp) refl) in
      subst (λ t. (rank p floor ≤ rank p t) × (rank p t ≤ rank p top))
        (ap (λ c. c.0) (sym clamped) ∙ same)
        (lower_to-IsWithin floor top raised le (raise_to-IsAbove floor (tier, why, false)))
