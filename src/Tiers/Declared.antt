-- ===== src/Tiers/Declared.antt =====
-- Each call has a tier, and the tier is declared.
use glc_v.Prelude.{
  ℕ, ◌<◌, ◌≡◌, refl, inl, inr, true, false, Option, none, some, List, [], ◌∷◌, arith, ltb,
  if◌then◌else◌, Bool-cases, Option-cases, length, is_empty, All, get_elem?, get_elem?-All,
  get_elem?_total, ◌==◌, ℕ-Eq, String-Eq, ×-Eq, List-Eq, ok,
}
use glc_v.Prelude.Dict.{lookup, contains, lookup-All}
use glc_v.Text.{Text}
use glc_v.Glob.{codes}
use glc_v.Tiers.{Document, RoleSpec, RoutingPolicy, or_text, given, load_policy}
use glc_v.Tiers.Ladder.{
  TierDecision, index_of, Why, ladder_name, rungs_of, ladder_of, rank, fallback_spec, default_spec,
  known_spec, role_spec, target_rungs, carry, item_at, carried, starting_tier, Choice, raise_to,
  lower_to, decision, clamp, tier_for, classifier, role_default, mapped,
}
use glc_v.Tiers.Loading.{
  RoleIsDeclared, IsLoaded, IsDeclared, RungsAreDeclared, GivenIsDeclared, load_policy-IsLoaded,
}

some_length : (xs : List Text) → is_empty xs ≡ false → 0 < length xs
some_length [] h = absurd (ground (arith, h))
some_length (x ∷ xs) h = omega arith

module _ {N : Type 0} (p : RoutingPolicy N) where
  carry_bound : (i m n : ℕ) → 0 < n → carry p i m n < n
  carry_bound i m n h = ground (arith, h)

  item_at-some :
      (xs : List Text) (i : ℕ) (x : Text) → get_elem? xs i ≡ some x → item_at p xs i ≡ ok x
  item_at-some xs i x e = rw (e, item_at) refl

  -- What the classifier said stands on the ladder that it is placed on.
  abbrev pub StandsOnLadder : Option Text → Type 0
  StandsOnLadder none = Unit
  StandsOnLadder (some t) = (i : ℕ) × (index_of t (ladder_of p t) ≡ some i)

  module _ (loaded : IsLoaded p) where
    pub rungs_of-IsDeclared : (name : Text) → All (IsDeclared p.tiers) (rungs_of p name)
    unfolding rungs_of
    rungs_of-IsDeclared name = elim (Option-cases (lookup name p.ladders)) [
      | inl e ↦ rw (e, rungs_of) loaded.ladder_declared
      | inr (rungs, e) ↦
          rw (e, rungs_of)
            (lookup-All (RungsAreDeclared p.tiers) name rungs p.ladders loaded.ladders_declared e)
    ]

    abbrev AreTargets : List Text → Type 0
    AreTargets rungs = All (IsDeclared p.tiers) rungs × (0 < length rungs)

    or_ladder-AreTargets :
        (rungs : List Text)
        → All (IsDeclared p.tiers) rungs
        → AreTargets (if is_empty rungs then p.ladder else rungs)
    or_ladder-AreTargets [] h = (loaded.ladder_declared, some_length p.ladder loaded.has_bottom)
    or_ladder-AreTargets (t ∷ ts) h = (h, omega arith)

    carried-IsDeclared :
        (name said : Text) (i : ℕ)
        → index_of said (ladder_of p said) ≡ some i
        → (t : Text) × (carried p name said ≡ ok t) × IsDeclared p.tiers t
    unfolding carried
    carried-IsDeclared name said i e =
        let (declared, more) = or_ladder-AreTargets (rungs_of p name) (rungs_of-IsDeclared name) in
        let rungs = target_rungs p name in
        let m = length (ladder_of p said) in
        let k = carry p i m (length rungs) in
        let (t, found) = get_elem?_total rungs k (carry_bound i m (length rungs) more) in
        (
          t,
          rw (e, carried) (item_at-some rungs k t found),
          get_elem?-All (IsDeclared p.tiers) rungs k t declared found,
        )

    fallback_spec-IsDeclared :
        (role : Option Text) (ladder : List Text)
        → p.ladder ≡ ladder
        → is_empty ladder ≡ false
        → All (IsDeclared p.tiers) ladder
        → (spec : RoleSpec) × (fallback_spec p role ≡ ok spec) × RoleIsDeclared p.tiers spec
    fallback_spec-IsDeclared role [] same h d = absurd (ground (arith, h))
    fallback_spec-IsDeclared role (t ∷ ts) same h d = (
      record {
        name = or_text role (codes "default");
        default_tier = t;
        min_tier = none;
        max_tier = none;
        escalate = true;
      },
      rw same refl,
      record { default_declared = d.0; min_declared = tt; max_declared = tt },
    )

    role-IsDeclared :
        (role : Text) (spec : RoleSpec)
        → lookup role p.roles ≡ some spec
        → RoleIsDeclared p.tiers spec
    role-IsDeclared role spec e =
        lookup-All (λ r. RoleIsDeclared p.tiers r.1) role spec p.roles loaded.roles_declared e

    known_spec-IsDeclared :
        (role : Option Text) (spec : RoleSpec)
        → known_spec p role ≡ some spec
        → RoleIsDeclared p.tiers spec
    known_spec-IsDeclared none spec e = absurd (ground (arith, e))
    known_spec-IsDeclared (some role) spec e = role-IsDeclared role spec e

    default_spec-IsDeclared :
        (role : Option Text)
        → (spec : RoleSpec) × (default_spec p role ≡ ok spec) × RoleIsDeclared p.tiers spec
    default_spec-IsDeclared role = elim (Option-cases (lookup p.default_role p.roles)) [
      | inr (spec, e) ↦ (spec, rw (e, default_spec) refl, role-IsDeclared p.default_role spec e)
      | inl e ↦
          let (spec, made, declared) =
            fallback_spec-IsDeclared role p.ladder refl loaded.has_bottom loaded.ladder_declared in
          (spec, rw (e, default_spec) made, declared)
    ]

    pub role_spec-IsDeclared :
        (role : Option Text)
        → (spec : RoleSpec) × (role_spec p role ≡ ok spec) × RoleIsDeclared p.tiers spec
    unfolding role_spec
    role_spec-IsDeclared role = elim (Option-cases (known_spec p (given role))) [
      | inr (spec, e) ↦ (spec, rw (e, role_spec) refl, known_spec-IsDeclared (given role) spec e)
      | inl e ↦
          let (spec, made, declared) = default_spec-IsDeclared role in
          (spec, rw (e, role_spec) made, declared)
    ]

    starting_tier-IsDeclared :
        (spec : RoleSpec) (said : Option Text)
        → RoleIsDeclared p.tiers spec
        → StandsOnLadder said
        → (start : Text × Why) × (starting_tier p spec said ≡ ok start) × IsDeclared p.tiers start.0
    unfolding starting_tier
    starting_tier-IsDeclared spec none h on =
        ((spec.default_tier, role_default), refl, h.default_declared)
    starting_tier-IsDeclared spec (some t) h (i, on) = elim (Bool-cases (contains t p.tiers)) [
      | inr e ↦ ((spec.default_tier, role_default), rw e refl, h.default_declared)
      | inl e ↦ elim (Bool-cases (ladder_name p t == ladder_name p spec.default_tier)) [
        | inl same ↦ ((t, classifier), rw e (rw same refl), e)
        | inr other ↦
            let name = ladder_name p spec.default_tier in
            let (u, found, declared) = carried-IsDeclared name t i on in
            ((u, mapped t name), rw e (rw other (rw found refl)), declared)
      ]
    ]

    raise_to-IsDeclared :
        (o : Option Text) (choice : Choice p)
        → GivenIsDeclared p.tiers o
        → IsDeclared p.tiers choice.0
        → IsDeclared p.tiers (raise_to p o choice).0
    unfolding raise_to
    raise_to-IsDeclared none choice h d = d
    raise_to-IsDeclared (some t) choice h d = elim (Bool-cases (ltb (rank p choice.0) (rank p t))) [
      | inl e ↦ rw e h
      | inr e ↦ rw e d
    ]

    lower_to-IsDeclared :
        (o : Option Text) (choice : Choice p)
        → GivenIsDeclared p.tiers o
        → IsDeclared p.tiers choice.0
        → IsDeclared p.tiers (lower_to p o choice).0
    unfolding lower_to
    lower_to-IsDeclared none choice h d = d
    lower_to-IsDeclared (some t) choice h d = elim (Bool-cases (ltb (rank p t) (rank p choice.0))) [
      | inl e ↦ rw e h
      | inr e ↦ rw e d
    ]

    clamp-IsDeclared :
        (spec : RoleSpec) (start : Text × Why)
        → RoleIsDeclared p.tiers spec
        → IsDeclared p.tiers start.0
        → IsDeclared p.tiers (clamp p spec start).0
    unfolding clamp
    clamp-IsDeclared spec (tier, why) h d =
        lower_to-IsDeclared (given spec.max_tier)
          (raise_to p (given spec.min_tier) (tier, why, false)) h.max_declared
          (raise_to-IsDeclared (given spec.min_tier) (tier, why, false) h.min_declared d)

-- In a policy that was loaded from a file, each call has a tier, and it is one that the file declares:
-- whatever role the caller names, and whatever tier on a ladder the classifier says.
pub tier_for-IsDeclared :
    {N : Type 0} (file : Document N) (p : RoutingPolicy N) (role said : Option Text)
    → load_policy file ≡ ok p
    → StandsOnLadder p said
    → (d : TierDecision) × (tier_for p role said ≡ ok d) × (contains d.tier p.tiers ≡ true)
unfolding tier_for
tier_for-IsDeclared file p role said h on =
    let loaded = load_policy-IsLoaded file p h in
    let (spec, known, fits) = role_spec-IsDeclared p loaded role in
    let (start, begun, declared) = starting_tier-IsDeclared p loaded spec said fits on in
    (
      decision p spec.name said (clamp p spec start),
      rw (known, tier_for) (rw begun refl),
      clamp-IsDeclared p loaded spec start fits declared,
    )
