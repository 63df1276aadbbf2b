-- ===== src/Tiers/Ladder.antt =====
-- glc/routing/policy.py: the order of the tiers on their ladders, and the tier of a call from its role
-- and from what the classifier said.
use glc_v.Prelude.{
  ℕ, suc, ◌+◌, ◌-◌, ◌*◌, ◌/◌, ◌%◌, min, Bool, true, false, not, ◌&&◌, Option, none, some, List, [],
  ◌∷◌, ltb, if◌then◌else◌, length, is_empty, get_elem?, ◌==◌, ℕ-Eq, String-Eq, ×-Eq, List-Eq,
  Result, ◌>>=◌, value_error, index_error, ok, raise,
}
use glc_v.Prelude.Dict.{lookup, contains}
use glc_v.Text.{Text}
use glc_v.Glob.{codes}
use glc_v.Tiers.{RoleSpec, RoutingPolicy, or_text, given, first_of, default_ladder}

-- `xs.index(t)`
unfoldable pub index_of : Text → List Text → Option ℕ
index_of t [] = none
index_of t (x ∷ xs) =
    let rest = index_of t xs in
    if x == t then some 0 else elim rest [ none ↦ none | some i ↦ some (suc i) ]

-- The nearest integer to a / b, to the even one of two: Python's `round`.
unfoldable pub round_ratio : ℕ → ℕ → ℕ
round_ratio a b =
    if ltb (2 * (a % b)) b
    then a / b
    else if ltb b (2 * (a % b))
    then a / b + 1
    else a / b + (a / b) % 2

pub data Why : Type 0 where
  classifier role_default : Why
  mapped : Text → Text → Why
  floors_at caps_at : Text → Why

pub record TierDecision : Type 0 where
  pub role : Text
  pub tier : Text
  pub classified_tier : Option Text
  pub reason : Why
  pub clamped : Bool

module _ {N : Type 0} (p : RoutingPolicy N) where
  -- `self._ladder_of.get(tier, "default")`
  unfoldable pub ladder_name : Text → Text
  unfolding lookup
  ladder_name tier = elim (lookup tier p.placed) [ none ↦ default_ladder | some l ↦ l ]

  -- `self.ladders.get(name, self.ladder)`
  unfoldable pub rungs_of : Text → List Text
  unfolding lookup
  rungs_of name = elim (lookup name p.ladders) [ none ↦ p.ladder | some rungs ↦ rungs ]

  unfoldable pub ladder_of : Text → List Text
  unfolding ladder_name rungs_of
  ladder_of tier = rungs_of (ladder_name tier)

  unfoldable pub rank : Text → ℕ
  unfolding ladder_of index_of
  rank tier = elim (index_of tier (ladder_of tier)) [ none ↦ length (ladder_of tier) | some i ↦ i ]

  unfoldable pub next_tier : Text → Option Text
  unfolding rank
  next_tier tier =
      if ltb (rank tier + 1) (length (ladder_of tier))
      then get_elem? (ladder_of tier) (rank tier + 1)
      else none

  unfoldable pub prev_tier : Text → Option Text
  unfolding rank
  prev_tier tier =
      if ltb 0 (rank tier) && ltb (rank tier) (length (ladder_of tier))
      then get_elem? (ladder_of tier) (rank tier - 1)
      else none

  abbrev pub fallback_spec : Option Text → Result RoleSpec
  fallback_spec role = first_of p.ladder >>= λ bottom. ok (record {
    name = or_text role (codes "default");
    default_tier = bottom;
    min_tier = none;
    max_tier = none;
    escalate = true;
  })

  -- The spec of the default role, else a spec of its own.
  abbrev pub default_spec : Option Text → Result RoleSpec
  default_spec role = elim (lookup p.default_role p.roles) [
    | some spec ↦ ok spec
    | none ↦ fallback_spec role
  ]

  abbrev pub known_spec : Option Text → Option RoleSpec
  known_spec none = none
  known_spec (some role) = lookup role p.roles

  unfoldable pub role_spec : Option Text → Result RoleSpec
  unfolding lookup
  role_spec role = elim (known_spec (given role)) [ some spec ↦ ok spec | none ↦ default_spec role ]

  -- `self.ladders.get(name) or self.ladder`
  abbrev pub target_rungs : Text → List Text
  target_rungs name = if is_empty (rungs_of name) then p.ladder else rungs_of name

  -- The position on a ladder of `n` rungs for place `i` of `m`.
  abbrev pub carry : ℕ → ℕ → ℕ → ℕ
  carry i m n = if ltb m 2 then 0 else min (n - 1) (round_ratio (i * (n - 1)) (m - 1))

  abbrev pub item_at : List Text → ℕ → Result Text
  item_at xs i = elim (get_elem? xs i) [ none ↦ raise index_error | some x ↦ ok x ]

  -- A tier of another ladder, carried over by its position.
  unfoldable pub carried : Text → Text → Result Text
  unfolding ladder_of index_of round_ratio
  carried role_ladder tier = elim (index_of tier (ladder_of tier)) [
    | none ↦ raise value_error
    | some i ↦
        item_at (target_rungs role_ladder)
          (carry i (length (ladder_of tier)) (length (target_rungs role_ladder)))
  ]

  abbrev carried_choice : Text → Text → Result (Text × Why)
  carried_choice role_ladder said =
      carried role_ladder said >>= λ tier. ok (tier, mapped said role_ladder)

  -- The tier before the role's floor and cap, and why.
  unfoldable pub starting_tier : RoleSpec → Option Text → Result (Text × Why)
  unfolding carried contains
  starting_tier spec none = ok (spec.default_tier, role_default)
  starting_tier spec (some said) =
      if not (contains said p.tiers)
      then ok (spec.default_tier, role_default)
      else if ladder_name said == ladder_name spec.default_tier
      then ok (said, classifier)
      else carried_choice (ladder_name spec.default_tier) said

  -- What has been decided: the tier, why, and whether the role changed it.
  abbrev pub Choice : Type 0
  Choice = Text × Why × Bool

  unfoldable pub raise_to : Option Text → Choice → Choice
  unfolding rank
  raise_to none choice = choice
  raise_to (some floor) choice =
      if ltb (rank choice.0) (rank floor) then (floor, floors_at floor, true) else choice

  unfoldable pub lower_to : Option Text → Choice → Choice
  unfolding rank
  lower_to none choice = choice
  lower_to (some cap) choice =
      if ltb (rank cap) (rank choice.0) then (cap, caps_at cap, true) else choice

  abbrev pub decision : Text → Option Text → Choice → TierDecision
  decision role said (tier, why, clamped) = record {
    role = role;
    tier = tier;
    classified_tier = said;
    reason = why;
    clamped = clamped;
  }

  unfoldable pub clamp : RoleSpec → Text × Why → Choice
  unfolding raise_to lower_to
  clamp spec (tier, why) =
      lower_to (given spec.max_tier) (raise_to (given spec.min_tier) (tier, why, false))

  unfoldable pub tier_for : Option Text → Option Text → Result TierDecision
  unfolding role_spec starting_tier clamp
  tier_for role said = role_spec role >>= λ spec.
      starting_tier spec said >>= λ start. ok (decision spec.name said (clamp spec start))
