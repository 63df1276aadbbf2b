-- ===== src/Tiers.antt =====
-- glc/routing/policy.py: the tiers, ladders and roles of routing.yaml, as `RoutingPolicy.__init__` loads
-- them. A document is one whose values have the types that the file documents; `N` is the host's type of
-- floating-point numbers.
pub mod Ladder
pub mod Placing
pub mod Loading
pub mod Decisions
pub mod Declared
pub mod Climb
pub mod Order
pub mod Candidates
pub mod Ring
pub mod Eligible
pub mod Cascade
pub mod Samples
mod Tests
use glc_v.Prelude.{
  ℕ, Bool, true, not, ◌&&◌, Option, none, some, List, [], ◌∷◌, map, if◌then◌else◌, is_empty, ◌==◌,
  ℕ-Eq, String-Eq, ×-Eq, List-Eq, Result, ◌>>=◌, ◌>>◌, index_error, config_error, ok, raise,
}
use glc_v.Prelude.Dict.{Dict, lookup, insert, contains}
use glc_v.Text.{Text}
use glc_v.Glob.{codes}

pub record RawTier (N : Type 0) : Type 0 where
  pub order : List Text
  pub min_ctx : ℕ
  pub strict : Bool
  pub objective : Option Text
  pub tradeoff : Option N

pub record RawRole : Type 0 where
  pub default_tier : Option Text
  pub min_tier : Option Text
  pub max_tier : Option Text
  pub escalate : Bool

-- `selection`
pub record Selection (N : Type 0) : Type 0 where
  pub objective : Option Text
  pub tradeoff : Option N
  pub output_weight : Option N
  pub pin_first : List Text

-- `escalation`; `scores` is its `confidence`
pub record Escalation (N : Type 0) : Type 0 where
  pub enabled : Bool
  pub max_escalations : ℕ
  pub confidence_threshold : Option N
  pub triggers : List Text
  pub scores : Dict Text N
  pub min_response_chars : ℕ
  pub hedge_markers : List Text

-- The parsed file.
pub record Document (N : Type 0) : Type 0 where
  pub ladder : List Text
  pub ladders : Dict Text (List Text)
  pub tiers : Dict Text (RawTier N)
  pub unavailable : Dict Text Text
  pub default_role : Option Text
  pub roles : Dict Text RawRole
  pub selection : Selection N
  pub escalation : Escalation N

pub record TierSpec (N : Type 0) : Type 0 where
  pub name : Text
  pub order : List Text
  pub min_ctx : ℕ
  pub strict : Bool
  pub objective : Option Text
  pub tradeoff : Option N
  pub ladder : Text

pub record RoleSpec : Type 0 where
  pub name : Text
  pub default_tier : Text
  pub min_tier : Option Text
  pub max_tier : Option Text
  pub escalate : Bool

-- `RoutingPolicy`; `placed` is its `_ladder_of`
pub record RoutingPolicy (N : Type 0) : Type 0 where
  pub ladder : List Text
  pub ladders : Dict Text (List Text)
  pub placed : Dict Text Text
  pub unavailable : Dict Text Text
  pub tiers : Dict Text (TierSpec N)
  pub default_role : Text
  pub roles : Dict Text RoleSpec
  pub selection : Selection N
  pub escalation : Escalation N

abbrev pub keys_of {ℓ} : {V : Type ℓ} → Dict Text V → List Text
keys_of d = map (λ e. e.0) d

-- `name or default`
abbrev pub or_text : Option Text → Text → Text
or_text none default = default
or_text (some []) default = default
or_text (some (c ∷ cs)) default = c ∷ cs

-- A name that is None or empty counts as none.
abbrev pub given : Option Text → Option Text
given none = none
given (some []) = none
given (some (c ∷ cs)) = some (c ∷ cs)

-- `names[0]`
abbrev pub first_of : List Text → Result Text
first_of [] = raise index_error
first_of (x ∷ xs) = ok x

-- Whether every name is a tier of the file.
unfoldable pub all_declared {ℓ} : {V : Type ℓ} → Dict Text V → List Text → Bool
unfolding contains
all_declared tiers [] = true
all_declared tiers (t ∷ ts) = contains t tiers && all_declared tiers ts

abbrev pub default_ladder : Text
default_ladder = codes "default"

-- The loop over `ladders`, onto `self.ladders`.
unfoldable pub add_ladders {ℓ} :
    {V : Type ℓ}
    → Dict Text V
    → Dict Text (List Text)
    → Dict Text (List Text)
    → Result (Dict Text (List Text))
unfolding all_declared insert
add_ladders tiers out [] = ok out
add_ladders tiers out ((name, rungs) ∷ rest) =
    if all_declared tiers rungs && not (name == default_ladder)
    then add_ladders tiers (insert name rungs out) rest
    else raise config_error

-- The rungs of one ladder, onto `_ladder_of`.
unfoldable pub place_rungs : Text → List Text → Dict Text Text → Result (Dict Text Text)
unfolding lookup insert
place_rungs name [] placed = ok placed
place_rungs name (t ∷ ts) placed = elim (lookup t placed) [
  | none ↦ place_rungs name ts (insert t name placed)
  | some other ↦
      if other == name then place_rungs name ts (insert t name placed) else raise config_error
]

unfoldable pub place_all : Dict Text (List Text) → Dict Text Text → Result (Dict Text Text)
unfolding place_rungs
place_all [] placed = ok placed
place_all ((name, rungs) ∷ rest) placed =
    place_rungs name rungs placed >>= λ more. place_all rest more

unfoldable pub build_tiers :
    {N : Type 0} → Dict Text Text → Dict Text (RawTier N) → Dict Text (TierSpec N)
unfolding lookup
build_tiers placed [] = []
build_tiers placed ((name, spec) ∷ rest) =
    (
      name,
      record {
        name = name;
        order = spec.order;
        min_ctx = spec.min_ctx;
        strict = spec.strict;
        objective = given spec.objective;
        tradeoff = spec.tradeoff;
        ladder = elim (lookup name placed) [ none ↦ [] | some l ↦ l ];
      },
    )
    ∷ build_tiers placed rest

abbrev pub tier_or_none {ℓ} : {V : Type ℓ} → Dict Text V → Option Text → Bool
tier_or_none tiers none = true
tier_or_none tiers (some t) = contains t tiers

abbrev pub roles_fit {ℓ} : {V : Type ℓ} → Dict Text V → RawRole → Bool
roles_fit tiers spec =
    tier_or_none tiers spec.default_tier
    && tier_or_none tiers spec.min_tier
    && tier_or_none tiers spec.max_tier

abbrev pub build_role : Text → Text → RawRole → RoleSpec
build_role bottom name spec = record {
  name = name;
  default_tier = or_text spec.default_tier bottom;
  min_tier = spec.min_tier;
  max_tier = spec.max_tier;
  escalate = spec.escalate;
}

-- The loop over `roles`.
unfoldable pub build_roles {ℓ} :
    {V : Type ℓ} → List Text → Dict Text V → Dict Text RawRole → Result (Dict Text RoleSpec)
unfolding contains
build_roles ladder tiers [] = ok []
build_roles ladder tiers ((name, spec) ∷ rest) =
    if roles_fit tiers spec
    then (first_of ladder >>= λ bottom.
        build_roles ladder tiers rest >>= λ roles. ok ((name, build_role bottom name spec) ∷ roles))
    else raise config_error

abbrev first_role : Dict Text RawRole → Text
first_role [] = codes "default"
first_role ((name, spec) ∷ rest) = name

-- `ladder or list(tiers)`
abbrev pub or_all_tiers {ℓ} : {V : Type ℓ} → Dict Text V → List Text → List Text
or_all_tiers tiers [] = keys_of tiers
or_all_tiers tiers (t ∷ ts) = t ∷ ts

-- A file without tiers, or whose ladder names one that it does not declare, is refused.
abbrev pub ladder_from : {N : Type 0} → Document N → Result (List Text)
ladder_from d =
    if not (is_empty d.tiers) && all_declared d.tiers (or_all_tiers d.tiers d.ladder)
    then ok (or_all_tiers d.tiers d.ladder)
    else raise config_error

-- `__init__`
unfoldable pub load_policy : {N : Type 0} → Document N → Result (RoutingPolicy N)
unfolding all_declared add_ladders place_all build_tiers build_roles
load_policy d = do
  ladder ← ladder_from d
  ladders ← add_ladders d.tiers ((default_ladder, ladder) ∷ []) d.ladders
  placed ← place_all ladders []
  roles ← build_roles ladder d.tiers d.roles
  ok (record {
    ladder = ladder;
    ladders = ladders;
    placed = placed;
    unavailable = d.unavailable;
    tiers = build_tiers placed d.tiers;
    default_role = or_text d.default_role (first_role d.roles);
    roles = roles;
    selection = d.selection;
    escalation = d.escalation;
  })
