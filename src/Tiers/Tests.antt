-- ===== src/Tiers/Tests.antt =====
-- Calls over a routing file with two ladders.
use glc_v.Tiers.Samples.{hundredths, flat_prices, ascii_digit, demo_file, demo, live, contexts}
use glc_v.Tiers.Eligible.{eligible, order_for-eligible}
use glc_v.Tiers.Declared.{tier_for-IsDeclared}
use glc_v.Tiers.Decisions.{tier_for-IsWithin}
use glc_v.Tiers.Climb.{next_tier-prev_tier}
use glc_v.Tiers.Candidates.{order_for}
use glc_v.Prelude.Dict.{lookup, contains}
use glc_v.Prelude.{
  ℕ, ◌+◌, ◌≤◌, max, ◌≡◌, refl, true, none, some, [], ◌∷◌, arith, All, ℕ-Eq, String-Eq, ×-Eq,
  List-Eq, config_error, ok, raise, Distinct,
}
use glc_v.Glob.{codes}
use glc_v.Tiers.{Document, TierSpec, RoleSpec, build_tiers, load_policy}
use glc_v.Tiers.Ladder.{
  TierDecision, index_of, ladder_of, rank, next_tier, prev_tier, role_spec, tier_for, caps_at,
}
use glc_v.Tiers.Order.{benched_by, not_in_ring, context_too_small}

demo_loads : load_policy demo_file ≡ ok demo
unfolding load_policy
demo_loads = refl

twice : Document ℕ
twice = record demo_file { ladders = (codes "other", codes "TINY" ∷ []) ∷ [] }

-- A tier on two ladders is refused.
twice_refused : load_policy twice ≡ raise config_error
unfolding load_policy twice
twice_refused = refl

abbrev huge_decision : TierDecision
huge_decision = record {
  role = codes "perception";
  tier = codes "LARGE";
  classified_tier = some (codes "HUGE");
  reason = caps_at (codes "LARGE");
  clamped = true;
}

huge_capped : tier_for demo (some (codes "perception")) (some (codes "HUGE")) ≡ ok huge_decision
unfolding tier_for build_tiers
huge_capped = refl

abbrev perception : RoleSpec
perception = record {
  name = codes "perception";
  default_tier = codes "TINY";
  min_tier = some (codes "TINY");
  max_tier = some (codes "LARGE");
  escalate = true;
}

role_known : role_spec demo (some (codes "perception")) ≡ ok perception
unfolding role_spec
role_known = refl

rank_order : rank demo (codes "TINY") ≤ rank demo (codes "LARGE")
unfolding rank
rank_order = omega arith

tier_for-IsWithin_example :
    (rank demo (codes "TINY") ≤ rank demo huge_decision.tier)
    × (rank demo huge_decision.tier ≤ rank demo (codes "LARGE"))
tier_for-IsWithin_example =
    tier_for-IsWithin demo (some (codes "perception")) (some (codes "HUGE")) perception
      (codes "TINY") (codes "LARGE") huge_decision role_known refl refl rank_order huge_capped

best_on_ladder : index_of (codes "BEST") (ladder_of demo (codes "BEST")) ≡ some 1
unfolding index_of ladder_of
best_on_ladder = refl

tier_for-IsDeclared_example :
    (d : TierDecision) × (tier_for demo (some (codes "perception")) (some (codes "BEST")) ≡ ok d)
    × (contains d.tier demo.tiers ≡ true)
tier_for-IsDeclared_example =
    tier_for-IsDeclared demo_file demo (some (codes "perception")) (some (codes "BEST")) demo_loads
      (1, best_on_ladder)

ladder-Distinct : Distinct (ladder_of demo (codes "TINY"))
unfolding ladder_of
ladder-Distinct = ground arith

tiny_next : next_tier demo (codes "TINY") ≡ some (codes "LARGE")
unfolding next_tier
tiny_next = refl

next_tier-prev_tier_example :
    (ladder_of demo (codes "LARGE") ≡ ladder_of demo (codes "TINY"))
    × (rank demo (codes "LARGE") ≡ rank demo (codes "TINY") + 1)
    × (prev_tier demo (codes "LARGE") ≡ some (codes "TINY"))
next_tier-prev_tier_example =
    next_tier-prev_tier demo_file demo (codes "TINY") (codes "LARGE") demo_loads ladder-Distinct
      tiny_next

huge_order :
    order_for hundredths flat_prices ascii_digit live demo (codes "HUGE") contexts 0 none none ≡ (
      codes "gemini_2" ∷ [],
      (codes "github", benched_by (codes "401"))
          ∷ (codes "groq", not_in_ring (codes "HUGE"))
          ∷ (codes "gemini_1", context_too_small 100 200)
          ∷ [],
    )
unfolding order_for build_tiers
huge_order = refl

abbrev huge_spec : TierSpec ℕ
huge_spec = record {
  name = codes "HUGE";
  order = codes "gemini" ∷ [];
  min_ctx = 200;
  strict = true;
  objective = none;
  tradeoff = none;
  ladder = codes "default";
}

huge_declared : lookup (codes "HUGE") demo.tiers ≡ some huge_spec
unfolding lookup build_tiers
huge_declared = refl

order_for-eligible_example :
    All
      (λ n.
        eligible hundredths flat_prices ascii_digit live demo huge_spec contexts
          (max huge_spec.min_ctx 0)
          n
        ≡ true)
      (order_for hundredths flat_prices ascii_digit live demo (codes "HUGE") contexts 0 none none).0
    × Distinct
        (order_for hundredths flat_prices ascii_digit live demo
          (codes "HUGE")
          contexts
          0
          none
          none).0
order_for-eligible_example =
    order_for-eligible hundredths flat_prices ascii_digit live demo (codes "HUGE") huge_spec
      contexts 0 none none huge_declared
