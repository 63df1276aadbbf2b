-- ===== src/Tiers/Candidates.antt =====
-- glc/routing/policy.py: `order_for` put together, with the scores that it sorts by.
use glc_v.Prelude.{
  ℕ, max, Bool, not, ◌&&◌, Option, none, some, List, [], ◌∷◌, ◌++◌, map, if◌then◌else◌, keep, any,
  ◌==◌, ℕ-Eq, String-Eq, ×-Eq, List-Eq, member,
}
use glc_v.Prelude.Dict.{Dict, lookup}
use glc_v.Text.{Text}
use glc_v.Glob.{codes, translate, match_tokens}
use glc_v.Tiers.{Selection, TierSpec, RoutingPolicy, keys_of, given}
use glc_v.Prelude.Floats.{Floats}
use glc_v.Tiers.Order.{
  Prices, Rejection, Ordered, bench_reason, is_some, ring_of, max_ctx_of, too_small,
  filters_context, fitting, sort_by, undeclared_tier, benched_by, not_in_ring, context_too_small,
}

abbrev float_or : {N : Type 0} → Option N → N → N
float_or none default = default
float_or (some x) default = x

-- `objective or spec.objective or self.selection.get("objective", "order")`
abbrev pub objective_of : Option Text → Option Text → Option Text → Text
objective_of asked own general = elim (given asked) [
  | some o ↦ o
  | none ↦ elim (given own) [
    | some o ↦ o
    | none ↦ elim general [ none ↦ codes "order" | some o ↦ o ]
  ]
]

-- The dial: the call's, else the tier's, else the general one.
abbrev pub tradeoff_of : {N : Type 0} → Option N → Option N → Option N → N → N
tradeoff_of (some t) own general default = t
tradeoff_of none (some t) general default = t
tradeoff_of none none general default = float_or general default

module _ {N : Type 0} (f : Floats N) (prices : Prices N) (is_digit : ℕ → Bool)
    (available : Dict Text (Option Text)) where
  abbrev one : N
  one = f.ratio 1 1

  abbrev model_of : Text → Option Text
  model_of name = elim (lookup name available) [ none ↦ none | some model ↦ model ]

  -- `_blended_cost`
  unfoldable pub blended_cost : Selection N → Text → N
  unfolding lookup
  blended_cost sel name =
      let w = float_or sel.output_weight (f.ratio 35 100) in
      f.add (f.mul (prices.input_usd_per_mtok name (model_of name)) (f.sub one w))
        (f.mul (prices.output_usd_per_mtok name (model_of name)) w)

  -- `max` of the numbers behind a first one
  abbrev max_from : N → List N → N
  max_from m [] = m
  max_from m (x ∷ xs) = max_from (if f.less m x then x else m) xs

  -- `max(costs.values()) or 1.0`
  unfoldable pub highest_cost : Selection N → List Text → N
  unfolding blended_cost
  highest_cost sel [] = one
  highest_cost sel (n ∷ ns) =
      let top = max_from (blended_cost sel n) (map (blended_cost sel) ns) in
      if f.is_zero top then one else top

  -- `score`, for an objective and a dial
  unfoldable pub score : Selection N → Text → N → N → Text → N
  unfolding blended_cost lookup
  score sel objective t top name =
      let cost = blended_cost sel name in
      let quality = prices.quality_for name (model_of name) in
      if objective == codes "cost"
      then f.sub (f.ratio 0 1) cost
      else if objective == codes "quality"
      then quality
      else f.sub (f.mul t quality) (f.mul (f.sub one t) (f.div cost top))

  -- The sort by falling score.
  unfoldable pub by_score : Selection N → Text → N → List Text → List Text
  unfolding score highest_cost sort_by
  by_score sel objective t names =
      if objective == codes "order"
      then names
      else sort_by f.less
          (λ n. f.sub (f.ratio 0 1) (score sel objective t (highest_cost sel names) n)) names

  -- The pinned names go first.
  unfoldable pub pinned_first : List Text → List Text → List Text
  unfolding match_tokens translate
  pinned_first pins names =
      let pinned = keep (λ n. any (λ pin. match_tokens (translate 0 pin) n) pins) names in
      pinned ++ keep (λ n. not (member n pinned)) names

  module _ (p : RoutingPolicy N) where
    abbrev pub is_benched : Text → Bool
    is_benched n = is_some (bench_reason is_digit p.unavailable n)

    -- The benched providers, with the reasons.
    unfoldable pub benches : List Text → List (Text × Rejection)
    unfolding bench_reason
    benches [] = []
    benches (n ∷ ns) = elim (bench_reason is_digit p.unavailable n) [
      | none ↦ benches ns
      | some reason ↦ (n, benched_by reason) ∷ benches ns
    ]

    -- The names that a strict tier leaves out.
    unfoldable pub left_out : Text → List Text → List Text → List (Text × Rejection)
    unfolding bench_reason
    left_out tier ring names =
        map (λ n. (n, not_in_ring tier))
          (keep (λ n. not (member n ring) && not (is_benched n)) names)

    -- The names whose context is too small.
    unfoldable pub shut_out : Dict Text ℕ → ℕ → List Text → List (Text × Rejection)
    unfolding too_small lookup
    shut_out limits need names =
        if filters_context limits need
        then map (λ n. (n, context_too_small (max_ctx_of limits n) need))
            (keep (too_small limits need) names)
        else []

    -- `order_for` of a declared tier
    unfoldable pub order_in : TierSpec N → Dict Text ℕ → ℕ → Option Text → Option N → Ordered
    unfolding ring_of fitting by_score pinned_first benches left_out shut_out
    order_in spec limits est objective tradeoff =
        let names = keys_of available in
        let ring = ring_of spec.strict is_benched names spec.order in
        let need = max spec.min_ctx est in
        let fits = fitting limits need ring in
        let goal = objective_of objective spec.objective p.selection.objective in
        let dial = tradeoff_of tradeoff spec.tradeoff p.selection.tradeoff (f.ratio 1 2) in
        (
          pinned_first p.selection.pin_first (by_score p.selection goal dial fits),
          benches names
              ++ (if spec.strict then left_out spec.name ring names else [])
              ++ shut_out limits need ring,
        )

    unfoldable pub order_for : Text → Dict Text ℕ → ℕ → Option Text → Option N → Ordered
    unfolding order_in lookup
    order_for tier limits est objective tradeoff = elim (lookup tier p.tiers) [
      | none ↦ (keys_of available, (tier, undeclared_tier) ∷ [])
      | some spec ↦ order_in spec limits est objective tradeoff
    ]
