-- ===== src/Tiers/Eligible.antt =====
-- Which candidates a tier can have.
use glc_v.Glob.{codes, translate, match_tokens}
use glc_v.Prelude.{
  ℕ, max, ◌≡◌, refl, sym, subst, inl, inr, Bool, true, false, not, ◌&&◌, ◌||◌, Option, some, List,
  [], arith, Bool-cases, keep, any, All, All-append, All-zip, All-map, any-item, ◌==◌, ℕ-Eq,
  String-Eq, ×-Eq, List-Eq, Distinct, member, keep-All, keep_passes, keep-Distinct,
}
use glc_v.Prelude.Dict.{Dict, lookup, contains, keys-contains}
use glc_v.Text.{Text}
use glc_v.Tiers.{TierSpec, RoutingPolicy, keys_of}
use glc_v.Prelude.Floats.{Floats}
use glc_v.Tiers.Order.{Prices, names_it, expand_ring, ring_of, too_small, filters_context, fitting}
use glc_v.Tiers.Candidates.{
  objective_of, tradeoff_of, by_score, pinned_first, is_benched, order_in, order_for,
}
use glc_v.Tiers.Ring.{
  AreNames, add_if-AreNames, expand_ring-AreNames, sort_by-All, sort_by-Distinct, split-Distinct,
}

module _ {N : Type 0} (f : Floats N) (prices : Prices N) (is_digit : ℕ → Bool)
    (available : Dict Text (Option Text)) (p : RoutingPolicy N) where
  abbrev benched : Text → Bool
  benched n = is_benched f prices is_digit available p n

  abbrev named : List Text → Text → Bool
  named bases n = any (λ base. names_it base n) bases

  abbrev permitted : Bool → List Text → Text → Bool
  permitted strict bases n =
      contains n available && not (benched n) && (not strict || named bases n)

  -- A live provider that is not benched, that a strict tier names, and whose context is large enough.
  abbrev pub eligible : TierSpec N → Dict Text ℕ → ℕ → Text → Bool
  eligible spec limits need n =
      permitted spec.strict spec.order n
      && (not (filters_context limits need) || not (too_small limits need n))

  abbrev IsAllowed : Bool → List Text → Text → Type 0
  IsAllowed strict bases n = permitted strict bases n ≡ true

  ring-IsAllowed :
      (bases : List Text)
      → AreNames (IsAllowed true bases) (expand_ring benched (keys_of available) [] bases)
  ring-IsAllowed bases =
      expand_ring-AreNames (IsAllowed true bases) benched (keys_of available) [] bases
        (All-map (λ base. (q : Text → Bool) → q base ≡ true → any q bases ≡ true)
          (λ base.
            All (λ n. (not (benched n) && names_it base n) ≡ true → IsAllowed true bases n)
              (keys_of available))
          bases
          (λ base found.
            All-map (λ n. contains n available ≡ true)
              (λ n. (not (benched n) && names_it base n) ≡ true → IsAllowed true bases n)
              (keys_of available) (λ n live e. ground (arith, live, e, found (λ b. names_it b n)))
              (keys-contains available))
          (any-item bases))
        (tt, tt)

  ring_of-IsAllowed :
      (strict : Bool) (bases : List Text)
      → AreNames (IsAllowed strict bases) (ring_of strict benched (keys_of available) bases)
  unfolding ring_of
  ring_of-IsAllowed true bases = ring-IsAllowed bases
  ring_of-IsAllowed false bases =
      let ring = expand_ring benched (keys_of available) [] bases in
      let (all, distinct) = ring-IsAllowed bases in
      add_if-AreNames (IsAllowed false bases) (λ n. not (benched n)) ring (keys_of available)
        (All-map (λ n. contains n available ≡ true)
          (λ n. not (benched n) ≡ true → IsAllowed false bases n) (keys_of available)
          (λ n live e. ground (arith, live, e)) (keys-contains available))
        (
          All-map (IsAllowed true bases) (IsAllowed false bases) ring (λ n e. ground (arith, e))
              all,
          distinct,
        )

  fitting-AreNames :
      (spec : TierSpec N) (limits : Dict Text ℕ) (need : ℕ) (names : List Text)
      → AreNames (IsAllowed spec.strict spec.order) names
      → AreNames (λ n. eligible spec limits need n ≡ true) (fitting limits need names)
  unfolding fitting
  fitting-AreNames spec limits need names (all, distinct) =
      let P : Text → Type 0 = IsAllowed spec.strict spec.order in
      let fits : Text → Bool = λ n. not (too_small limits need n) in
      let E : Text → Type 0 = λ n. eligible spec limits need n ≡ true in
      elim (Bool-cases (filters_context limits need)) [
        | inr e ↦
            let same : fitting limits need names ≡ names = rw (e, fitting) refl in
            subst (AreNames E) (sym same)
              (All-map P E names (λ n h. ground (arith, h, e)) all, distinct)
        | inl e ↦
            let same : fitting limits need names ≡ keep fits names = rw (e, fitting) refl in
            subst (AreNames E) (sym same) (
              All-map (λ n. P n × (fits n ≡ true)) E (keep fits names)
                  (λ n h. ground (arith, h.0, h.1))
                  (All-zip P (λ n. fits n ≡ true) (keep fits names) (keep-All P fits names all)
                    (keep_passes fits names)),
              keep-Distinct fits names distinct,
            )
      ]

  by_score-AreNames :
      (Q : Text → Type 0) (goal : Text) (dial : N) (names : List Text)
      → AreNames Q names
      → AreNames Q (by_score f prices is_digit available p.selection goal dial names)
  unfolding by_score
  by_score-AreNames Q goal dial names (all, distinct) = elim (Bool-cases (goal == codes "order")) [
    | inl e ↦ rw e (all, distinct)
    | inr e ↦ rw e (sort_by-All f.less _ Q names all, sort_by-Distinct f.less _ names distinct)
  ]

  pinned_first-AreNames :
      (Q : Text → Type 0) (pins names : List Text)
      → AreNames Q names
      → AreNames Q (pinned_first f prices is_digit available pins names)
  unfolding pinned_first
  pinned_first-AreNames Q pins names (all, distinct) =
      let first : Text → Bool = λ n. any (λ pin. match_tokens (translate 0 pin) n) pins in
      (
        All-append Q (keep first names) (keep (λ n. not (member n (keep first names))) names)
            (keep-All Q first names all)
            (keep-All Q (λ n. not (member n (keep first names))) names all),
        split-Distinct first names distinct,
      )

  -- Every candidate of a declared tier is a provider that the gateway has and that the file does not
  -- bench, a strict tier names it, its context window holds the prompt if it is known, and no candidate
  -- stands twice. The objective, the dial, the prices and the pins do not matter.
  pub order_for-eligible :
      (tier : Text) (spec : TierSpec N) (limits : Dict Text ℕ) (est : ℕ) (objective : Option Text)
      (tradeoff : Option N)
      → lookup tier p.tiers ≡ some spec
      → All
          (λ n. eligible spec limits (max spec.min_ctx est) n ≡ true)
          (order_for f prices is_digit available p tier limits est objective tradeoff).0
        × Distinct (order_for f prices is_digit available p tier limits est objective tradeoff).0
  unfolding order_for order_in
  order_for-eligible tier spec limits est objective tradeoff e =
      let goal = objective_of objective spec.objective p.selection.objective in
      let dial = tradeoff_of tradeoff spec.tradeoff p.selection.tradeoff (f.ratio 1 2) in
      rw (e, order_for)
        (pinned_first-AreNames _ p.selection.pin_first _ (
          by_score-AreNames _ goal dial _ (
            fitting-AreNames spec limits (max spec.min_ctx est) _
              (ring_of-IsAllowed spec.strict spec.order))))
