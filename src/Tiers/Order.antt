-- ===== src/Tiers/Order.antt =====
-- glc/routing/policy.py: `order_for`, the candidates of a tier in the order in which they are tried, and
-- the rejected ones with the reason. Floating-point numbers, prices and `str.isdigit` of a character are
-- the host's.
use glc_v.Prelude.{
  ℕ, Bool, true, false, not, ◌&&◌, ◌||◌, Option, none, some, List, [], ◌∷◌, ◌++◌, ltb,
  if◌then◌else◌, is_empty, keep, any, ◌==◌, ℕ-Eq, String-Eq, ×-Eq, List-Eq, member,
}
use glc_v.Prelude.Dict.{Dict, lookup}
use glc_v.Text.{Text}
use glc_v.Glob.{codes}
use glc_v.Policy.Text.{starts_with}
use glc_v.Tiers.{given}

-- `glc.economics.pricing` for a provider and its model.
pub record Prices (N : Type 0) : Type 0 where
  pub input_usd_per_mtok : Text → Option Text → N
  pub output_usd_per_mtok : Text → Option Text → N
  pub quality_for : Text → Option Text → N

pub data Rejection : Type 0 where
  undeclared_tier : Rejection
  benched_by : Text → Rejection
  not_in_ring : Text → Rejection
  context_too_small : ℕ → ℕ → Rejection

-- The candidates, and the rejected with the reasons.
abbrev pub Ordered : Type 0
Ordered = List Text × List (Text × Rejection)

-- `name.rsplit("_", 1)`, none without an underscore
unfoldable pub split_last : Text → Option (Text × Text)
split_last [] = none
split_last (c ∷ cs) = elim (split_last cs) [
  | some (head, tail) ↦ some (c ∷ head, tail)
  | none ↦ if c == b'_' then some ([], cs) else none
]

-- `tail.isdigit()`
abbrev is_number : (ℕ → Bool) → Text → Bool
is_number is_digit [] = false
is_number is_digit (c ∷ cs) = not (any (λ x. not (is_digit x)) (c ∷ cs))

-- `_base`
unfoldable pub base_of : (ℕ → Bool) → Text → Text
unfolding split_last
base_of is_digit name = elim (split_last name) [
  | none ↦ name
  | some (head, tail) ↦ if is_number is_digit tail then head else name
]

-- `unavailable.get(_base(name)) or unavailable.get(name)`
unfoldable pub bench_reason : (ℕ → Bool) → Dict Text Text → Text → Option Text
unfolding base_of lookup
bench_reason is_digit unavailable name = elim (given (lookup (base_of is_digit name) unavailable)) [
  | some reason ↦ some reason
  | none ↦ given (lookup name unavailable)
]

abbrev pub is_some {ℓ} : {A : Type ℓ} → Option A → Bool
is_some none = false
is_some (some a) = true

-- The base name of the ring, or an instance of it.
unfoldable pub names_it : Text → Text → Bool
unfolding starts_with
names_it base name = name == base || starts_with (base ++ codes "_") name

-- A loop that appends each name that passes the test and is not there yet.
unfoldable pub add_if : (Text → Bool) → List Text → List Text → List Text
add_if test ordered [] = ordered
add_if test ordered (n ∷ ns) =
    add_if test (if test n && not (member n ordered) then ordered ++ n ∷ [] else ordered) ns

-- The expansion of the declared ring.
unfoldable pub expand_ring : (Text → Bool) → List Text → List Text → List Text → List Text
unfolding add_if names_it
expand_ring benched names ordered [] = ordered
expand_ring benched names ordered (base ∷ bases) =
    expand_ring benched names (add_if (λ n. not (benched n) && names_it base n) ordered names) bases

-- The ring, and behind it all others unless the tier is strict.
unfoldable pub ring_of : Bool → (Text → Bool) → List Text → List Text → List Text
unfolding expand_ring
ring_of strict benched names bases =
    let ring = expand_ring benched names [] bases in
    if strict then ring else add_if (λ n. not (benched n)) ring names

-- `max_ctx` of the limits, 0 for none
abbrev pub max_ctx_of : Dict Text ℕ → Text → ℕ
max_ctx_of limits name = elim (lookup name limits) [ none ↦ 0 | some n ↦ n ]

unfoldable pub too_small : Dict Text ℕ → ℕ → Text → Bool
unfolding lookup
too_small limits need name = not (max_ctx_of limits name == 0) && ltb (max_ctx_of limits name) need

-- `limits and need_ctx`
abbrev pub filters_context : Dict Text ℕ → ℕ → Bool
filters_context limits need = not (is_empty limits) && not (need == 0)

unfoldable pub fitting : Dict Text ℕ → ℕ → List Text → List Text
unfolding too_small
fitting limits need names =
    if filters_context limits need then keep (λ n. not (too_small limits need n)) names else names

-- `sort` by a key, which leaves names with equal keys in their order.
module _ {N : Type 0} (less : N → N → Bool) (key : Text → N) where
  unfoldable pub place : Text → List Text → List Text
  place x [] = x ∷ []
  place x (y ∷ ys) = let rest = place x ys in if less (key y) (key x) then y ∷ rest else x ∷ y ∷ ys

  unfoldable pub sort_by : List Text → List Text
  unfolding place
  sort_by [] = []
  sort_by (x ∷ xs) = place x (sort_by xs)
