-- ===== src/Routing/Expand.antt =====
-- glc/routing/core.py: the expansion of logical names to live instances.
use glc_v.Glob.{codes}
use glc_v.Policy.Text.{starts_with}
use glc_v.Prelude.{
  String, ◌≡◌, inl, inr, true, Option, none, some, List, [], ◌∷◌, ◌++◌, map, Bool-cases, any, All,
  All-append, ◌==◌, ℕ-Eq, String-Eq, ×-Eq, List-Eq, Distinct, snoc-Distinct, absent-ne, keep-All,
}
use glc_v.Prelude.Dict.{Dict, contains, keys-contains}
use glc_v.Routing.Names.{pool_of, base_name, instances_of, add_new, expand_onto, expand, candidates}
use glc_v.Routing.{Provider, Router}

-- The name is that of a provider.
abbrev pub IsLive : Dict String Provider → String → Type 0
IsLive providers name = contains name providers ≡ true

module _ (providers : Dict String Provider) where
  -- What the loop of `expand` keeps about `out`.
  abbrev IsExpansion : List String → Type 0
  IsExpansion out = Distinct out × All (IsLive providers) out

  add_new-IsExpansion :
      (xs out : List String)
      → All (IsLive providers) xs
      → IsExpansion out
      → IsExpansion (add_new out xs)
  unfolding add_new
  add_new-IsExpansion [] out live h = h
  add_new-IsExpansion (x ∷ xs) out (l, live) h = elim (Bool-cases (any (λ y. y == x) out)) [
    | inl e ↦ rw e (add_new-IsExpansion xs out live h)
    | inr e ↦ rw e (
        add_new-IsExpansion xs (out ++ x ∷ []) live (
          snoc-Distinct out x h.0 (absent-ne x out e),
          All-append (IsLive providers) out (x ∷ []) h.1 (l, tt),
        ))
  ]

  instances_of-IsLive : (base : String) → All (IsLive providers) (instances_of providers base)
  unfolding instances_of pool_of
  instances_of-IsLive base = elim (Bool-cases (contains base providers)) [
    | inl e ↦ rw e (e, tt)
    | inr e ↦ rw e (
        keep-All (IsLive providers) (λ p. starts_with (codes base ++ codes "_") (codes p))
          (map (λ e. e.0) providers) (keys-contains providers))
  ]

  expand_onto-IsExpansion :
      (lower : String → String) (names out : List String)
      → IsExpansion out
      → IsExpansion (expand_onto lower providers out names)
  unfolding expand_onto
  expand_onto-IsExpansion lower [] out h = h
  expand_onto-IsExpansion lower (name ∷ names) out h =
      expand_onto-IsExpansion lower names
        (add_new out (instances_of providers (base_name lower name)))
        (add_new-IsExpansion (instances_of providers (base_name lower name)) out
          (instances_of-IsLive (base_name lower name)) h)

expand-IsExpansion :
    (lower : String → String) (r : Router) (names : List String)
    → IsExpansion r.providers (expand lower r names)
unfolding expand
expand-IsExpansion lower r names = expand_onto-IsExpansion r.providers lower names [] (tt, tt)

-- Whatever logical names are asked for, the candidates are names of providers, and none stands
-- twice.
pub candidates-Distinct :
    (lower : String → String) (r : Router) (override : Option String)
    → Distinct (candidates lower r override)
      × All (IsLive r.providers) (candidates lower r override)
unfolding candidates
candidates-Distinct lower r none = expand-IsExpansion lower r r.order
candidates-Distinct lower r (some name) = elim (Bool-cases (name == "")) [
  | inl e ↦ rw e (expand-IsExpansion lower r r.order)
  | inr e ↦ rw e (expand-IsExpansion lower r (name ∷ []))
]
