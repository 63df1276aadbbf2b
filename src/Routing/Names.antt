-- ===== src/Routing/Names.antt =====
-- glc/routing/core.py: the logical names of providers and the candidates that they stand for.
use glc_v.Prelude.{
  String, not, ◌||◌, Option, none, some, List, [], ◌∷◌, ◌++◌, map, if◌then◌else◌, is_empty, keep,
  any, ◌==◌, ℕ-Eq, String-Eq, ×-Eq, List-Eq,
}
use glc_v.Prelude.Dict.{Dict, lookup, contains}
use glc_v.Glob.{codes}
use glc_v.Policy.Text.{starts_with}
use glc_v.Routing.{Provider, Router, shortcuts}

-- `resolve`, over the host's `str.lower`
unfoldable pub resolve : (String → String) → String → Option String
unfolding lookup
resolve lower name = if name == "" then none else lookup (lower name) shortcuts

-- `_pool_of`
unfoldable pub pool_of : Dict String Provider → String → List String
unfolding starts_with
pool_of providers base =
    keep (λ p. starts_with (codes base ++ codes "_") (codes p)) (map (λ e. e.0) providers)

unfoldable pub new_router : Dict String Provider → List String → Router
unfolding contains pool_of
new_router providers order = record {
  providers = providers;
  order = keep (λ p. contains p providers || not (is_empty (pool_of providers p))) order;
  state = [];
}

-- `resolve(name) or name`
abbrev pub base_name : (String → String) → String → String
base_name lower name = elim (resolve lower name) [ none ↦ name | some base ↦ base ]

unfoldable pub instances_of : Dict String Provider → String → List String
unfolding contains pool_of
instances_of providers base = if contains base providers then base ∷ [] else pool_of providers base

-- The inner loop of `expand`; `seen` holds what `out` holds.
unfoldable pub add_new : List String → List String → List String
add_new out [] = out
add_new out (x ∷ xs) = add_new (if any (λ y. y == x) out then out else out ++ x ∷ []) xs

unfoldable pub expand_onto :
    (String → String) → Dict String Provider → List String → List String → List String
unfolding add_new instances_of resolve
expand_onto lower providers out [] = out
expand_onto lower providers out (name ∷ names) =
    expand_onto lower providers (add_new out (instances_of providers (base_name lower name))) names

unfoldable pub expand : (String → String) → Router → List String → List String
unfolding expand_onto
expand lower r names = expand_onto lower r.providers [] names

abbrev candidates_for : (String → String) → Router → Option String → List String
candidates_for lower r none = expand lower r r.order
candidates_for lower r (some name) =
    if name == "" then expand lower r r.order else expand lower r (name ∷ [])

-- `candidates`
unfoldable pub candidates : (String → String) → Router → Option String → List String
unfolding expand
candidates lower r override = candidates_for lower r override
