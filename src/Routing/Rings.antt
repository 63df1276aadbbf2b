-- ===== src/Routing/Rings.antt =====
-- glc/routing/core.py: the loops of `Router.pick` and `RouterPool.pick` over their candidates.
use glc_v.Prelude.{
  ℕ, String, Bool, Option, none, some, List, [], ◌∷◌, ltb, if◌then◌else◌, ℕ-Eq, String-Eq, ×-Eq,
  List-Eq, Result, ◌>>=◌, key_error, ok, raise, Time,
}
use glc_v.Prelude.Dict.{Dict, lookup, insert}
use glc_v.Routing.{
  Limits, RateState, Provider, new_state, Refusal, can_use, no_capability, prompt_too_long,
}

-- `missing[0]`
unfoldable pub first_missing : List String → Dict String Bool → Option String
unfolding lookup
first_missing [] caps = none
first_missing (c ∷ cs) caps =
    let rest = first_missing cs caps in
    elim (lookup c caps) [ none ↦ some c | some b ↦ if b then rest else some c ]

-- `self.state[name]`, which the defaultdict creates
abbrev pub state_or_new : Option RateState → Time → RateState
state_or_new none now = new_state now
state_or_new (some st) now = st

-- What a round tells (none where the provider can be used), and the rate states after it.
abbrev pub Tried : Type 0
Tried = Option Refusal × Dict String RateState

-- The provider that was chosen, the attempts before it, and the rate states.
abbrev pub Picked : Type 0
Picked = (Option String × List (String × Refusal)) × Dict String RateState

abbrev pub passed_over : String → Refusal → Picked → Picked
passed_over name why ((chosen, attempts), states) = ((chosen, (name, why) ∷ attempts), states)

-- The loop over the candidates that both pools run.
unfoldable pub ring :
    (String → Dict String RateState → Result Tried)
    → List String
    → Dict String RateState
    → Result Picked
ring try [] states = ok ((none, []), states)
ring try (name ∷ names) states = try name states >>= λ tried. elim tried.0 [
  | none ↦ ok ((some name, []), tried.1)
  | some why ↦ ring try names tried.1 >>= λ rest. ok (passed_over name why rest)
]

module _ (table : Dict String Limits) (providers : Dict String Provider) (est : ℕ)
    (required : List String) (now : Time) where
  abbrev pub usable : String → Limits → Dict String RateState → Tried
  usable name l states =
      let used = can_use l est now (state_or_new (lookup name states) now) in
      (used.0, insert name used.1 states)

  abbrev pub try_known : String → Limits → Provider → Dict String RateState → Tried
  try_known name l p states = elim (first_missing required p.capabilities) [
    | some c ↦ (some (no_capability c), states)
    | none ↦
        if ltb l.max_ctx est
        then (some (prompt_too_long est l.max_ctx), states)
        else usable name l states
  ]

  -- One round of the loop of `pick`.
  unfoldable pub try_candidate : String → Dict String RateState → Result Tried
  unfolding lookup can_use insert first_missing
  try_candidate name states = elim (lookup name table) [
    | none ↦ raise key_error
    | some l ↦ elim (lookup name providers) [
      | none ↦ raise key_error
      | some p ↦ ok (try_known name l p states)
    ]
  ]

  -- One round of `RouterPool.pick`, which asks for no capability.
  unfoldable pub try_router : String → Dict String RateState → Result Tried
  unfolding lookup can_use insert
  try_router name states = elim (lookup name table) [
    | none ↦ raise key_error
    | some l ↦ ok (usable name l states)
  ]

  -- `Router.pick`
  unfoldable pub pick : List String → Dict String RateState → Result Picked
  unfolding try_candidate ring
  pick names states = ring try_candidate names states

  -- `RouterPool.pick`
  unfoldable pub pool_pick : List String → Dict String RateState → Result Picked
  unfolding try_router ring
  pool_pick names states = ring try_router names states
