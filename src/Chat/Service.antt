-- ===== src/Chat/Service.antt =====
-- The cascade serves: a request whose providers answer is not given up for a better tier.
use glc_v.Prelude.{
  ℕ, ◌≡◌, Bool, true, false, Option, some, List, is_empty, ℕ-Eq, String-Eq, ×-Eq, List-Eq, ok,
}
use glc_v.Prelude.Dict.{Dict}
use glc_v.Text.{Text}
use glc_v.Tiers.{Document, RoutingPolicy, load_policy}
use glc_v.Tiers.Loading.{IsDeclared}
use glc_v.Prelude.Floats.{Floats}
use glc_v.Tiers.Order.{Prices}
use glc_v.Tiers.Cascade.{Answer, Verdict, escalate_to}
use glc_v.Chat.{
  World, Request, Reply, Turn, tier_candidates, answered, served, streamed, error, stop, leave,
  climb, next,
}

-- An escalation is to a tier that is declared.
abbrev ClimbsWithin : {N : Type 0} → RoutingPolicy N → Verdict → Type 0
ClimbsWithin p (escalate_to up why) = IsDeclared p.tiers up
ClimbsWithin p _ = Unit

-- The reply is a whole answer of a provider.
abbrev pub IsServed : Reply → Type 0
IsServed (served name tier k) = Unit
IsServed (streamed name) = ⊥
IsServed (error code) = ⊥

module _ {S N : Type 0} (w : World S) (f : Floats N) (prices : Prices N) (is_digit : ℕ → Bool)
    (lower : Text → Text) (available : Dict Text (Option Text)) (limits : Dict Text ℕ)
    (file : Document N) (p : RoutingPolicy N) (req : Request N) (loaded : load_policy file ≡ ok p)
    (picks : (names : List Text) (s : S)
      → is_empty names ≡ false
      → (name : Text) × ((w.pick names s).0 ≡ some name))
    (admits : (name : Text) (s : S) → (w.admit name s).0 ≡ true)
    (answers : (name : Text) (tier : Option Text) (s : S)
      → (a : Answer) × ((w.call name tier s).0 ≡ answered a) × (a.schema_failed ≡ false))
    (manned : (tier : Text)
      → IsDeclared p.tiers tier
      → is_empty (tier_candidates w f prices is_digit lower available limits (some p) req p tier)
        ≡ false) where
  -- A turn that serves, or climbs to a tier with candidates.
  abbrev Serves : Turn S → Type 0
  Serves (stop (served name tier k)) = Unit
  Serves (stop (streamed name)) = ⊥
  Serves (stop (error code)) = ⊥
  Serves (leave d) = ⊥
  Serves (next d) = ⊥
  Serves (climb d) = is_empty d.candidates ≡ false
