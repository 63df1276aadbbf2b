-- ===== src/Tiers/Cascade.antt =====
-- glc/routing/policy.py: the cascade, `assess` and `should_escalate`. An answer is what `assess` reads of
-- a provider's result; `lower` is the host's `str.lower`.
use glc_v.Prelude.{
  ℕ, Bool, true, false, not, ◌&&◌, ◌||◌, Option, none, some, List, [], ◌∷◌, ◌++◌, map, ltb, leb,
  if◌then◌else◌, length, is_empty, keep, ◌==◌, ℕ-Eq, String-Eq, ×-Eq, List-Eq, Result, ◌>>=◌, ok,
  member,
}
use glc_v.Prelude.Dict.{Dict, lookup}
use glc_v.Text.{Text, strip}
use glc_v.Glob.{codes}
use glc_v.Policy.Text.{is_part}
use glc_v.Tiers.{Escalation, RoleSpec, RoutingPolicy, given}
use glc_v.Tiers.Ladder.{next_tier, role_spec}
use glc_v.Prelude.Floats.{Floats}

pub record Answer : Type 0 where
  pub text : Text
  pub has_tool_calls : Bool
  pub stop_reason : Option Text
  pub schema_failed : Bool

-- `ConfidenceAssessment`
pub record Assessment (N : Type 0) : Type 0 where
  pub score : N
  pub signals : List Text

abbrev pub trigger_empty : Text
trigger_empty = codes "empty_response"

abbrev pub trigger_failure : Text
trigger_failure = codes "provider_failure"

abbrev pub trigger_low_confidence : Text
trigger_low_confidence = codes "low_confidence"

abbrev pub trigger_schema : Text
trigger_schema = codes "schema_failure"

-- `s.split(":", 1)[0]`
unfoldable pub before_colon : Text → Text
before_colon [] = []
before_colon (c ∷ cs) = let rest = before_colon cs in if c == b':' then [] else c ∷ rest

-- The first marker that stands in the text.
unfoldable pub first_hit : Text → List Text → Option Text
unfolding is_part
first_hit text [] = none
first_hit text (m ∷ ms) = let rest = first_hit text ms in if is_part m text then some m else rest

-- Why there is no escalation, or the tier to go to and what fired.
pub data Verdict : Type 0 where
  disabled role_forbids exhausted at_the_top : Verdict
  nothing_fired : Bool → Verdict
  escalate_to : Text → List Text → Verdict

module _ {N : Type 0} (f : Floats N) (lower : Text → Text) where
  abbrev setting : Dict Text N → Text → N → N
  setting scores name default = elim (lookup name scores) [ none ↦ default | some x ↦ x ]

  abbrev min_from : N → List N → N
  min_from m [] = m
  min_from m (x ∷ xs) = min_from (if f.less x m then x else m) xs

  abbrev min_or : N → List N → N
  min_or default [] = default
  min_or default (x ∷ xs) = min_from x xs

  -- A signal with its score, if it is there.
  abbrev when : Bool → Text → N → List (Text × N)
  when true name value = (name, value) ∷ []
  when false name value = []

  abbrev says_nothing : Answer → Bool
  says_nothing a = is_empty (strip a.text) && not a.has_tool_calls

  abbrev too_short : ℕ → Answer → Bool
  too_short least a = not (least == 0) && ltb (length (strip a.text)) least && not a.has_tool_calls

  abbrev was_truncated : Option Text → Bool
  was_truncated none = false
  was_truncated (some why) = why == codes "max_tokens"

  unfoldable pub hedges : Escalation N → Text → List (Text × N)
  unfolding first_hit lookup
  hedges e text = elim (given (first_hit (lower text) (map lower e.hedge_markers))) [
    | none ↦ []
    | some hit ↦
        (
          codes "hedge:" ++ hit,
          f.sub (f.ratio 1 1) (setting e.scores (codes "hedge_penalty") (f.ratio 35 100)),
        )
        ∷ []
  ]

  -- The signals of an answer, with their scores.
  unfoldable pub signals_of : Escalation N → Answer → List (Text × N)
  unfolding lookup strip hedges
  signals_of e a =
      when a.schema_failed trigger_schema (setting e.scores trigger_schema (f.ratio 1 10))
      ++ (if says_nothing a
          then (trigger_empty, setting e.scores trigger_empty (f.ratio 0 1)) ∷ []
          else when (too_short e.min_response_chars a) (codes "short_response")
              (setting e.scores (codes "short_response") (f.ratio 3 10)))
      ++ when (was_truncated a.stop_reason) (codes "truncated_response")
          (setting e.scores (codes "truncated_response") (f.ratio 45 100))
      ++ hedges e a.text

  abbrev only : Text → Assessment N
  only name = record { score = f.ratio 0 1; signals = name ∷ [] }

  -- `assess`: whether there was an error, and the answer
  unfoldable pub assess : Escalation N → Bool → Option Answer → Assessment N
  unfolding signals_of lookup
  assess e true answer = only trigger_failure
  assess e false none = only trigger_empty
  assess e false (some a) =
      let found = signals_of e a in
      record {
        score = min_or (setting e.scores (codes "default") (f.ratio 1 1)) (map (λ s. s.1) found);
        signals = map (λ s. s.0) found;
      }

  module _ (p : RoutingPolicy N) where
    abbrev is_low : Assessment N → Bool
    is_low a =
        f.less a.score (elim p.escalation.confidence_threshold [ none ↦ f.ratio 0 1 | some t ↦ t ])

    -- The configured triggers that the assessment sets off.
    unfoldable pub fired : Assessment N → List Text
    unfolding before_colon
    fired a =
        keep (λ s. member s p.escalation.triggers || member (before_colon s) p.escalation.triggers)
          a.signals
        ++ (if is_low a && member trigger_low_confidence p.escalation.triggers
            then trigger_low_confidence ∷ []
            else [])

    abbrev pub verdict_at : Assessment N → Option Text → Verdict
    verdict_at a none = at_the_top
    verdict_at a (some next) =
        if is_empty (fired a) then nothing_fired (is_low a) else escalate_to next (fired a)

    abbrev pub role_verdict : Text → Assessment N → ℕ → RoleSpec → Verdict
    role_verdict tier a so_far spec =
        if not spec.escalate
        then role_forbids
        else if leb p.escalation.max_escalations so_far
        then exhausted
        else verdict_at a (next_tier p tier)

    unfoldable pub should_escalate : Option Text → Text → Assessment N → ℕ → Result Verdict
    unfolding role_spec next_tier fired
    should_escalate role tier a so_far =
        if not p.escalation.enabled
        then ok disabled
        else (role_spec p role >>= λ spec. ok (role_verdict tier a so_far spec))
