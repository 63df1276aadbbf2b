-- ===== src/Chat.antt =====
-- glc/routes/chat.py: the candidate ring of `chat`, wrapped in the cascade loop. The router's pick, the
-- admission, the provider's answer and the writes to the ledger are the operations of a `World`, which
-- may answer differently at every step.
pub mod Demands
pub mod Fits
pub mod Backoff
pub mod Images
mod Tests
mod Samples
mod Failures
pub mod Rounds
pub mod Classify
pub mod Sizes
pub mod Schema
pub mod Sanity
pub mod Service
use glc_v.Prelude.{
  ℕ, zero, suc, ◌+◌, Bool, true, false, not, ◌&&◌, ◌||◌, Option, none, some, List, [], ◌∷◌,
  if◌then◌else◌, length, is_empty, keep, ◌==◌, ℕ-Eq, String-Eq, ×-Eq, List-Eq, Result, ◌>>=◌, ok,
  raise,
}
use glc_v.Prelude.Dict.{Dict, lookup, contains}
use glc_v.Glob.{codes}
use glc_v.Text.{Text}
use glc_v.Tiers.{RoutingPolicy, or_text, given}
use glc_v.Prelude.Floats.{Floats}
use glc_v.Tiers.Order.{Prices, is_some}
use glc_v.Tiers.Candidates.{score, order_for}
use glc_v.Tiers.Cascade.{
  Answer, Assessment, trigger_schema, Verdict, assess, fired, should_escalate, escalate_to,
}

-- What a provider's call comes to. An answer has been validated, and asked for again if it did not
-- match its schema.
pub data Outcome : Type 0 where
  answered : Answer → Outcome
  streaming : Outcome
  -- ProviderError, with its `retryable`
  provider_error : Bool → Outcome
  -- any other exception, and an HTTPException
  exception : Outcome
  http_error : ℕ → Outcome

-- What the ring calls: `pick` with the attempts that it notes, `admit`, the provider, and the ledger rows
-- of an answer and of a failure.
pub record World (S : Type 0) : Type 0 where
  pub pick : List Text → S → Option Text × S
  pub admit : Text → S → Bool × S
  pub call : Text → Option Text → S → Outcome × S
  pub record_answer : Text → S → S
  pub record_failure : Text → S → S
  -- `rtr.expand`
  pub expand : List Text → List Text

-- Of the request: `no_escalation` is `req.escalate is False`.
pub record Request (N : Type 0) : Type 0 where
  pub auto_route : Option Text
  pub no_escalation : Bool
  pub explicit_override : Bool
  pub est_input : ℕ
  pub tradeoff : Option N

-- The variables of the loops; `failed` and `refused` tell whether `last_err` and `last_refusal` are set.
pub record Dispatch (S : Type 0) : Type 0 where
  pub world : S
  pub candidates : List Text
  pub tier : Option Text
  pub escalations : ℕ
  pub failed : Bool
  pub refused : Bool

pub data Reply : Type 0 where
  served : Text → Option Text → ℕ → Reply
  streamed : Text → Reply
  error : ℕ → Reply

-- One turn of the ring: it returns or raises, breaks without a provider, escalates, or goes on.
pub data Turn (S : Type 0) : Type 0 where
  stop : Reply → Turn S
  leave climb next : Dispatch S → Turn S

-- `TIER_TO_ORDER`
abbrev pub tier_to_order : Dict Text (List Text)
tier_to_order =
    (
      codes "TINY",
      codes "github"
          ∷ codes "openrouter"
          ∷ codes "groq"
          ∷ codes "nvidia"
          ∷ codes "cerebras"
          ∷ codes "gemini"
          ∷ codes "ollama"
          ∷ [],
    )
    ∷ (
      codes "LARGE",
      codes "gemini"
          ∷ codes "groq"
          ∷ codes "nvidia"
          ∷ codes "cerebras"
          ∷ codes "github"
          ∷ codes "openrouter"
          ∷ codes "ollama"
          ∷ [],
    )
    ∷ []

-- `ring or []`, for a tier that is not in the table
abbrev or_no_ring : Option (List Text) → List Text
or_no_ring none = []
or_no_ring (some ring) = ring

module _ {S N : Type 0} (w : World S) (f : Floats N) (prices : Prices N) (is_digit : ℕ → Bool)
    (lower : Text → Text) (available : Dict Text (Option Text)) (limits : Dict Text ℕ)
    (pol : Option (RoutingPolicy N)) (req : Request N) where
  -- `_tier_candidates`
  unfoldable pub tier_candidates : RoutingPolicy N → Text → List Text
  unfolding order_for contains lookup
  tier_candidates p tier =
      if contains tier p.tiers
      then (order_for f prices is_digit available p tier limits req.est_input none req.tradeoff).0
      else w.expand (or_no_ring (lookup tier tier_to_order))

  -- `candidates = [c for c in candidates if c != name]`
  abbrev pub without : Text → Dispatch S → Dispatch S
  without name d = record d { candidates = keep (λ c. not (c == name)) d.candidates }

  abbrev pub failing : Text → Dispatch S → Dispatch S
  failing name d = record (without name d) { world = w.record_failure name d.world; failed = true }

  -- The handler of any exception.
  abbrev pub raised : Text → Dispatch S → Turn S
  raised name d = if req.explicit_override then stop (error 502) else next (failing name d)

  abbrev pub escalates : Verdict → Bool
  escalates (escalate_to tier fired) = true
  escalates _ = false

  abbrev schema_assessment : Assessment N
  schema_assessment = record { score = f.ratio 1 10; signals = trigger_schema ∷ [] }

  abbrev may_go_up : RoutingPolicy N → Option Text → ℕ → Result Bool
  may_go_up p none so_far = ok false
  may_go_up p (some tier) so_far =
      should_escalate f lower p req.auto_route tier schema_assessment so_far >>= λ v.
      ok (escalates v)

  -- `_may_escalate`, for a schema failure
  unfoldable pub may_escalate : RoutingPolicy N → Dispatch S → Result Bool
  unfolding should_escalate
  may_escalate p d =
      if req.no_escalation then ok false else may_go_up p (given d.tier) d.escalations

  -- Whether an answer is kept for the cascade to judge: one that fails its schema only if it may
  -- escalate.
  unfoldable pub passes_schema : Option (RoutingPolicy N) → Dispatch S → Answer → Result Bool
  unfolding may_escalate
  passes_schema none d a = ok (not a.schema_failed)
  passes_schema (some p) d a = if a.schema_failed then may_escalate p d else ok true

  abbrev pub serve_it : Text → Dispatch S → Turn S
  serve_it name d = stop (served name d.tier d.escalations)

  abbrev pub climb_to : RoutingPolicy N → Text → Dispatch S → Turn S
  climb_to p tier d = climb (record d {
    tier = some tier;
    escalations = d.escalations + 1;
    candidates = tier_candidates p tier;
  })

  abbrev pub act : RoutingPolicy N → Text → Dispatch S → Verdict → Turn S
  act p name d (escalate_to tier fired) =
      if not req.no_escalation && is_some (given d.tier) then climb_to p tier d else serve_it name d
  act p name d _ = serve_it name d

  abbrev pub follow_verdict : RoutingPolicy N → Text → Dispatch S → Result Verdict → Turn S
  follow_verdict p name d (raise e) = raised name d
  follow_verdict p name d (ok v) = act p name d v

  -- The cascade: was this answer good enough to keep?
  unfoldable pub weigh_answer : Option (RoutingPolicy N) → Text → Dispatch S → Answer → Turn S
  unfolding should_escalate assess tier_candidates
  weigh_answer none name d a = serve_it name d
  weigh_answer (some p) name d a = follow_verdict p name d (
      should_escalate f lower p req.auto_route (or_text d.tier [])
        (assess f lower p.escalation false (some a)) d.escalations)

  abbrev pub take_answer : Text → Dispatch S → Answer → Result Bool → Turn S
  take_answer name d a (raise e) = raised name d
  take_answer name d a (ok false) = stop (error 503)
  take_answer name d a (ok true) =
      weigh_answer pol name (record d { world = w.record_answer name d.world }) a

  unfoldable pub handle : Text → Dispatch S → Outcome → Turn S
  unfolding passes_schema weigh_answer
  handle name d (answered a) = take_answer name d a (passes_schema pol d a)
  handle name d streaming = stop (streamed name)
  handle name d exception = raised name d
  handle name d (http_error code) = stop (error code)
  handle name d (provider_error retryable) =
      if req.explicit_override || not retryable then stop (error 502) else next (failing name d)

  unfoldable pub turn_with : Text → Dispatch S → Turn S
  unfolding handle
  turn_with name d =
      let (admitted, s) = w.admit name d.world in
      let (outcome, t) = w.call name d.tier s in
      if admitted
      then handle name (record d { world = t }) outcome
      else next (record (without name d) { world = s; refused = true })

  abbrev pub picked : Dispatch S → Option Text → Turn S
  picked d none = leave d
  picked d (some name) = turn_with name d

  -- The body of the inner loop.
  unfoldable pub turn : Dispatch S → Turn S
  unfolding turn_with
  turn d = let (choice, s) = w.pick d.candidates d.world in picked (record d { world = s }) choice

  abbrev pub go_on : (Dispatch S → Turn S) → Turn S → Turn S
  go_on again (stop r) = stop r
  go_on again (leave d) = leave d
  go_on again (climb d) = climb d
  go_on again (next d) = again d

  -- The inner loop, for so many turns.
  unfoldable pub ring : ℕ → Dispatch S → Turn S
  unfolding turn
  ring zero d = leave d
  ring (suc n) d = go_on (ring n) (turn d)

  -- What is raised behind the loops.
  abbrev pub give_up : Dispatch S → Reply
  give_up d = if d.refused && not d.failed then error 402 else error 503

  -- The loops end, unless the ring has escalated to a tier with candidates.
  abbrev pub go_up : (Dispatch S → Option Reply) → Turn S → Option Reply
  go_up again (stop r) = some r
  go_up again (leave d) = some (give_up d)
  go_up again (next d) = some (give_up d)
  go_up again (climb d) = if is_empty d.candidates then some (give_up d) else again d

  -- The outer loop on fuel; none where the fuel runs out.
  unfoldable pub rounds : ℕ → Dispatch S → Option Reply
  unfolding ring
  rounds zero d = none
  rounds (suc n) d = go_up (rounds n) (ring (length d.candidates + 1) d)
