-- ===== src/Embedders.antt =====
-- glc/embedders.py: the rate state of an embedder, and the failover ring. The clock and the embedders'
-- answers are the operations of a `EmbedWorld`. Times are microseconds.
mod Tests
pub mod Failover
pub mod Backoff
use glc_v.Prelude.{
  ℕ, take, ◌+◌, ◌-◌, ◌*◌, min, Bool, true, not, ◌&&◌, Option, none, some, List, [], ◌∷◌, ◌++◌, ltb,
  leb, if◌then◌else◌, length, any, get_elem?, ◌==◌, ℕ-Eq, String-Eq, ×-Eq, List-Eq, Time, second,
}
use glc_v.Text.{Text}
use glc_v.Routing.{drop_calls}
use glc_v.Tiers.{given}
use glc_v.Tiers.Order.{is_some}

-- `BACKOFF_STEPS`, in seconds
abbrev pub backoff_steps : List ℕ
backoff_steps = 5 ∷ 10 ∷ 15 ∷ []

pub record EmbedRateState : Type 0 where
  pub rpm : ℕ
  pub cooldown : Time
  pub calls_minute : List Time
  pub last_call : Time
  pub unavailable_until : Time
  pub unavailable_reason : Text
  pub backoff_step : ℕ

abbrev pub new_embed_state : ℕ → Time → EmbedRateState
new_embed_state rpm cooldown = record {
  rpm = rpm;
  cooldown = cooldown;
  calls_minute = [];
  last_call = 0;
  unavailable_until = 0;
  unavailable_reason = [];
  backoff_step = 0;
}

pub data EmbedRefusal : Type 0 where
  in_backoff : Text → Time → EmbedRefusal
  in_cooldown : Time → EmbedRefusal
  over_rpm : ℕ → EmbedRefusal

-- `_gc`
unfoldable pub embed_gc : Time → EmbedRateState → EmbedRateState
unfolding drop_calls
embed_gc now st = record st { calls_minute = drop_calls now st.calls_minute }

-- The tests of `can_use` behind `_gc`; none where the embedder can be used.
unfoldable pub embed_refusal : Time → EmbedRateState → Option EmbedRefusal
embed_refusal now st =
    if ltb now st.unavailable_until
    then some (in_backoff st.unavailable_reason (st.unavailable_until - now))
    else if ltb 0 st.cooldown && ltb now (st.last_call + st.cooldown)
    then some (in_cooldown (st.last_call + st.cooldown - now))
    else if ltb 0 st.rpm && leb st.rpm (length st.calls_minute)
    then some (over_rpm st.rpm)
    else none

-- `record`, a success
unfoldable pub record_success : Time → EmbedRateState → EmbedRateState
record_success now st = record st {
  calls_minute = st.calls_minute ++ now ∷ [];
  last_call = now;
  backoff_step = 0;
  unavailable_until = 0;
  unavailable_reason = [];
}

abbrev pub steps_at : ℕ → ℕ
steps_at i = elim (get_elem? backoff_steps i) [ none ↦ 0 | some s ↦ s ]

-- The seconds of a failure: the last step sticks.
unfoldable pub backoff_secs : ℕ → ℕ
backoff_secs step = steps_at (min step (length backoff_steps - 1))

unfoldable pub mark_failure : Time → Text → EmbedRateState → EmbedRateState
unfolding backoff_secs
mark_failure now reason st = record st {
  backoff_step = st.backoff_step + 1;
  unavailable_until = now + backoff_secs st.backoff_step * second;
  unavailable_reason = take 80 reason;
}

pub record Embedder : Type 0 where
  pub name : Text
  pub state : EmbedRateState

-- A vector, or the exception's text.
pub data EmbedReply (V : Type 0) : Type 0 where
  embedded : V → EmbedReply V
  embed_error : Text → EmbedReply V

pub record EmbedWorld (S V : Type 0) : Type 0 where
  pub now : S → Time
  pub ask : Text → S → EmbedReply V × S

pub data AttemptReason : Type 0 where
  refused_for : EmbedRefusal → AttemptReason
  failed_with : Text → AttemptReason

-- What the ring returns: the embedder and its vector, or the error that it raises (with the status of an
-- EmbedderError), and the attempts.
pub data EmbedOutcome (V : Type 0) : Type 0 where
  found : Text → V → EmbedOutcome V
  embedder_error : ℕ → EmbedOutcome V
  passed_error : Text → EmbedOutcome V

-- The outcome, the attempts, the embedders with their states, and the world.
abbrev pub Ran : Type 0 → Type 0 → Type 0
Ran S V = EmbedOutcome V × List (Text × AttemptReason) × List Embedder × S

module _ {S V : Type 0} (w : EmbedWorld S V) where
  abbrev pub before : Embedder → Ran S V → Ran S V
  before e (o, attempts, es, s) = (o, attempts, e ∷ es, s)

  abbrev pub attempt : Embedder → AttemptReason → Ran S V → Ran S V
  attempt e why (o, attempts, es, s) = (o, (e.name, why) ∷ attempts, e ∷ es, s)

  -- Whether the embedder is a candidate.
  abbrev pub is_candidate : Option Text → Embedder → Bool
  is_candidate none e = true
  is_candidate (some name) e = e.name == name

  -- What follows an answer; `rest` runs the other candidates.
  abbrev pub take_reply :
      Bool → Embedder → List Embedder → (S → Ran S V) → EmbedReply V → S → Ran S V
  take_reply pinned e es rest (embedded v) s =
      (found e.name v, [], record e { state = record_success (w.now s) e.state } ∷ es, s)
  take_reply pinned e es rest (embed_error why) s =
      let reason = take 200 why in
      let failed = record e { state = mark_failure (w.now s) reason e.state } in
      if pinned
      then (passed_error why, (e.name, failed_with reason) ∷ [], failed ∷ es, s)
      else attempt failed (failed_with reason) (rest s)

  -- What a candidate with a collected state comes to.
  abbrev pub try_embedder :
      Bool → Embedder → List Embedder → (S → Ran S V) → Option EmbedRefusal → S → Ran S V
  try_embedder pinned e es rest (some why) s =
      if pinned
      then (embedder_error 429, (e.name, refused_for why) ∷ [], e ∷ es, s)
      else attempt e (refused_for why) (rest s)
  try_embedder pinned e es rest none s =
      let (reply, t) = w.ask e.name s in take_reply pinned e es rest reply t

  -- The loop over the candidates; what is no candidate stays as it is.
  unfoldable pub run_ring : Option Text → List Embedder → S → Ran S V
  unfolding embed_gc embed_refusal record_success mark_failure
  run_ring explicit [] s = (embedder_error 503, [], [], s)
  run_ring explicit (e ∷ es) s =
      let collected = record e { state = embed_gc (w.now s) e.state } in
      let skipped = before e (run_ring explicit es s) in
      let tried =
        try_embedder (is_some explicit) collected es (run_ring explicit es)
          (embed_refusal (w.now s) collected.state) s in
      if is_candidate explicit e then tried else skipped

  -- `embed_with_failover`; an empty name pins nothing
  unfoldable pub embed_with_failover : Option Text → List Embedder → S → Ran S V
  unfolding run_ring
  embed_with_failover explicit es s =
      let pin = given explicit in
      let ran = run_ring pin es s in
      if is_some pin && not (any (is_candidate pin) es)
      then (embedder_error 400, [], es, s)
      else ran
