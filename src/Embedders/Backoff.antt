-- ===== src/Embedders/Backoff.antt =====
-- How long an embedder that fails is left alone.
use glc_v.Prelude.{
  ℕ, zero, suc, ◌+◌, ◌*◌, ◌≤◌, ◌<◌, min, ◌≡◌, sym, subst, ◌≢◌, true, none, arith, ltb, lt→ltb, ℕ-Eq,
  String-Eq, ×-Eq, List-Eq, Time, second,
}
use glc_v.Text.{Text}
use glc_v.Embedders.{EmbedRateState, embed_refusal, steps_at, backoff_secs, mark_failure}

backoff_secs_range : (step : ℕ) → (5 ≤ backoff_secs step) × (backoff_secs step ≤ 15)
unfolding backoff_secs
backoff_secs_range zero = (omega arith, omega arith)
backoff_secs_range (suc zero) = (omega arith, omega arith)
backoff_secs_range (suc (suc n)) =
    let last : min (suc (suc n)) 2 ≡ 2 = omega arith in
    subst (λ i. (5 ≤ steps_at i) × (steps_at i ≤ 15)) (sym last) (omega arith, omega arith)

-- After a failure, and whatever failures came before it, the embedder is refused during the next five
-- seconds, and its backoff ends within fifteen.
pub mark_failure-range :
    (now later : Time) (why : Text) (st : EmbedRateState)
    → later < now + 5 * second
    → (embed_refusal later (mark_failure now why st) ≢ none)
      × ((mark_failure now why st).unavailable_until ≤ now + 15 * second)
unfolding mark_failure embed_refusal
mark_failure-range now later why st soon =
    let (least, most) = backoff_secs_range st.backoff_step in
    let ends = now + backoff_secs st.backoff_step * second in
    let early : ltb later ends ≡ true = lt→ltb later ends (omega (arith, soon, least)) in
    ((λ e. absurd (ground (arith, e, early))), omega (arith, most))
