-- ===== src/Routing/Quota.antt =====
-- glc/routing/core.py: what `can_use` and `record` guarantee about a provider's quotas.
use mathlib.Core.Path.{subst}
use glc_v.Prelude.{
  ℕ, ◌+◌, ◌-◌, ◌≤◌, ◌<◌, String, ◌≡◌, refl, sym, ap, ◌∙◌, subst, ◌≢◌, inl, inr, Option, none, some,
  List, [], ◌∷◌, arith, Option-cases, length, length-append, All, ℕ-Eq, String-Eq, ×-Eq, List-Eq,
  Time,
}
use glc_v.Routing.{
  Limits, RateState, new_state, drop_calls, roll_day, collect, Refusal, refusal, can_use,
  record_call, mark_unavailable, backoff,
}

-- A use of a provider: `can_use`, and `record` where it says yes.
unfoldable pub use_once : Limits → ℕ → ℕ → Time → RateState → RateState
unfolding can_use record_call
use_once l est tokens now st = elim ((can_use l est now st).0) [
  | none ↦ record_call tokens now (can_use l est now st).1
  | some why ↦ (can_use l est now st).1
]

-- Uses with their estimate, the tokens that are recorded and the time.
abbrev pub Use : Type 0
Use = ℕ × ℕ × Time

unfoldable pub use_all : Limits → List Use → RateState → RateState
unfolding use_once
use_all l [] st = st
use_all l ((est, tokens, now) ∷ uses) st = use_all l uses (use_once l est tokens now st)

-- The counters of the minute and of the day are within the limits.
abbrev pub IsWithin : Limits → RateState → Type 0
IsWithin l st = (length st.calls_minute ≤ l.rpm) × (st.calls_today ≤ l.rpd)

drop_calls-shorter : (now : Time) (ts : List Time) → length (drop_calls now ts) ≤ length ts
unfolding drop_calls
drop_calls-shorter now [] = omega arith
drop_calls-shorter now (t ∷ ts) = ground (arith, drop_calls-shorter now ts)

collect-IsWithin :
    (l : Limits) (now : Time) (st : RateState) → IsWithin l st → IsWithin l (collect now st)
unfolding collect roll_day
collect-IsWithin l now st (a, b) =
    (omega (arith, a, drop_calls-shorter now st.calls_minute), ground (arith, b))

pub unrefused-rpm :
    (l : Limits) (est : ℕ) (now : Time) (st : RateState)
    → refusal l est now st ≡ none
    → (length st.calls_minute < l.rpm) × (st.calls_today < l.rpd)
unfolding refusal
unrefused-rpm l est now st e = (ground arith, ground arith)

pub use_once_allowed :
    (l : Limits) (est tokens : ℕ) (now : Time) (st : RateState)
    → (can_use l est now st).0 ≡ none
    → use_once l est tokens now st ≡ record_call tokens now (can_use l est now st).1
unfolding use_once
use_once_allowed l est tokens now st e = rw (e, use_once) refl

pub use_once_refused :
    (l : Limits) (est tokens : ℕ) (now : Time) (st : RateState) (why : Refusal)
    → (can_use l est now st).0 ≡ some why
    → use_once l est tokens now st ≡ (can_use l est now st).1
unfolding use_once
use_once_refused l est tokens now st why e = rw (e, use_once) refl

use_once-IsWithin :
    (l : Limits) (est tokens : ℕ) (now : Time) (st : RateState)
    → IsWithin l st
    → IsWithin l (use_once l est tokens now st)
unfolding can_use record_call
use_once-IsWithin l est tokens now st h = elim (Option-cases ((can_use l est now st).0)) [
  | inl e ↦
      let (a, b) = unrefused-rpm l est now (collect now st) e in
      subst (IsWithin l) (sym (use_once_allowed l est tokens now st e))
        (omega (arith, a, length-append (collect now st).calls_minute (now ∷ [])), omega (arith, b))
  | inr (why, e) ↦
      subst (IsWithin l) (sym (use_once_refused l est tokens now st why e))
        (collect-IsWithin l now st h)
]

pub use_all_from :
    (l : Limits) (uses : List Use) (st : RateState) → IsWithin l st → IsWithin l (use_all l uses st)
unfolding use_all
use_all_from l [] st h = h
use_all_from l ((est, tokens, now) ∷ uses) st h =
    use_all_from l uses (use_once l est tokens now st) (use_once-IsWithin l est tokens now st h)

-- However a fresh provider state is used, at any times, a use being recorded only where `can_use`
-- allows it: the counters of the state never exceed the limits.
pub use_all-IsWithin :
    (l : Limits) (start : Time) (uses : List Use) → IsWithin l (use_all l uses (new_state start))
use_all-IsWithin l start uses = use_all_from l uses (new_state start) (omega arith, omega arith)

collect_until :
    (now : Time) (st : RateState) → (collect now st).unavailable_until ≡ st.unavailable_until
unfolding collect roll_day
collect_until now st = ground arith

refused_until :
    (l : Limits) (est : ℕ) (now : Time) (st : RateState)
    → now < st.unavailable_until
    → (why : Refusal) × ((can_use l est now st).0 ≡ some why)
unfolding can_use refusal
refused_until l est now st before = (
  backoff (collect now st).unavailable_reason ((collect now st).unavailable_until - now),
  rw (collect_until now st) (ground arith),
)

-- The verdicts of the uses, in order.
unfoldable pub verdicts : Limits → List Use → RateState → List (Option Refusal)
verdicts l [] st = []
verdicts l ((est, tokens, now) ∷ uses) st =
    (can_use l est now st).0 ∷ verdicts l uses (use_once l est tokens now st)

use_once_until :
    (l : Limits) (est tokens : ℕ) (now : Time) (st : RateState)
    → now < st.unavailable_until
    → (use_once l est tokens now st).unavailable_until ≡ st.unavailable_until
unfolding can_use
use_once_until l est tokens now st before =
    let (why, e) = refused_until l est now st before in
    ap (λ s. s.unavailable_until) (use_once_refused l est tokens now st why e)
    ∙ collect_until now st

-- A use is tried before `end`.
abbrev pub IsBefore : Time → Use → Type 0
IsBefore end (est, tokens, now) = now < end

verdicts_until :
    (l : Limits) (until : Time) (uses : List Use) (st : RateState)
    → st.unavailable_until ≡ until
    → All (IsBefore until) uses
    → All (λ v. v ≢ none) (verdicts l uses st)
unfolding verdicts
verdicts_until l until [] st same h = tt
verdicts_until l until ((est, tokens, now) ∷ uses) st same (before, h) =
    let soon : now < st.unavailable_until = omega (arith, before, same) in
    let (why, e) = refused_until l est now st soon in
    (
      λ n. cc,
      verdicts_until l until uses (use_once l est tokens now st)
          (use_once_until l est tokens now st soon ∙ same) h,
    )

-- A provider that was marked unavailable is refused at every attempt until the time is over, however
-- many there are.
pub mark_unavailable-verdicts :
    (l : Limits) (seconds : Time) (reason : String) (at : Time) (st : RateState) (uses : List Use)
    → All (IsBefore (at + seconds)) uses
    → All (λ v. v ≢ none) (verdicts l uses (mark_unavailable seconds reason at st))
unfolding mark_unavailable
mark_unavailable-verdicts l seconds reason at st uses h =
    verdicts_until l (at + seconds) uses (mark_unavailable seconds reason at st) refl h
